-- ===== src/Policy/Handshake.antt =====
-- src/vpn/packet-policy.ts: what `admit` makes of a segment that belongs to a tracked flow.
pub mod Steps
use kepos.Common.{
  ℕ, ◌+◌, ◌-◌, ◌%◌, ◌^◌, Bool, true, false, not, ◌&&◌, ◌||◌, Option, none, some, ◌==◌,
  if◌then◌else◌,
}
use kepos.Packet.{succ32, reaches}
use kepos.Policy.Table.{Direction, incoming, outgoing, direction_eq, Flow}
use kepos.Policy.Tcp.{Segment}

-- How the `if` chain over `replied` and `established` ends: `return false`, `remove` and `return
-- true`, an early `return true` that has set `lastSeen`, or on to the lines below the chain.
pub data Advance : Type 0 where
  refuse forget touch : Advance
  proceed : Flow → Advance

-- `(x! + 1) >>> 0`, which is 0 if `x` is undefined, and `value === x`.
abbrev pub succ32_of : Option ℕ → ℕ
succ32_of none = 0
succ32_of (some n) = succ32 n

abbrev pub is_some_eq : ℕ → Option ℕ → Bool
is_some_eq value none = false
is_some_eq value (some n) = value == n

-- No reply has been seen.
unfoldable pub await_reply : Flow → Segment → Direction → Advance
await_reply flow s direction =
    if direction_eq direction flow.initiator
    then (if not s.syn || s.ack || not (s.sequence == flow.sequence) then refuse else proceed flow)
    else if s.rst && s.ack && s.acknowledged == succ32 flow.sequence
    then forget
    else if not s.syn || not s.ack || not (s.acknowledged == succ32 flow.sequence)
    then refuse
    else proceed (record flow { replied = true; response_sequence = some s.sequence })

-- The initiator has been answered, and its acknowledgement is missing.
unfoldable pub await_ack : Flow → Segment → Direction → Advance
await_ack flow s direction =
    if direction_eq direction flow.initiator
    then (if s.syn && not s.ack && s.sequence == flow.sequence
        then touch
        else if s.rst
            && not s.syn
            && s.sequence == succ32 flow.sequence
            && (not s.ack || s.acknowledged == succ32_of flow.response_sequence)
        then forget
        else if not s.ack
            || s.syn
            || not (s.sequence == succ32 flow.sequence)
            || not (s.acknowledged == succ32_of flow.response_sequence)
        then refuse
        else proceed (record flow { established = true }))
    else if not s.syn
        || not s.ack
        || not (is_some_eq s.sequence flow.response_sequence)
        || not (s.acknowledged == succ32 flow.sequence)
    then refuse
    else proceed flow

unfoldable pub advance : Flow → Segment → Direction → Advance
advance flow s direction =
    if not flow.replied
    then await_reply flow s direction
    else if not flow.established
    then await_ack flow s direction
    else if s.syn && not s.ack && not (direction_eq direction flow.initiator)
    then refuse
    else proceed flow

-- The bookkeeping of an established flow: acknowledgements, ends, and the time at which both ends
-- are acknowledged.
abbrev newer : Option ℕ → ℕ → Option ℕ
newer none value = some value
newer (some previous) value = if reaches value previous then some value else some previous

unfoldable pub note_ack : Flow → Segment → Direction → Flow
note_ack flow s incoming =
    if s.ack then record flow { ack_in = newer flow.ack_in s.acknowledged } else flow
note_ack flow s outgoing =
    if s.ack then record flow { ack_out = newer flow.ack_out s.acknowledged } else flow

-- `??=`
abbrev or_else : Option ℕ → ℕ → Option ℕ
or_else none n = some n
or_else (some m) n = some m

-- `(sequence + length - offset + 1) >>> 0`; the segment is at least as long as its header.
abbrev end_of : Segment → ℕ
end_of s = (s.sequence + s.length - s.offset + 1) % 2 ^ 32

unfoldable pub note_fin : Flow → Segment → Direction → Flow
note_fin flow s incoming =
    if s.fin then record flow { fin_in = or_else flow.fin_in (end_of s) } else flow
note_fin flow s outgoing =
    if s.fin then record flow { fin_out = or_else flow.fin_out (end_of s) } else flow

abbrev acknowledges : Option ℕ → Option ℕ → Bool
acknowledges (some ack) (some end) = reaches ack end
acknowledges _ _ = false

-- `closedAt` is undefined, and each end has been acknowledged by the other side.
unfoldable pub closes : Flow → Bool
closes flow = elim flow.closed_at [
  | none ↦ acknowledges flow.ack_out flow.fin_in && acknowledges flow.ack_in flow.fin_out
  | some t ↦ false
]

-- The flow after an established segment, and whether it has just been closed.
unfoldable pub account : Flow → Segment → Direction → ℕ → Flow × Bool
account flow s direction now =
    let flow' = note_fin (note_ack flow s direction) s direction in
    if closes flow' then (record flow' { closed_at = some now }, true) else (flow', false)
