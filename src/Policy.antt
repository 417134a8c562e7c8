-- ===== src/Policy.antt =====
-- src/vpn/packet-policy.ts: the class PacketPolicy, which admits the packets of one peer. A method
-- returns the new object beside its answer. Times are milliseconds; `now` is read once in a call.
pub mod Table
pub mod Tcp
pub mod State
pub mod Handshake
pub mod Invariant
pub mod Upkeep
pub mod Preservation
pub mod Authority
pub mod Ends
pub mod Tracking
pub mod Opening
pub mod Isolation
pub mod Runs
use Prim.Native.Nat.{bit_and}
use kepos.Common.{
  ℕ, ◌+◌, ◌-◌, ◌*◌, ◌/◌, ◌%◌, ◌^◌, Bool, true, false, not, ◌&&◌, ◌||◌, Option, none, some, List, [],
  ◌∷◌, ◌++◌, ltb, leb, ◌==◌, if◌then◌else◌, length, take, drop,
}
use kepos.Common.Text.{Text, decimal, text_eq, has}
use kepos.Packet.{u8, u16, u32, succ32, reaches, checksum, address, Packet, fragmented, ipv4}
use Table.{
  Direction, incoming, outgoing, direction_eq, Flow, Flows, find, put, delete, without, add_key,
  stale,
}
use Tcp.{Segment, key_of, segment}
use State.{Policy, max_flows, remove, sweep, source_of, opposite, ungranted, forbidden}
use Handshake.{Advance, refuse, forget, touch, proceed, advance, account}

-- A new flow: a SYN to a granted port, or an outbound one if the policy allows it. A full table
-- makes room by the flow that has been closed for longest.
unfoldable pub evict : Policy → List Text → Option Policy
evict q [] = none
evict q (oldest ∷ rest) = some (remove q oldest)

unfoldable pub make_room : Policy → Option Policy
make_room q = if leb max_flows (length q.flows) then evict q q.closed else some q

abbrev pub new_flow : Segment → Direction → ℕ → Flow
new_flow s direction now = record {
  initiator = direction;
  sequence = s.sequence;
  replied = false;
  established = false;
  response_sequence = none;
  fin_in = none;
  fin_out = none;
  ack_in = none;
  ack_out = none;
  closed_at = none;
  last_seen = now;
}

unfoldable pub open_flow : Policy → Segment → Direction → ℕ → Policy × Bool
open_flow q s direction now =
    if not s.syn || s.ack || s.rst || forbidden q direction || ungranted q s direction
    then (q, false)
    else elim (make_room q) [
      | none ↦ (q, false)
      | some q' ↦ (record q' { flows = put s.key (new_flow s direction now) q'.flows }, true)
    ]

-- The lines below the chain: `lastSeen`, a reset, and the bookkeeping of an established flow.
unfoldable pub keep_flow : Policy → Flow → Segment → Direction → ℕ → Policy × Bool
keep_flow q flow s direction now =
    let seen = record flow { last_seen = now } in
    if s.rst
    then (remove q s.key, true)
    else if seen.established
    then (let (flow', closed) = account seen s direction now in
        (
          record q {
            flows = put s.key flow' q.flows;
            closed = if closed then add_key s.key q.closed else q.closed;
          },
          true,
        ))
    else (record q { flows = put s.key seen q.flows }, true)

unfoldable pub follow : Policy → Flow → Segment → Direction → ℕ → Policy × Bool
follow q flow s direction now = elim (advance flow s direction) [
  | refuse ↦ (q, false)
  | forget ↦ (remove q s.key, true)
  | touch ↦ (record q { flows = put s.key (record flow { last_seen = now }) q.flows }, true)
  | proceed flow' ↦ keep_flow q flow' s direction now
]

abbrev pub reopens : Flow → Segment → Bool
reopens flow s = elim flow.closed_at [ none ↦ false | some t ↦ s.syn && not s.ack ]

-- A fresh SYN on a closed flow is a new connection.
unfoldable pub track : Policy → Segment → Direction → ℕ → Policy × Bool
track q s direction now = elim (find s.key q.flows) [
  | none ↦ open_flow q s direction now
  | some flow ↦
      if reopens flow s
      then (if ungranted q s direction
          then (q, false)
          else open_flow (remove q s.key) s direction now)
      else follow q flow s direction now
]

-- An ICMP error admits the packet that it quotes: a packet of a tracked flow, sent the other way.
-- The flow's key, if the error is well formed and about these two addresses.
unfoldable pub icmp_key : Policy → Packet → Direction → Option Text
icmp_key q packet direction =
    let icmp = drop packet.header packet.bytes in
    if ltb (length icmp) 36
      || not (has (3 ∷ 11 ∷ 12 ∷ []) (u8 icmp 0))
      || not (checksum icmp 0 == 0xffff)
    then none
    else let inner = drop 8 icmp in
      let header = bit_and (u8 inner 0) 15 * 4 in
      if not (u8 inner 0 / 16 == 4)
        || not (header == 20)
        || ltb (length inner) (header + 8)
        || ltb (u16 inner 2) (header + 8)
        || not (u8 inner 9 == 6)
        || fragmented (u16 inner 6)
        || not (checksum (take header inner) 0 == 0xffff)
      then none
      else if not (text_eq (address inner 12) (source_of q (opposite direction)))
          || not (text_eq (address inner 16) (source_of q direction))
      then none
      else some (key_of (opposite direction) (u16 inner header) (u16 inner (header + 2)))

unfoldable pub admit_icmp : Policy → Packet → Direction → ℕ → Policy × Bool
admit_icmp q packet direction now = elim (icmp_key q packet direction) [
  | none ↦ (q, false)
  | some key ↦ elim (find key q.flows) [
    | none ↦ (q, false)
    | some flow ↦ (record q { flows = put key (record flow { last_seen = now }) q.flows }, true)
  ]
]

unfoldable pub admit_tcp : Policy → Packet → Direction → ℕ → Policy × Bool
admit_tcp q packet direction now = elim (segment packet direction) [
  | none ↦ (q, false)
  | some s ↦ track q s direction now
]

-- The answer of `admit`, and whether it reported `source_mismatch`.
pub record Verdict : Type 0 where
  pub policy : Policy
  pub admitted : Bool
  pub mismatch : Bool

abbrev pub plain : Policy × Bool → Verdict
plain (q, answer) = record { policy = q; admitted = answer; mismatch = false }

unfoldable pub dispatch : Policy → Packet → Direction → ℕ → Policy × Bool
dispatch q packet direction now =
    if packet.protocol == 1
    then admit_icmp q packet direction now
    else if packet.protocol == 6
    then admit_tcp q packet direction now
    else (q, false)

unfoldable pub admit : Policy → List ℕ → Direction → ℕ → Verdict
admit q bytes direction now = elim (ipv4 bytes) [
  | none ↦ record { policy = q; admitted = false; mismatch = false }
  | some packet ↦
      let wrong_source = not (text_eq packet.source (source_of q direction)) in
      if wrong_source || not (text_eq packet.destination (source_of q (opposite direction)))
      then record {
        policy = q;
        admitted = false;
        mismatch = direction_eq direction incoming && wrong_source;
      }
      else plain (dispatch (sweep q now) packet direction now)
]
