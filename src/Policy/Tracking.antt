-- ===== src/Policy/Tracking.antt =====
-- What the three segments that open a connection do to the table of flows.
use kepos.Common.{ℕ, ◌≡◌, ◌<◌, refl, ◌∙◌, ap, true, false, none, some, arith, if◌then◌else◌, length}
use kepos.Common.Text.{Text, text_eq_refl, text_eq_iff}
use kepos.Packet.{succ32}
use kepos.Policy.Table.{Direction, incoming, outgoing, direction_eq, Flow, Flows, find, put}
use kepos.Policy.Table.Laws.{find-put}
use kepos.Policy.Tcp.{Segment}
use kepos.Policy.Handshake.{proceed, succ32_of, await_reply, await_ack, advance, account}
use kepos.Policy.Handshake.Steps.{account-established}
use kepos.Policy.State.{Policy, opposite, ungranted, forbidden}
use kepos.Policy.{make_room, new_flow, open_flow, keep_flow, follow, track}

-- SYN, SYN with ACK, and the ACK that ends the handshake.
abbrev pub IsSyn : Segment → Type 0
IsSyn s = (s.syn ≡ true) × (s.ack ≡ false) × (s.rst ≡ false)

abbrev pub IsSynAck : Segment → Segment → Type 0
IsSynAck first s =
    (s.key ≡ first.key)
    × (s.syn ≡ true)
    × (s.ack ≡ true)
    × (s.rst ≡ false)
    × (s.acknowledged ≡ succ32 first.sequence)

abbrev pub IsAck : Segment → Segment → Segment → Type 0
IsAck first second s =
    (s.key ≡ first.key)
    × (s.syn ≡ false)
    × (s.ack ≡ true)
    × (s.rst ≡ false)
    × (s.sequence ≡ succ32 first.sequence)
    × (s.acknowledged ≡ succ32 second.sequence)

-- A SYN for which there is no flow, where the policy lets it in and the table has room.
pub track-open :
    (q : Policy) (s : Segment) (d : Direction) (now : ℕ)
    → find s.key q.flows ≡ none
    → IsSyn s
    → forbidden q d ≡ false
    → ungranted q s d ≡ false
    → length q.flows < 4096
    → track q s d now ≡ (record q { flows = put s.key (new_flow s d now) q.flows }, true)
unfolding track open_flow make_room
track-open q s d now absent h may granted room = ground arith

opposite_ne : (d : Direction) → direction_eq (opposite d) d ≡ false
opposite_ne incoming = refl
opposite_ne outgoing = refl

direction_eq_refl : (d : Direction) → direction_eq d d ≡ true
direction_eq_refl incoming = refl
direction_eq_refl outgoing = refl

track-proceed :
    (q : Policy) (f g : Flow) (s : Segment) (d : Direction) (now : ℕ)
    → find s.key q.flows ≡ some f
    → f.closed_at ≡ none
    → advance f s d ≡ proceed g
    → track q s d now ≡ keep_flow q g s d now
unfolding track follow
track-proceed q f g s d now found open' e = ground arith

advance-reply :
    (f : Flow) (s : Segment) (d : Direction)
    → f.replied ≡ false
    → direction_eq d f.initiator ≡ false
    → (s.syn ≡ true) × (s.ack ≡ true) × (s.rst ≡ false) × (s.acknowledged ≡ succ32 f.sequence)
    → advance f s d ≡ proceed (record f { replied = true; response_sequence = some s.sequence })
unfolding advance await_reply
advance-reply f s d r o h = ground arith

advance-finish :
    (f : Flow) (s : Segment) (d : Direction)
    → (f.replied ≡ true) × (f.established ≡ false)
    → direction_eq d f.initiator ≡ true
    → (s.syn ≡ false)
      × (s.ack ≡ true)
      × (s.rst ≡ false)
      × (s.sequence ≡ succ32 f.sequence)
      × (s.acknowledged ≡ succ32_of f.response_sequence)
    → advance f s d ≡ proceed (record f { established = true })
unfolding advance await_ack
advance-finish f s d r o h = ground arith

keep_flow-early :
    (q : Policy) (g : Flow) (s : Segment) (d : Direction) (now : ℕ)
    → s.rst ≡ false
    → g.established ≡ false
    → keep_flow q g s d now
      ≡ (record q { flows = put s.key (record g { last_seen = now }) q.flows }, true)
unfolding keep_flow
keep_flow-early q g s d now r e = ground arith

keep_flow-late :
    (q : Policy) (g : Flow) (s : Segment) (d : Direction) (now : ℕ)
    → s.rst ≡ false
    → g.established ≡ true
    → ((keep_flow q g s d now).1 ≡ true)
      × ((keep_flow q g s d now).0.flows
          ≡ put s.key (account (record g { last_seen = now }) s d now).0 q.flows)
unfolding keep_flow
keep_flow-late q g s d now r e = ground arith

pub find_written : (key : Text) (f : Flow) (m : Flows) → find key (put key f m) ≡ some f
find_written key f m = ground (arith, find-put key key f m, text_eq_refl key)

module _ (first second third : Segment) (d : Direction) (t₁ t₂ t₃ : ℕ) where
  abbrev pub began : Flow
  began = new_flow first d t₁

  abbrev pub answered : Flow
  answered = record began {
    replied = true;
    response_sequence = some second.sequence;
    last_seen = t₂;
  }

  pub track-answer :
      (q' : Policy)
      → find first.key q'.flows ≡ some began
      → IsSynAck first second
      → track q' second (opposite d) t₂
        ≡ (record q' { flows = put first.key answered q'.flows }, true)
  track-answer q' found h =
      let found' : find second.key q'.flows ≡ some began = rw h.0 found in
      track-proceed q' began _ second (opposite d) t₂ found' refl
        (advance-reply began second (opposite d) refl (opposite_ne d) (h.1, h.2, h.3, h.4))
      ∙ keep_flow-early q' _ second (opposite d) t₂ h.3 refl
      ∙ ap (λ k. (record q' { flows = put k answered q'.flows }, true)) h.0

  pub track-finish :
      (q' : Policy)
      → find first.key q'.flows ≡ some answered
      → IsAck first second third
      → ((track q' third d t₃).1 ≡ true)
        × ((f : Flow) × (find first.key (track q' third d t₃).0.flows ≡ some f)
            × (f.established ≡ true))
  track-finish q' found h =
      let found' : find third.key q'.flows ≡ some answered = rw h.0 found in
      let g = record answered { established = true } in
      let step : track q' third d t₃ ≡ keep_flow q' g third d t₃ =
        track-proceed q' answered g third d t₃ found' refl (
          advance-finish answered third d (refl, refl) (direction_eq_refl d)
            (h.1, h.2, h.3, h.4, h.5)) in
      let late = keep_flow-late q' g third d t₃ h.3 refl in
      let f = (account (record g { last_seen = t₃ }) third d t₃).0 in
      (
        ap (λ r. r.1) step ∙ late.0,
        (
          f,
          ap (λ r. find first.key r.0.flows) step
              ∙ ap (find first.key) late.1
              ∙ find-put third.key first.key f q'.flows
              ∙ ap (λ b. if b then some f else find first.key q'.flows)
                  ((text_eq_iff third.key first.key).1 h.0),
          account-established (record g { last_seen = t₃ }) third d t₃,
        ),
      )
