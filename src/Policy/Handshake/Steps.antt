-- ===== src/Policy/Handshake/Steps.antt =====
-- What a segment may change in a flow.
use kepos.Common.{
  ℕ, ◌≡◌, Bool-cases, if_cases, ◌⊎◌, inl, inr, refl, ◌∙◌, Bool, true, false, none, some, arith,
}
use kepos.Packet.{succ32}
use kepos.Policy.Table.{Direction, incoming, outgoing, direction_eq, Flow}
use kepos.Policy.Tcp.{Segment}
use kepos.Policy.Handshake.{
  proceed, await_reply, await_ack, advance, note_ack, note_fin, closes, account, succ32_of,
}

-- The two flags say how far the handshake has come; the reply's sequence number is known from the
-- reply on, and only an established flow is closed.
pub record IsOrdered (f : Flow) : Type 0 where
  pub answered : f.replied ≡ true → (n : ℕ) × (f.response_sequence ≡ some n)
  pub in_order : f.established ≡ true → f.replied ≡ true
  pub late : f.established ≡ false → f.closed_at ≡ none

-- A step keeps who began the flow, its first sequence number and whether it is closed.
pub record Keeps (f g : Flow) : Type 0 where
  pub initiator : g.initiator ≡ f.initiator
  pub sequence : g.sequence ≡ f.sequence
  pub closed_at : g.closed_at ≡ f.closed_at
  pub ordered : IsOrdered g

-- The three ways in which a flow goes on: as it is, with the reply, or with the final
-- acknowledgement of the handshake.
pub data Progress (f : Flow) (s : Segment) (d : Direction) (g : Flow) : Type 0 where
  same : g ≡ f → Progress f s d g
  reply :
      direction_eq d f.initiator ≡ false
      → s.syn ≡ true
      → s.ack ≡ true
      → s.acknowledged ≡ succ32 f.sequence
      → f.replied ≡ false
      → g ≡ record f { replied = true; response_sequence = some s.sequence }
      → Progress f s d g
  finish :
      direction_eq d f.initiator ≡ true
      → s.syn ≡ false
      → s.ack ≡ true
      → s.sequence ≡ succ32 f.sequence
      → s.acknowledged ≡ succ32_of f.response_sequence
      → f.replied ≡ true
      → f.established ≡ false
      → g ≡ record f { established = true }
      → Progress f s d g

await_reply-Progress :
    (f g : Flow) (s : Segment) (d : Direction)
    → f.replied ≡ false
    → await_reply f s d ≡ proceed g
    → Progress f s d g
unfolding await_reply
await_reply-Progress f g s d r e = elim (Bool-cases (direction_eq d f.initiator)) [
  | inl mine ↦ same (ground arith)
  | inr other ↦ reply other (ground arith) (ground arith) (ground arith) r (ground arith)
]

await_ack-Progress :
    (f g : Flow) (s : Segment) (d : Direction)
    → f.replied ≡ true
    → f.established ≡ false
    → await_ack f s d ≡ proceed g
    → Progress f s d g
unfolding await_ack
await_ack-Progress f g s d r n e = elim (Bool-cases (direction_eq d f.initiator)) [
  | inl mine ↦
      finish mine (ground arith) (ground arith) (ground arith) (ground arith) r n (ground arith)
  | inr other ↦ same (ground arith)
]

pub advance-Progress :
    (f g : Flow) (s : Segment) (d : Direction) → advance f s d ≡ proceed g → Progress f s d g
unfolding advance
advance-Progress f g s d e = elim (Bool-cases f.replied) [
  | inr r ↦ await_reply-Progress f g s d r (ground arith)
  | inl r ↦ elim (Bool-cases f.established) [
    | inr n ↦ await_ack-Progress f g s d r n (ground arith)
    | inl y ↦ same (ground arith)
  ]
]

pub Progress-Keeps :
    {f g : Flow} {s : Segment} {d : Direction} → IsOrdered f → Progress f s d g → Keeps f g
Progress-Keeps h (same e) =
    rw e (record { initiator = refl; sequence = refl; closed_at = refl; ordered = h })
Progress-Keeps {s} h (reply _ _ _ _ r e) = rw e (record {
  initiator = refl;
  sequence = refl;
  closed_at = refl;
  ordered = record { answered = λ _. (s.sequence, refl); in_order = λ _. refl; late = h.late };
})
Progress-Keeps h (finish _ _ _ _ _ r n e) = rw e (record {
  initiator = refl;
  sequence = refl;
  closed_at = refl;
  ordered = record { answered = h.answered; in_order = λ _. r; late = λ b. absurd (cc) };
})

note_ack-Keeps : (f : Flow) (s : Segment) (d : Direction) → IsOrdered f → Keeps f (note_ack f s d)
unfolding note_ack
note_ack-Keeps f s incoming h = ground arith
note_ack-Keeps f s outgoing h = ground arith

note_fin-Keeps : (f : Flow) (s : Segment) (d : Direction) → IsOrdered f → Keeps f (note_fin f s d)
unfolding note_fin
note_fin-Keeps f s incoming h = ground arith
note_fin-Keeps f s outgoing h = ground arith

note-established :
    (f : Flow) (s : Segment) (d : Direction)
    → (note_fin (note_ack f s d) s d).established ≡ f.established
unfolding note_ack note_fin
note-established f s incoming = ground arith
note-established f s outgoing = ground arith

-- The flow after the bookkeeping is established as before; it may have been closed, at this time.
pub record Accounted (f : Flow) (now : ℕ) (r : Flow × Bool) : Type 0 where
  pub initiator : r.0.initiator ≡ f.initiator
  pub sequence : r.0.sequence ≡ f.sequence
  pub ordered : IsOrdered r.0
  pub closing : (r.0.closed_at ≡ some now) ⊎ ((r.1 ≡ false) × (r.0.closed_at ≡ f.closed_at))

pub account-Accounted :
    (f : Flow) (s : Segment) (d : Direction) (now : ℕ)
    → IsOrdered f
    → f.established ≡ true
    → Accounted f now (account f s d now)
unfolding account
account-Accounted f s d now h e =
    let f' = note_fin (note_ack f s d) s d in
    let k = note_ack-Keeps f s d h in
    let k' = note_fin-Keeps (note_ack f s d) s d k.ordered in
    let e' : f'.established ≡ true = note-established f s d ∙ e in
    elim (Bool-cases (closes f')) [
      | inl ends ↦ rw ends (record {
        initiator = k'.initiator ∙ k.initiator;
        sequence = k'.sequence ∙ k.sequence;
        ordered = record {
          answered = k'.ordered.answered;
          in_order = k'.ordered.in_order;
          late = λ n. absurd (cc);
        };
        closing = inl refl;
      })
      | inr open' ↦ rw open' (record {
        initiator = k'.initiator ∙ k.initiator;
        sequence = k'.sequence ∙ k.sequence;
        ordered = k'.ordered;
        closing = inr (refl, k'.closed_at ∙ k.closed_at);
      })
    ]

pub account-established :
    (f : Flow) (s : Segment) (d : Direction) (now : ℕ)
    → (account f s d now).0.established ≡ f.established
unfolding account
account-established f s d now =
    if_cases (λ (r : Flow × Bool). r.0.established ≡ f.established)
      (closes (note_fin (note_ack f s d) s d)) _ _ (λ _. note-established f s d)
      (λ _. note-established f s d)
