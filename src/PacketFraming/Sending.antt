-- ===== src/PacketFraming/Sending.antt =====
-- Any history of calls and stream events, and the connection of a sender to a receiver.
use kepos.Common.{
  ℕ, ◌≡◌, ◌↔◌, inl, inr, sym, ap, ◌∙◌, Bool, true, false, none, List, [], ◌∷◌, ◌++◌, map, ◌≢◌,
  append_assoc, append-nil, arith, concat, All, if◌then◌else◌, Bool-cases,
}
use mathlib.Core.List.{map-append}
use kepos.Common.Outcome.{Run}
use kepos.PacketFraming.{
  VpnError, concurrent_writes, closed_during_write, foreign, receive, encode, close_on_error,
  Sender, fresh, Sent, resolved, pending, rejected, send, after_write, Event, drain, close, error,
  settle,
}
use kepos.PacketFraming.Receiving.{IsPacket, deliver_all, receive-encode-All}

-- What happens to the object: a call, with the answers of the stream, or an event of the stream.
pub data Step : Type 0 where
  call : (packet : List ℕ) (room gone : Bool) → Step
  event : Event → Step

abbrev pub step : Sender → Step → Sender
step q (call packet room gone) = (send q packet room gone).0
step q (event e) = (settle q e).0

abbrev pub run : Sender → List Step → Sender
run q [] = q
run q (x ∷ xs) = run (step q x) xs

-- Did the call reach `write`?
abbrev pub reached : Sent → Bool
reached resolved = true
reached pending = true
reached (rejected closed_during_write) = true
reached (rejected (foreign n)) = true
reached (rejected e) = false

abbrev pub accepted_by : Sender → Step → List (List ℕ)
accepted_by q (call packet room gone) =
    if reached (send q packet room gone).1 then packet ∷ [] else []
accepted_by q (event e) = []

-- The packets of the calls that reached `write`, in order.
abbrev pub accepted : Sender → List Step → List (List ℕ)
accepted q [] = []
accepted q (x ∷ xs) = accepted_by q x ++ accepted (step q x) xs

-- A call reaches `write` exactly if the packet's length is valid, no call waits and the stream is
-- open; then it adds the packet's frame, and otherwise it leaves the object as it was.
pub send_iff :
    (q : Sender) (packet : List ℕ) (room gone : Bool)
    → ((reached (send q packet room gone).1 ≡ true)
        ↔ (IsPacket packet × (q.writing ≡ false) × (q.destroyed ≡ false)))
      × ((send q packet room gone).0.written ≡ (
          if reached (send q packet room gone).1
          then q.written ++ encode packet ∷ []
          else q.written))
      × (reached (send q packet room gone).1 ≡ false → (send q packet room gone).0 ≡ q)
unfolding send after_write
send_iff q packet true gone = ground arith
send_iff q packet false true = ground arith
send_iff q packet false false = ground arith

step-written :
    (q : Sender) (x : Step) → (step q x).written ≡ q.written ++ map encode (accepted_by q x)
unfolding settle
step-written q (call packet room gone) = elim (Bool-cases (reached (send q packet room gone).1)) [
  | inl yes' ↦ (send_iff q packet room gone).1 ∙ rw yes'
  | inr no' ↦ (send_iff q packet room gone).1 ∙ rw no' (sym (append-nil q.written))
]
step-written q (event drain) = ground (arith, append-nil q.written)
step-written q (event close) = ground (arith, append-nil q.written)
step-written q (event (error n)) = ground (arith, append-nil q.written)

-- The stream holds exactly the frames of the accepted packets, in order.
run-written :
    (q : Sender) (xs : List Step) → (run q xs).written ≡ q.written ++ map encode (accepted q xs)
run-written q [] = sym (append-nil q.written)
run-written q (x ∷ xs) =
    run-written (step q x) xs
    ∙ ap (λ w. w ++ map encode (accepted (step q x) xs)) (step-written q x)
    ∙ append_assoc q.written (map encode (accepted_by q x)) (map encode (accepted (step q x) xs))
    ∙ ap (◌++◌ q.written) (sym (map-append encode (accepted_by q x) (accepted (step q x) xs)))

All-append : (P : List ℕ → Type 0) (xs ys : List (List ℕ)) → All P xs → All P ys → All P (xs ++ ys)
All-append P [] ys h k = k
All-append P (x ∷ xs) ys h k = (h.0, All-append P xs ys h.1 k)

accepted_by-IsPacket : (q : Sender) (x : Step) → All IsPacket (accepted_by q x)
accepted_by-IsPacket q (event e) = tt
accepted_by-IsPacket q (call packet room gone) =
    elim (Bool-cases (reached (send q packet room gone).1)) [
      | inl yes' ↦ rw yes' (((send_iff q packet room gone).0.0 yes').0, tt)
      | inr no' ↦ rw no' tt
    ]

accepted-IsPacket : (q : Sender) (xs : List Step) → All IsPacket (accepted q xs)
accepted-IsPacket q [] = tt
accepted-IsPacket q (x ∷ xs) =
    All-append IsPacket _ _ (accepted_by-IsPacket q x) (accepted-IsPacket (step q x) xs)

-- Whatever is called on the sender, and however the transport cuts what it wrote into chunks, the
-- receiver's `deliver` is handed the accepted packets, in order, and nothing else.
pub receive-run :
    {S : Type 0} (deliver : List ℕ → Run VpnError S (Unit {0})) (xs : List Step)
    (chunks : List (List ℕ)) (s : S)
    → concat chunks ≡ concat (run fresh xs).written
    → receive deliver chunks none s ≡ close_on_error (deliver_all deliver (accepted fresh xs) s)
receive-run deliver xs chunks s e =
    receive-encode-All deliver (accepted fresh xs) chunks s (accepted-IsPacket fresh xs)
      (e ∙ ap concat (run-written fresh xs))

writing_of_pending :
    (q : Sender) (packet : List ℕ) (room gone : Bool)
    → (send q packet room gone).1 ≡ pending
    → (send q packet room gone).0.writing ≡ true
unfolding send after_write
writing_of_pending q packet true gone h = ground arith
writing_of_pending q packet false true h = ground arith
writing_of_pending q packet false false h = ground arith

send_while_writing :
    (q : Sender) (next : List ℕ) (r g : Bool)
    → q.writing ≡ true
    → IsPacket next
    → send q next r g ≡ (q, rejected concurrent_writes)
unfolding send
send_while_writing q next r g w h = ground arith

settle_while_writing :
    (q : Sender) (e : Event)
    → q.writing ≡ true
    → ((settle q e).0.writing ≡ false) × ((settle q e).1 ≢ none)
unfolding settle
settle_while_writing q drain w = ground arith
settle_while_writing q close w = ground arith
settle_while_writing q (error n) w = ground arith

-- While a call waits every other valid call is refused and changes nothing, and the next event of
-- the stream ends the wait.
pub one_at_a_time :
    (q : Sender) (packet : List ℕ) (room gone : Bool) (e : Event)
    → (send q packet room gone).1 ≡ pending
    → ((next : List ℕ) (r g : Bool)
        → IsPacket next
        → send (send q packet room gone).0 next r g
          ≡ ((send q packet room gone).0, rejected concurrent_writes))
      × ((settle (send q packet room gone).0 e).0.writing ≡ false)
      × ((settle (send q packet room gone).0 e).1 ≢ none)
one_at_a_time q packet room gone e h =
    let waits = writing_of_pending q packet room gone h in
    let ends = settle_while_writing (send q packet room gone).0 e waits in
    (λ next r g k. send_while_writing _ next r g waits k, ends.0, ends.1)
