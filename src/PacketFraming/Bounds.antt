-- ===== src/PacketFraming/Bounds.antt =====
-- What every call of `deliver` is given, whatever the bytes that arrive.
use kepos.Common.{
  ℕ, zero, suc, Bool-cases, inl, inr, take, drop, length-take, ◌+◌, ◌*◌, ◌≡◌, refl, Option, none,
  some, List, [], ◌∷◌, arith, ltb, length, concat,
}
use kepos.Common.Outcome.{Outcome, done, thrown, Run, and_then}
use kepos.Framing.Stream.{parse, stream, cut, over}
use kepos.Framing.Chunks.{receive_frames-stream}
use kepos.PacketFraming.{VpnError, bad_length, packet_protocol, receive, close_on_error}
use kepos.PacketFraming.Receiving.{IsPacket}

module _ {S : Type 0} (P : S → Type 0) where
  -- What holds of the state in which a handler ends, however it ends.
  abbrev pub Leaves : Outcome VpnError S (Unit {0}) → Type 0
  Leaves (done u s) = P s
  Leaves (thrown e s) = P s

  Leaves-and_then :
      (o : Outcome VpnError S (Unit {0})) (f : Run VpnError S (Unit {0}))
      → Leaves o
      → ((s : S) → P s → Leaves (f s))
      → Leaves (and_then o (λ _. f))
  Leaves-and_then (done u s) f h k = k s h
  Leaves-and_then (thrown e s) f h k = h

module _ {S : Type 0} (deliver : List ℕ → Run VpnError S (Unit {0})) (P : S → Type 0)
    (keeps : (packet : List ℕ) (s : S) → IsPacket packet → P s → Leaves P (deliver packet s)) where
  cut-Leaves :
      (failure : Option VpnError) (s : S) → P s → Leaves P (cut (packet_protocol deliver) failure s)
  cut-Leaves none s h = h
  cut-Leaves (some e) s h = h

  over-Leaves :
      (failure : Option VpnError) (s : S)
      → P s
      → Leaves P (over (packet_protocol deliver) failure s)
  over-Leaves none s h = h
  over-Leaves (some e) s h = h

  parse-Leaves :
      (failure : Option VpnError) (fuel : ℕ) (bytes : List ℕ) (s : S)
      → P s
      → Leaves P (parse (packet_protocol deliver) failure fuel bytes s)
  unfolding parse
  parse-Leaves failure fuel [] s h = over-Leaves failure s h
  parse-Leaves failure fuel (a ∷ []) s h = cut-Leaves failure s h
  parse-Leaves failure zero (a ∷ b ∷ rest) s h = cut-Leaves failure s h
  parse-Leaves failure (suc fuel) (a ∷ b ∷ rest) s h =
      let size = a * 256 + b in
      elim (Bool-cases (bad_length size)) [
        | inl bad ↦ rw bad h
        | inr good ↦ rw good (elim (Bool-cases (ltb (length rest) size)) [
          | inl short ↦ rw short (cut-Leaves failure s h)
          | inr enough ↦ rw enough (
              Leaves-and_then P (deliver (take size rest) s) _
                (keeps (take size rest) s (ground (arith, length-take size rest)) h)
                λ t k. parse-Leaves failure fuel (drop size rest) t k)
        ])
      ]

  close_on_error-outcome : (o : Outcome VpnError S (Unit {0})) → (close_on_error o).outcome ≡ o
  close_on_error-outcome (done u s) = refl
  close_on_error-outcome (thrown e s) = refl

  -- Whatever the peer sends, `deliver` is called with packets of a valid length only: what it keeps
  -- on those holds when `receive` ends, whether it returns or throws.
  pub receive-Leaves :
      (chunks : List (List ℕ)) (failure : Option VpnError) (s : S)
      → P s
      → Leaves P (receive deliver chunks failure s).outcome
  unfolding receive stream
  receive-Leaves chunks failure s h =
      rw (close_on_error-outcome, receive_frames-stream (packet_protocol deliver) failure chunks s)
        (parse-Leaves failure (length (concat chunks)) (concat chunks) s h)
