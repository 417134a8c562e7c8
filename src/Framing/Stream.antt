-- ===== src/Framing/Stream.antt =====
-- The whole byte stream as the specification of the receiving loop: what it does depends on the
-- bytes alone, however the stream cuts them into chunks.
use kepos.Common.{
  ℕ, zero, suc, ◌+◌, ◌*◌, ◌≤◌, ◌≡◌, refl, sym, ap, ◌∙◌, inl, inr, Option, none, some, false, List,
  [], ◌∷◌, ◌++◌, append_assoc, arith, ltb, if◌then◌else◌, Bool-cases, length, take, drop,
  length-append, length-drop, take-append-drop, take-append, drop-append,
}
use kepos.Common.Outcome.{Run, ◌>>=◌, return, throw, Ensures, and_then_congr, Ensures-true}
use kepos.Framing.{Decoder, read_u16, Protocol}

-- The bytes that a round takes from a chunk, and those that it leaves.
pub regroup :
    (n : ℕ) (held chunk later : List ℕ)
    → held ++ (chunk ++ later) ≡ (held ++ take n chunk) ++ (drop n chunk ++ later)
regroup n held chunk later =
    ap (λ c. held ++ (c ++ later)) (sym (take-append-drop n chunk))
    ∙ ap (◌++◌ held) (append_assoc (take n chunk) (drop n chunk) later)
    ∙ sym (append_assoc held (take n chunk) (drop n chunk ++ later))

module _ {E S : Type 0} (p : Protocol E S) (failure : Option E) where
  -- The stream is over inside a frame, and between two frames.
  abbrev pub cut : Run E S (Unit {0})
  cut = elim failure [ none ↦ throw p.truncated | some e ↦ throw e ]

  abbrev pub over : Run E S (Unit {0})
  over = elim failure [ none ↦ return tt | some e ↦ throw e ]

  abbrev pub payload : (List ℕ → Run E S (Unit {0})) → ℕ → List ℕ → Run E S (Unit {0})
  payload next size bytes =
      if ltb (length bytes) size
      then cut
      else (p.deliver (take size bytes) >>= λ _. next (drop size bytes))

  -- A stream is frame after frame: two bytes of length, and so many bytes of payload. The fuel
  -- bounds the number of frames.
  unfoldable pub parse : ℕ → List ℕ → Run E S (Unit {0})
  parse fuel [] = over
  parse fuel (a ∷ []) = cut
  parse zero (a ∷ b ∷ rest) = cut
  parse (suc fuel) (a ∷ b ∷ rest) =
      if p.invalid (a * 256 + b)
      then throw p.invalid_length
      else payload (parse fuel) (a * 256 + b) rest

  -- A stream has no more frames than bytes.
  unfoldable pub stream : List ℕ → Run E S (Unit {0})
  unfolding parse
  stream bytes = parse (length bytes) bytes

  payload_congr :
      (f g : List ℕ → Run E S (Unit {0})) (size : ℕ) (bytes : List ℕ) (s : S)
      → ((r : List ℕ) (t : S) → length r ≤ length bytes → f r t ≡ g r t)
      → payload f size bytes s ≡ payload g size bytes s
  payload_congr f g size bytes s h = elim (Bool-cases (ltb (length bytes) size)) [
    | inl short ↦ rw short
    | inr enough ↦ rw enough (
        and_then_congr (λ _. Unit {0}) (p.deliver (take size bytes) s) _ _ trivial
          λ _ t _. h (drop size bytes) t (omega (arith, length-drop size bytes)))
  ]
    where
      trivial : Ensures (λ _. Unit {0}) (p.deliver (take size bytes) s)
      trivial = Ensures-true (p.deliver (take size bytes) s)

  -- A frame that is all there is delivered, and the rest of the stream follows.
  pub payload_full :
      (next : List ℕ → Run E S (Unit {0})) (frame rest : List ℕ) (size : ℕ) (s : S)
      → length frame ≡ size
      → payload next size (frame ++ rest) s ≡ (p.deliver frame >>= λ _. next rest) s
  payload_full next frame rest size s e =
      let enough : ltb (length (frame ++ rest)) (length frame) ≡ false =
        ground (arith, length-append frame rest) in
      rw (← e) (rw enough (rw (take-append frame rest, drop-append frame rest)))

  parse_fuel :
      (f g : ℕ) (bytes : List ℕ) (s : S)
      → length bytes ≤ f
      → length bytes ≤ g
      → parse f bytes s ≡ parse g bytes s
  unfolding parse
  parse_fuel f g [] s h k = refl
  parse_fuel f g (a ∷ []) s h k = refl
  parse_fuel (suc f) (suc g) (a ∷ b ∷ rest) s h k =
      let same =
        payload_congr (parse f) (parse g) (a * 256 + b) rest s
          λ r t l. parse_fuel f g r t (omega arith) (omega arith) in
      elim (Bool-cases (p.invalid (a * 256 + b))) [ inl bad ↦ rw bad | inr good ↦ rw good same ]
  parse_fuel _ _ (a ∷ b ∷ rest) _ h k = absurd (omega arith)

  -- The behaviour that is left when a decoder has taken part of the stream.
  abbrev pub resume : Decoder → List ℕ → Run E S (Unit {0})
  resume d bytes = elim d.frame [
    | none ↦ stream (d.header ++ bytes)
    | some f ↦ payload stream f.size (f.filled ++ bytes)
  ]

  -- A header that is complete begins a frame.
  pub stream_header :
      (header bytes : List ℕ) (s : S)
      → length header ≡ 2
      → stream (header ++ bytes) s
        ≡ (if p.invalid (read_u16 header 0)
              then throw p.invalid_length
              else payload stream (read_u16 header 0) bytes)
            s
  unfolding stream parse
  stream_header (a ∷ b ∷ []) bytes s h =
      let same =
        payload_congr (parse (suc (length bytes))) stream (a * 256 + b) bytes s
          λ r t l. parse_fuel (suc (length bytes)) (length r) r t (omega arith) (omega arith) in
      elim (Bool-cases (p.invalid (a * 256 + b))) [ inl bad ↦ rw bad | inr good ↦ rw good same ]
  stream_header [] bytes s h = absurd (omega arith)
  stream_header (a ∷ []) bytes s h = absurd (omega arith)
  stream_header (a ∷ b ∷ c ∷ t) bytes s h = absurd (omega arith)
