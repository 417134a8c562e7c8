-- ===== src/Framing/Chunks.antt =====
-- The receiving loop does to chunks what the specification does to their concatenation.
use kepos.Common.{
  ℕ, zero, suc, ◌+◌, ◌-◌, ◌≤◌, ◌<◌, min, ◌≡◌, refl, sym, ◌∙◌, inl, inr, Option, none, some, List,
  [], ◌∷◌, ◌++◌, append-nil, arith, ltb, ◌==◌, ==_iff, lt→ltb, Bool-cases, length, take, drop,
  concat, length-append, length-take, length-drop,
}
use kepos.Common.Outcome.{
  Run, return, and_then, and_then_assoc, Ensures, and_then_congr, Ensures-and_then, Ensures-true,
}
use kepos.Framing.{
  Partial, Decoder, idle, read_u16, Protocol, fill, start, round, rounds, chunks, ending,
  receive_frames,
}
use kepos.Framing.Stream.{regroup, payload, stream, resume, stream_header, payload_full}

-- Between two rounds: a header that is not complete, or a frame that is not full.
abbrev pub Ready : List ℕ → Option Partial → Type 0
Ready header none = length header < 2
Ready header (some f) = (header ≡ []) × (length f.filled < f.size)

abbrev IsReady : Decoder → Type 0
IsReady d = Ready d.header d.frame

module _ {E S : Type 0} (p : Protocol E S) where
  -- A round keeps the decoder ready, and leaves fewer than `n` bytes of the chunk.
  abbrev Leaves : ℕ → Decoder × List ℕ → Type 0
  Leaves n r = IsReady r.0 × (length r.1 < n)

  fill-Leaves :
      (size : ℕ) (filled chunk : List ℕ) (n : ℕ) (s : S)
      → length filled ≤ size
      → length chunk - min (size - length filled) (length chunk) < n
      → Ensures (Leaves n) (fill p size filled chunk s)
  unfolding fill
  fill-Leaves size filled chunk n s h k =
      let count = min (size - length filled) (length chunk) in
      let left : length (drop count chunk) < n = omega (arith, length-drop count chunk) in
      elim (Bool-cases (length (filled ++ take count chunk) == size)) [
        | inl full ↦ rw full (
            Ensures-and_then (λ _. Unit {0}) (Leaves n) _ _
              (Ensures-true (p.deliver (filled ++ take count chunk) s))
              λ _ _ _. (omega arith, left))
        | inr short ↦ rw short (
          (refl, ground (arith, length-append filled (take count chunk), length-take count chunk)),
          left,
        )
      ]

  start-Leaves :
      (header chunk : List ℕ) (n : ℕ) (s : S)
      → length header < 2
      → 0 < length chunk
      → length chunk ≤ n
      → Ensures (Leaves n) (start p header chunk s)
  unfolding start
  start-Leaves header chunk n s h k l =
      let size = min (2 - length header) (length chunk) in
      let header' = header ++ take size chunk in
      let taken : length header' ≡ length header + min size (length chunk) =
        omega (arith, length-append header (take size chunk), length-take size chunk) in
      let left : length (drop size chunk) < n = omega (arith, length-drop size chunk) in
      elim (Bool-cases (ltb (length header') 2)) [
        | inl short ↦ rw short (ground arith, left)
        | inr complete ↦ rw complete (elim (Bool-cases (p.invalid (read_u16 header' 0))) [
          | inl bad ↦ rw bad tt
          | inr good ↦ rw good (
              fill-Leaves (read_u16 header' 0) [] (drop size chunk) n s (omega arith) (omega arith))
        ])
      ]

  round-Leaves :
      (header : List ℕ) (frame : Option Partial) (b : ℕ) (bs : List ℕ) (s : S)
      → Ready header frame
      → Ensures
          (Leaves (suc (length bs)))
          (round p (record { header = header; frame = frame }) (b ∷ bs) s)
  unfolding round
  round-Leaves header none b bs s h =
      start-Leaves header (b ∷ bs) (suc (length bs)) s h (omega arith) (omega arith)
  round-Leaves header (some f) b bs s h =
      fill-Leaves f.size f.filled (b ∷ bs) (suc (length bs)) s (omega arith) (omega arith)

module _ {E S : Type 0} (p : Protocol E S) (failure : Option E) where
  -- What is left to do after a round on a chunk, when the bytes `later` follow it.
  abbrev after : List ℕ → Decoder × List ℕ → Run E S (Unit {0})
  after later r = resume p failure r.0 (r.1 ++ later)

  fill_lem :
      (size : ℕ) (filled chunk later : List ℕ) (s : S)
      → length filled ≤ size
      → payload p failure (stream p failure) size (filled ++ (chunk ++ later)) s
        ≡ and_then (fill p size filled chunk s) (after later)
  unfolding fill
  fill_lem size filled chunk later s h =
      let count = min (size - length filled) (length chunk) in
      let filled' = filled ++ take count chunk in
      let rest = drop count chunk ++ later in
      rw (regroup count filled chunk later) (elim (Bool-cases (length filled' == size)) [
        | inl full ↦ rw full (
            payload_full p failure (stream p failure) filled' rest size s ((==_iff _ _).0 full)
            ∙ sym (
                and_then_assoc (p.deliver filled' s) (λ _. return (idle, drop count chunk))
                  (after later)))
        | inr short ↦ rw short refl
      ])

  start_lem :
      (header chunk later : List ℕ) (s : S)
      → length header < 2
      → stream p failure (header ++ (chunk ++ later)) s
        ≡ and_then (start p header chunk s) (after later)
  unfolding start
  start_lem header chunk later s h =
      let size = min (2 - length header) (length chunk) in
      let header' = header ++ take size chunk in
      let taken : length header' ≡ length header + min size (length chunk) =
        omega (arith, length-append header (take size chunk), length-take size chunk) in
      rw (regroup size header chunk later) (elim (Bool-cases (ltb (length header') 2)) [
        | inl short ↦ rw short refl
        | inr complete ↦
            rw
              (
                complete,
                stream_header p failure header' (drop size chunk ++ later) s (ground arith),
              )
              (elim (Bool-cases (p.invalid (read_u16 header' 0))) [
                | inl bad ↦ rw bad
                | inr good ↦
                    rw good
                      (fill_lem (read_u16 header' 0) [] (drop size chunk) later s (omega arith))
              ])
      ])

  round_lem :
      (header : List ℕ) (frame : Option Partial) (chunk later : List ℕ) (s : S)
      → Ready header frame
      → resume p failure (record { header = header; frame = frame }) (chunk ++ later) s
        ≡ and_then (round p (record { header = header; frame = frame }) chunk s) (after later)
  unfolding round
  round_lem header none chunk later s h = start_lem header chunk later s h
  round_lem header (some f) chunk later s h = fill_lem f.size f.filled chunk later s (omega arith)

  -- The loop over a chunk takes all of it, whatever follows.
  rounds_lem :
      (fuel : ℕ) (d : Decoder) (chunk later : List ℕ) (s : S)
      → IsReady d
      → length chunk ≤ fuel
      → resume p failure d (chunk ++ later) s
        ≡ and_then (rounds p fuel d chunk s) (λ d'. resume p failure d' later)
  unfolding rounds
  rounds_lem fuel d [] later s h k = refl
  rounds_lem zero d (b ∷ bs) later s h k = absurd (omega arith)
  rounds_lem (suc fuel) d (b ∷ bs) later s h k =
      round_lem d.header d.frame (b ∷ bs) later s h
      ∙ and_then_congr (Leaves p (suc (length bs))) (round p d (b ∷ bs) s) _ _
          (round-Leaves p d.header d.frame b bs s h)
          (λ r t l. rounds_lem fuel r.0 r.1 later t l.0 (omega arith))
      ∙ sym (and_then_assoc (round p d (b ∷ bs) s) (λ r. rounds p fuel r.0 r.1) _)

  rounds-IsReady :
      (fuel : ℕ) (d : Decoder) (chunk : List ℕ) (s : S)
      → IsReady d
      → Ensures IsReady (rounds p fuel d chunk s)
  unfolding rounds
  rounds-IsReady fuel d [] s h = h
  rounds-IsReady zero d (b ∷ bs) s h = h
  rounds-IsReady (suc fuel) d (b ∷ bs) s h =
      Ensures-and_then (Leaves p (suc (length bs))) IsReady (round p d (b ∷ bs) s) _
        (round-Leaves p d.header d.frame b bs s h) λ r t l. rounds-IsReady fuel r.0 r.1 t l.0

  chunks_lem :
      (d : Decoder) (cs : List (List ℕ)) (s : S)
      → IsReady d
      → resume p failure d (concat cs) s ≡ and_then (chunks p d cs s) (λ d'. resume p failure d' [])
  unfolding chunks
  chunks_lem d [] s h = refl
  chunks_lem d (c ∷ cs) s h =
      rounds_lem (length c) d c (concat cs) s h (omega arith)
      ∙ and_then_congr IsReady (rounds p (length c) d c s) _ _ (rounds-IsReady (length c) d c s h)
          (λ d' t r. chunks_lem d' cs t r)
      ∙ sym (and_then_assoc (rounds p (length c) d c s) (λ d'. chunks p d' cs) _)

  chunks-IsReady :
      (d : Decoder) (cs : List (List ℕ)) (s : S) → IsReady d → Ensures IsReady (chunks p d cs s)
  unfolding chunks
  chunks-IsReady d [] s h = h
  chunks-IsReady d (c ∷ cs) s h =
      Ensures-and_then IsReady IsReady (rounds p (length c) d c s) _
        (rounds-IsReady (length c) d c s h) λ d' t r. chunks-IsReady d' cs t r

module _ {E S : Type 0} (p : Protocol E S) where
  ending_lem :
      (failure : Option E) (header : List ℕ) (frame : Option Partial) (s : S)
      → Ready header frame
      → ending p (record { header = header; frame = frame }) failure s
        ≡ resume p failure (record { header = header; frame = frame }) [] s
  unfolding ending stream
  ending_lem none [] none s h = refl
  ending_lem (some e) [] none s h = refl
  ending_lem none (a ∷ []) none s h = refl
  ending_lem (some e) (a ∷ []) none s h = refl
  ending_lem none (a ∷ b ∷ t) none s h = absurd (omega arith)
  ending_lem (some e) (a ∷ b ∷ t) none s h = absurd (omega arith)
  ending_lem none header (some f) s h =
      rw (append-nil f.filled, lt→ltb (length f.filled) f.size h.1)
  ending_lem (some e) header (some f) s h =
      rw (append-nil f.filled, lt→ltb (length f.filled) f.size h.1)

-- Receiving a stream in any chunks is reading its bytes frame by frame.
pub receive_frames-stream :
    {E S : Type 0} (p : Protocol E S) (failure : Option E) (cs : List (List ℕ)) (s : S)
    → receive_frames p cs failure s ≡ stream p failure (concat cs) s
unfolding receive_frames
receive_frames-stream p failure cs s =
    and_then_congr IsReady (chunks p idle cs s) _ _
      (chunks-IsReady p failure idle cs s (omega arith))
      (λ d t r. ending_lem p failure d.header d.frame t r)
    ∙ sym (chunks_lem p failure idle cs s (omega arith))
