-- ===== src/Framing.antt =====
-- The length-prefixed framing that src/vpn/framing.ts and src/vpn/worklet-framing.ts share: the
-- loop of `receive`, over the checks, errors and handler in which the two differ. A byte is a
-- number below 256, and a `for await` loop is a recursion on the chunks that the stream yields.
pub mod Stream
pub mod Chunks
use kepos.Common.{
  ℕ, zero, suc, ◌+◌, ◌-◌, ◌*◌, min, Bool, Option, none, some, List, [], ◌∷◌, ◌++◌, ltb, ◌==◌,
  if◌then◌else◌, length, take, drop, get_or,
}
use kepos.Common.Outcome.{Run, ◌>>=◌, return, throw}

-- `packet` and `packetBytes`: a buffer of `size` bytes whose first ones are filled.
pub record Partial : Type 0 where
  pub size : ℕ
  pub filled : List ℕ

-- The variables of the loop. `header` is the part of the header buffer that is filled, so its
-- length is `headerBytes`.
pub record Decoder : Type 0 where
  pub header : List ℕ
  pub frame : Option Partial

abbrev pub idle : Decoder
idle = record { header = []; frame = none }

-- `Buffer.readUInt16BE`
abbrev pub read_u16 : List ℕ → ℕ → ℕ
read_u16 bytes offset = get_or bytes offset 0 * 256 + get_or bytes (offset + 1) 0

-- What `receive` is written over: the check of a length, the two errors, and `deliver`.
pub record Protocol (E S : Type 0) : Type 0 where
  pub invalid : ℕ → Bool
  pub invalid_length : E
  pub truncated : E
  pub deliver : List ℕ → Run E S (Unit {0})

module _ {E S : Type 0} (p : Protocol E S) where
  -- The lower half of a round: the frame takes what the chunk still has, and is delivered if full.
  pub fill : ℕ → List ℕ → List ℕ → Run E S (Decoder × List ℕ)
  fill size filled chunk =
      let count = min (size - length filled) (length chunk) in
      let filled' = filled ++ take count chunk in
      if length filled' == size
      then (p.deliver filled' >>= λ _. return (idle, drop count chunk))
      else return (
        record { header = []; frame = some (record { size = size; filled = filled' }) },
        drop count chunk,
      )

  -- The upper half, with no frame begun: the header takes what it needs.
  pub start : List ℕ → List ℕ → Run E S (Decoder × List ℕ)
  start header chunk =
      let size = min (2 - length header) (length chunk) in
      let header' = header ++ take size chunk in
      let rest = drop size chunk in
      if ltb (length header') 2
      then return (record { header = header'; frame = none }, rest)
      else if p.invalid (read_u16 header' 0)
      then throw p.invalid_length
      else fill (read_u16 header' 0) [] rest

  -- One round of `while (offset < chunk.length)`, on the part of the chunk from `offset` on.
  pub round : Decoder → List ℕ → Run E S (Decoder × List ℕ)
  round d chunk = elim d.frame [ none ↦ start d.header chunk | some f ↦ fill f.size f.filled chunk ]

  -- The `while` loop. Each round takes a byte at least, so `length chunk` rounds are enough.
  pub rounds : ℕ → Decoder → List ℕ → Run E S Decoder
  rounds fuel d [] = return d
  rounds zero d (b ∷ bs) = return d
  rounds (suc fuel) d (b ∷ bs) = round d (b ∷ bs) >>= λ r. rounds fuel r.0 r.1

  -- The `for await` loop over the chunks.
  pub chunks : Decoder → List (List ℕ) → Run E S Decoder
  chunks d [] = return d
  chunks d (c ∷ cs) = rounds (length c) d c >>= λ d'. chunks d' cs

  -- `if (headerBytes || packet) throw`
  pub finish : Decoder → Run E S (Unit {0})
  finish d = elim d.frame [
    | none ↦ if length d.header == 0 then return tt else throw p.truncated
    | some f ↦ throw p.truncated
  ]

  -- The stream ends, or fails with an error of its own.
  pub ending : Decoder → Option E → Run E S (Unit {0})
  unfolding finish
  ending d none = finish d
  ending d (some e) = throw e

  unfoldable pub receive_frames : List (List ℕ) → Option E → Run E S (Unit {0})
  unfolding chunks rounds round start fill ending
  receive_frames cs failure = chunks idle cs >>= λ d. ending d failure
