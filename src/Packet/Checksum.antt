-- ===== src/Packet/Checksum.antt =====
-- The checksum is the ones' complement sum of RFC 1071.
use kepos.Common.{
  ℕ, ◌+◌, ◌-◌, ◌*◌, ◌%◌, ◌^◌, ◌<◌, ◌≤◌, ◌≡◌, ◌↔◌, refl, List, [], ◌∷◌, arith, ◌==◌, if◌then◌else◌,
  length, All,
}
use kepos.Packet.{IsByte, sum_words, fold_carries, checksum}

-- The sum of the 16-bit words of the bytes, as a plain number.
abbrev pub words : List ℕ → ℕ
words [] = 0
words (a ∷ []) = a * 256
words (a ∷ b ∷ rest) = a * 256 + b + words rest

sum_words-words : (bytes : List ℕ) (sum : ℕ) → sum_words bytes sum ≡ sum + words bytes
unfolding sum_words
sum_words-words [] sum = omega arith
sum_words-words (a ∷ []) sum = refl
sum_words-words (a ∷ b ∷ rest) sum = omega (arith, sum_words-words rest (sum + (a * 256 + b)))

words_bound : (bytes : List ℕ) → All IsByte bytes → words bytes ≤ length bytes * 65535
words_bound [] h = omega arith
words_bound (a ∷ []) h = omega arith
words_bound (a ∷ b ∷ rest) h = omega (arith, words_bound rest h.1.1)

-- Three rounds of the loop are enough for any sum of 32 bits: the loop has ended by its test.
fold_carries_lem :
    (sum : ℕ) → sum < 2 ^ 32 → fold_carries 3 sum ≡ (if sum == 0 then 0 else (sum - 1) % 65535 + 1)
unfolding fold_carries
fold_carries_lem sum h = ground arith

-- The checksum is the sum of the words modulo 65535, with 65535 for a positive multiple of it: of
-- at most 65535 bytes, over an initial value of 16 bits.
pub checksum_lem :
    (bytes : List ℕ) (initial : ℕ)
    → All IsByte bytes
    → length bytes ≤ 65535
    → initial < 65536
    → let sum = initial + words bytes in
      checksum bytes initial ≡ (if sum == 0 then 0 else (sum - 1) % 65535 + 1)
unfolding checksum
checksum_lem bytes initial h k l =
    let sum = initial + words bytes in
    let small : sum < 2 ^ 32 = omega (arith, words_bound bytes h) in
    rw (sum_words-words bytes initial, fold_carries_lem sum small) (ground arith)

-- So a text of bytes passes the receiver's check exactly if its words add up to a positive multiple
-- of 65535.
pub checksum_iff :
    (bytes : List ℕ) (initial : ℕ)
    → All IsByte bytes
    → length bytes ≤ 65535
    → initial < 65536
    → (checksum bytes initial ≡ 0xffff)
      ↔ ((0 < initial + words bytes) × ((initial + words bytes) % 65535 ≡ 0))
checksum_iff bytes initial h k l = ground (arith, checksum_lem bytes initial h k l)
