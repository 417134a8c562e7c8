-- ===== src/ReceiverState/Addresses/Ranges.antt =====
-- The range of a pool lies in one block of 2 ^ 16 addresses, so all of it is outside the refused
-- ranges: every number of the range is an address that reads as that number.
use mathlib.Core.Path.{subst}
use kepos.Common.{
  ℕ, ◌+◌, ◌-◌, ◌/◌, ◌%◌, ◌^◌, ◌<◌, ◌≤◌, true, not, ◌||◌, some, List, [], ◌∷◌, ltb, ◌==◌, All, ◌≡◌,
  refl, sym, ap, ◌∙◌, arith, guard_passed, unsome, Bool-cases, Option-cases, inl, inr, ==_iff,
}
use kepos.Common.Text.{Text, decimal, number, text_eq, has}
use kepos.Common.Split.{split}
use kepos.ReceiverState.Addresses.{
  Range, ipv4, address, reserved, bytes_of, pool_range, network, parse_cidr, cidr,
}
use kepos.ReceiverState.Addresses.Canonical.{address-ipv4, ipv4-address, ipv4_unreserved}

All_has : (P : ℕ → Type 0) (xs : List ℕ) (n : ℕ) → has xs n ≡ true → All P xs → P n
All_has P [] n h a = cc
All_has P (x ∷ xs) n h a = elim (Bool-cases (x == n)) [
  | inl e ↦ subst P ((==_iff x n).0 e) a.0
  | inr e ↦ All_has P xs n (ground arith) a.1
]

-- A network of `size` addresses does not cross a multiple of 2 ^ 16.
IsBlock : ℕ → Type 0
IsBlock bits =
    (base n : ℕ)
    → base % 2 ^ (32 - bits) ≡ 0
    → base ≤ n
    → n < base + 2 ^ (32 - bits)
    → n / 2 ^ 16 ≡ base / 2 ^ 16

abbrev widths : List ℕ
widths = 16 ∷ 17 ∷ 18 ∷ 19 ∷ 20 ∷ 21 ∷ 22 ∷ 23 ∷ 24 ∷ 25 ∷ 26 ∷ 27 ∷ 28 ∷ 29 ∷ 30 ∷ []

blocks : All IsBlock widths
unfolding IsBlock
blocks = (
  λ base n h k l. omega arith,
  (
    λ base n h k l. omega arith,
    (
      λ base n h k l. omega arith,
      (
        λ base n h k l. omega arith,
        (
          λ base n h k l. omega arith,
          (
            λ base n h k l. omega arith,
            (
              λ base n h k l. omega arith,
              (
                λ base n h k l. omega arith,
                (
                  λ base n h k l. omega arith,
                  (
                    λ base n h k l. omega arith,
                    (
                      λ base n h k l. omega arith,
                      (
                        λ base n h k l. omega arith,
                        (
                          λ base n h k l. omega arith,
                          (λ base n h k l. omega arith, (λ base n h k l. omega arith, tt)),
                        ),
                      ),
                    ),
                  ),
                ),
              ),
            ),
          ),
        ),
      ),
    ),
  ),
)

block : (bits : ℕ) → 16 ≤ bits → bits ≤ 30 → IsBlock bits
block bits h k = All_has IsBlock widths bits (ground arith) blocks

-- Two numbers with the same upper half are reserved together.
same_block : (m n : ℕ) → n / 2 ^ 16 ≡ m / 2 ^ 16 → reserved (bytes_of n) ≡ reserved (bytes_of m)
unfolding reserved bytes_of
same_block m n e =
    let first : n / 2 ^ 24 % 256 ≡ m / 2 ^ 24 % 256 = omega arith in
    let second : n / 2 ^ 16 % 256 ≡ m / 2 ^ 16 % 256 = omega arith in rw (first, second) refl

-- What a network that is accepted gives.
network_lem :
    (base bits : ℕ) (range : Range)
    → network base bits ≡ some range
    → (base % 2 ^ (32 - bits) ≡ 0)
      × ((range.first ≡ base + 1) × (range.last ≡ base + 2 ^ (32 - bits) - 2))
unfolding network
network_lem base bits range e =
    let size = 2 ^ (32 - bits) in
    let (aligned, inner) = guard_passed (not (base % size == 0)) _ range e in
    elim (Option-cases (ipv4 (address (base + size - 1)))) [
      | inl bad ↦ absurd (cc (rw bad at inner))
      | inr (top, good) ↦
          let same = unsome (rw good at inner) in
          (
            ground arith,
            (sym (ap (λ (r : Range). r.first) same), sym (ap (λ (r : Range). r.last) same)),
          )
    ]

-- What a pool that is accepted is: a network of a base that reads as an address.
pool_range_lem :
    (pool : Text) (range : Range)
    → pool_range pool ≡ some range
    → (bits base : ℕ) × (text : Text) × ((16 ≤ bits)
        × ((bits ≤ 30) × ((ipv4 text ≡ some base) × (network base bits ≡ some range))))
unfolding pool_range parse_cidr
pool_range_lem pool range e = elim (Option-cases (cidr (split b'/' pool))) [
  | inl bad ↦ absurd (cc (rw (bad, pool_range) at e))
  | inr ((text, digits), good) ↦
      let bits = number digits in
      let (sizes, inner) =
        guard_passed (ltb bits 16 || ltb 30 bits || not (text_eq (decimal bits) digits)) _ range
          (rw (good, pool_range) at e) in
      elim (Option-cases (ipv4 text)) [
        | inl bad ↦ absurd (cc (rw bad at inner))
        | inr (base, fine) ↦
            (bits, base, text, (ground arith, (ground arith, (fine, rw fine at inner))))
      ]
]

-- Every number of the range of an accepted pool has 32 bits and prints as an address that reads as
-- that number, so no address of the pool is in a refused range.
pub pool_range-ipv4 :
    (pool : Text) (range : Range) (n : ℕ)
    → pool_range pool ≡ some range
    → range.first ≤ n
    → n ≤ range.last
    → (ipv4 (address n) ≡ some n) × (n < 2 ^ 32)
unfolding IsBlock
pool_range-ipv4 pool range n e above below =
    let (bits, base, text, (lo, (hi, (fine, net)))) = pool_range_lem pool range e in
    let (aligned, (first, last)) = network_lem base bits range net in
    let near = block bits lo hi base n aligned (omega arith) (omega arith) in
    let (same, small) = address-ipv4 text base fine in
    let bound : n < 2 ^ 32 = omega arith in
    let free = same_block base n near ∙ ipv4_unreserved text base fine in
    (ipv4-address n bound free, bound)
