-- ===== src/Common/Numerals.antt =====
-- Canonical numerals: a text of at most three digits without a leading zero, the pattern
-- `/^(0|[1-9][0-9]{0,2})$/` of src/vpn/receiver-state.ts, is what its number prints as.
use Prim.Native.Nat.{ℕ, zero, suc, ◌+◌, ◌-◌, ◌*◌, ◌/◌, ◌%◌, ◌<◌, ◌≤◌}
use mathlib.Core.Path.{◌≡◌, refl, ◌∙◌}
use mathlib.Core.Logic.{inl, inr}
use mathlib.Core.Bool.{Bool, true, false, ◌&&◌, ◌||◌}
use mathlib.Core.List.{[], ◌∷◌, ◌++◌}
use native.Mathlib.Omega.{arith}
use kepos.Common.Tests.{ltb, leb, ◌==◌, Bool-cases}
use kepos.Common.Lists.{length}
use kepos.Common.Text.{Text, decimal, decimal_from, number}

abbrev pub is_digit : ℕ → Bool
is_digit c = leb 48 c && leb c 57

abbrev pub all : (ℕ → Bool) → Text → Bool
all test [] = true
all test (c ∷ s) = test c && all test s

abbrev pub numeral : Text → Bool
numeral [] = false
numeral (c ∷ s) =
    c == b'0' && length s == 0 || leb b'1' c && leb c b'9' && leb (length s) 2 && all is_digit s

-- More rounds than the number needs change nothing.
decimal_from-fuel : (f g n : ℕ) → n < f → n < g → decimal_from f n ≡ decimal_from g n
unfolding decimal_from
decimal_from-fuel zero g n h k = absurd (omega arith)
decimal_from-fuel (suc f) zero n h k = absurd (omega arith)
decimal_from-fuel (suc f) (suc g) n h k = elim (Bool-cases (ltb n 10)) [
  | inl small ↦ rw small refl
  | inr large ↦ rw (large, decimal_from-fuel f g (n / 10) (ground arith) (ground arith)) refl
]

decimal_digit : (d : ℕ) → d < 10 → decimal d ≡ (48 + d) ∷ []
unfolding decimal decimal_from
decimal_digit d h = let small : ltb d 10 ≡ true = ground arith in rw small refl

decimal_snoc : (m d : ℕ) → 0 < m → d < 10 → decimal (m * 10 + d) ≡ decimal m ++ (48 + d) ∷ []
unfolding decimal decimal_from
decimal_snoc m d h k =
    let large : ltb (m * 10 + d) 10 ≡ false = ground arith in
    let front : (m * 10 + d) / 10 ≡ m = omega arith in
    let last : (m * 10 + d) % 10 ≡ d = omega arith in
    rw (large, front, last, decimal_from-fuel (m * 10 + d) (suc m) m (omega arith) (omega arith))
      refl

one_digit : (c n : ℕ) → n + 48 ≡ c → c ≤ 57 → decimal n ≡ c ∷ []
one_digit c n e k =
    let same : 48 + n ≡ c = omega arith in decimal_digit n (omega arith) ∙ rw same refl

next_digit :
    (m : ℕ) (s : Text) (c n : ℕ)
    → 0 < m
    → decimal m ≡ s
    → 48 ≤ c
    → c ≤ 57
    → n ≡ m * 10 + (c - 48)
    → decimal n ≡ s ++ c ∷ []
next_digit m s c n p e h k q =
    let same : 48 + (c - 48) ≡ c = omega arith in
    rw q (decimal_snoc m (c - 48) p (omega arith) ∙ rw (e, same) refl)

pub decimal-number : (p : Text) → numeral p ≡ true → decimal (number p) ≡ p
decimal-number [] h = cc
decimal-number (c ∷ []) h =
    let digit : (48 ≤ c) × (c ≤ 57) = ground arith in
    one_digit c (number (c ∷ [])) (omega arith) digit.1
decimal-number (c ∷ d ∷ []) h =
    let first : (49 ≤ c) × (c ≤ 57) = ground arith in
    let second : (48 ≤ d) × (d ≤ 57) = ground arith in
    next_digit (number (c ∷ [])) (c ∷ []) d (number (c ∷ d ∷ [])) (omega arith)
      (one_digit c (number (c ∷ [])) (omega arith) first.1) second.0 second.1 refl
decimal-number (c ∷ d ∷ e ∷ []) h =
    let first : (49 ≤ c) × (c ≤ 57) = ground arith in
    let second : (48 ≤ d) × (d ≤ 57) = ground arith in
    let third : (48 ≤ e) × (e ≤ 57) = ground arith in
    next_digit (number (c ∷ d ∷ [])) (c ∷ d ∷ []) e (number (c ∷ d ∷ e ∷ [])) (omega arith)
      (next_digit (number (c ∷ [])) (c ∷ []) d (number (c ∷ d ∷ [])) (omega arith)
        (one_digit c (number (c ∷ [])) (omega arith) first.1) second.0 second.1 refl)
      third.0 third.1 refl
decimal-number (c ∷ d ∷ e ∷ f ∷ s) h = ground arith

two_digits : (n : ℕ) → 10 ≤ n → n < 100 → decimal n ≡ (48 + n / 10) ∷ (48 + n % 10) ∷ []
two_digits n h k =
    next_digit (n / 10) ((48 + n / 10) ∷ []) (48 + n % 10) n (omega arith)
      (decimal_digit (n / 10) (omega arith)) (omega arith) (omega arith) (omega arith)

three_digits :
    (n : ℕ)
    → 100 ≤ n
    → n < 1000
    → decimal n ≡ (48 + n / 10 / 10) ∷ (48 + n / 10 % 10) ∷ (48 + n % 10) ∷ []
three_digits n h k =
    next_digit (n / 10) ((48 + n / 10 / 10) ∷ (48 + n / 10 % 10) ∷ []) (48 + n % 10) n (omega arith)
      (two_digits (n / 10) (omega arith) (omega arith)) (omega arith) (omega arith) (omega arith)

-- A number below 1000 prints as such a numeral.
pub numeral-decimal : (n : ℕ) → n < 1000 → numeral (decimal n) ≡ true
numeral-decimal n h = elim (Bool-cases (ltb n 10)) [
  | inl one ↦ rw (decimal_digit n (ground arith)) (ground arith)
  | inr more ↦ elim (Bool-cases (ltb n 100)) [
    | inl two ↦ rw (two_digits n (ground arith) (ground arith)) (ground arith)
    | inr three ↦ rw (three_digits n (ground arith) (ground arith)) (ground arith)
  ]
]
