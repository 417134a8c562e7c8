-- ===== src/Common/Text.antt =====
-- Text as the list of its code points, and the numbers, joins and sets that the program writes
-- with it. `String(n)` is `decimal n`, and `Number(s)` of a text of digits is `number s`.
use Prim.Native.Char.{code}
use Prim.Native.String.{String}
use Prim.Native.Nat.{ℕ, zero, suc, ◌+◌, ◌-◌, ◌*◌, ◌/◌, ◌%◌, ◌<◌, ◌≤◌}
use mathlib.Core.Path.{◌≡◌, refl, sym, ap, ◌∙◌}
use mathlib.Core.Logic.{◌↔◌, inl, inr}
use mathlib.Core.Bool.{Bool, true, false, ◌&&◌, ◌||◌}
use mathlib.Core.List.{List, [], ◌∷◌, ◌++◌}
use native.Mathlib.Omega.{arith}
use kepos.Common.Tests.{ltb, ◌==◌, Bool-cases, if◌then◌else◌}
use kepos.Common.Lists.{All}

abbrev pub Text : Type 0
Text = List ℕ

abbrev pub codes : String → Text
codes String.[] = []
codes (String.◌∷◌ c s) = code c ∷ codes s

abbrev pub text_eq : Text → Text → Bool
text_eq [] [] = true
text_eq (a ∷ s) (b ∷ t) = (a == b) && text_eq s t
text_eq _ _ = false

pub text_eq_refl : (s : Text) → text_eq s s ≡ true
text_eq_refl [] = refl
text_eq_refl (a ∷ s) = ground (arith, text_eq_refl s)

pub eq_of_text_eq : (s t : Text) → text_eq s t ≡ true → s ≡ t
eq_of_text_eq [] [] h = refl
eq_of_text_eq [] (b ∷ t) h = cc
eq_of_text_eq (a ∷ s) [] h = cc
eq_of_text_eq (a ∷ s) (b ∷ t) h = ground (arith, eq_of_text_eq s t)

pub text_eq_iff : (s t : Text) → (text_eq s t ≡ true) ↔ (s ≡ t)
text_eq_iff s t = (eq_of_text_eq s t, λ e. rw e (text_eq_refl t))

unfoldable pub decimal_from : ℕ → ℕ → Text
decimal_from zero n = []
decimal_from (suc fuel) n =
    let longer = decimal_from fuel (n / 10) ++ (48 + n % 10) ∷ [] in
    if ltb n 10 then (48 + n) ∷ [] else longer

-- The quotients by 10 fall below the number of rounds.
unfoldable pub decimal : ℕ → Text
unfolding decimal_from
decimal n = decimal_from (suc n) n

abbrev number_from : ℕ → Text → ℕ
number_from acc [] = acc
number_from acc (c ∷ s) = number_from (acc * 10 + (c - 48)) s

abbrev pub number : Text → ℕ
number s = number_from 0 s

number_from-append :
    (acc : ℕ) (s t : Text) → number_from acc (s ++ t) ≡ number_from (number_from acc s) t
number_from-append acc [] t = refl
number_from-append acc (c ∷ s) t = number_from-append (acc * 10 + (c - 48)) s t

number-decimal_from : (fuel n : ℕ) → n < fuel → number (decimal_from fuel n) ≡ n
unfolding decimal_from
number-decimal_from zero n h = absurd (omega arith)
number-decimal_from (suc fuel) n h = elim (Bool-cases (ltb n 10)) [
  | inl small ↦ rw (small, decimal_from) (omega arith)
  | inr large ↦
      rw (large, decimal_from)
        (number_from-append 0 (decimal_from fuel (n / 10)) _
          ∙ rw (number-decimal_from fuel (n / 10) (ground arith)) (omega arith))
]

-- Reading back what was printed.
pub number-decimal : (n : ℕ) → number (decimal n) ≡ n
unfolding decimal
number-decimal n = number-decimal_from (suc n) n (omega arith)

pub decimal-injective : (m n : ℕ) → decimal m ≡ decimal n → m ≡ n
decimal-injective m n e = sym (number-decimal m) ∙ ap number e ∙ number-decimal n

abbrev pub IsDigit : ℕ → Type 0
IsDigit c = (48 ≤ c) × (c ≤ 57)

All-concat : (xs : Text) (c : ℕ) → All IsDigit xs → IsDigit c → All IsDigit (xs ++ c ∷ [])
All-concat [] c h k = (k, tt)
All-concat (x ∷ xs) c h k = (h.0, All-concat xs c h.1 k)

decimal_from-IsDigit : (fuel n : ℕ) → All IsDigit (decimal_from fuel n)
unfolding decimal_from
decimal_from-IsDigit zero n = tt
decimal_from-IsDigit (suc fuel) n = elim (Bool-cases (ltb n 10)) [
  | inl small ↦ rw (small, decimal_from) ((omega arith, ground arith), tt)
  | inr large ↦
      rw (large, decimal_from)
        (All-concat (decimal_from fuel (n / 10)) _ (decimal_from-IsDigit fuel (n / 10))
          (omega arith, omega arith))
]

pub decimal-IsDigit : (n : ℕ) → All IsDigit (decimal n)
unfolding decimal
decimal-IsDigit n = decimal_from-IsDigit (suc n) n

-- A separator that is no digit splits a text in one way.
pub split_unique :
    (c : ℕ) (xs xs' ys ys' : Text)
    → ¬ IsDigit c
    → All IsDigit xs
    → All IsDigit xs'
    → xs ++ c ∷ ys ≡ xs' ++ c ∷ ys'
    → (xs ≡ xs') × (ys ≡ ys')
split_unique c [] [] ys ys' n h h' e = (refl, cc)
split_unique c [] (x ∷ xs') ys ys' n h h' e = let same : c ≡ x = cc in absurd (n (rw same h'.0))
split_unique c (x ∷ xs) [] ys ys' n h h' e = let same : x ≡ c = cc in absurd (n (rw same at h.0))
split_unique c (x ∷ xs) (x' ∷ xs') ys ys' n h h' e =
    let rest = split_unique c xs xs' ys ys' n h.1 h'.1 (cc) in (cc, rest.1)

-- `numbers.join(".")`
unfoldable pub join_dots : List ℕ → Text
join_dots [] = []
join_dots (b ∷ []) = decimal b
join_dots (b ∷ c ∷ rest) = decimal b ++ b'.' ∷ join_dots (c ∷ rest)

-- Membership in a set of texts or numbers that is kept as a list.
abbrev pub has_text : List Text → Text → Bool
has_text [] s = false
has_text (t ∷ ts) s = text_eq t s || has_text ts s

abbrev pub has : List ℕ → ℕ → Bool
has [] n = false
has (m ∷ ms) n = (m == n) || has ms n
