-- ===== src/Common/Distinct.antt =====
-- Lists of texts without repetition.
use mathlib.Core.Path.{◌≡◌, refl, sym}
use mathlib.Core.Logic.{inl, inr}
use mathlib.Core.Bool.{Bool, true, false, ◌||◌}
use mathlib.Core.List.{List, [], ◌∷◌, ◌++◌}
use native.Mathlib.Omega.{arith}
use kepos.Common.Tests.{Bool-cases}
use kepos.Common.Text.{Text, text_eq, text_eq_refl, eq_of_text_eq, has_text}

abbrev pub Distinct : List Text → Type 0
Distinct [] = Unit
Distinct (t ∷ ts) = (has_text ts t ≡ false) × Distinct ts

pub has_text-append :
    (ts us : List Text) (s : Text)
    → has_text ts s ≡ false
    → has_text us s ≡ false
    → has_text (ts ++ us) s ≡ false
has_text-append [] us s h k = k
has_text-append (t ∷ ts) us s h k = ground (arith, has_text-append ts us s)

pub text_eq_sym : (s t : Text) → text_eq s t ≡ false → text_eq t s ≡ false
text_eq_sym s t h = elim (Bool-cases (text_eq t s)) [
  | inl same ↦
      let bad : text_eq t t ≡ false = rw (sym (eq_of_text_eq t s same)) at h in
      let good = text_eq_refl t in absurd (cc)
  | inr other ↦ other
]

left_false : (a b : Bool) → (a || b) ≡ false → a ≡ false
left_false false b e = refl
left_false true b e = cc

right_false : (a b : Bool) → (a || b) ≡ false → b ≡ false
right_false false b e = e
right_false true b e = cc

pub Distinct-append :
    (ts : List Text) (s : Text) → Distinct ts → has_text ts s ≡ false → Distinct (ts ++ s ∷ [])
Distinct-append [] s h k = (refl, tt)
Distinct-append (t ∷ ts) s h k =
    let apart = text_eq_sym t s (left_false (text_eq t s) _ k) in
    (
      has_text-append ts (s ∷ []) t h.0 (rw apart refl),
      Distinct-append ts s h.1 (right_false (text_eq t s) _ k),
    )
