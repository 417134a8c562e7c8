-- ===== src/Common/Split.antt =====
-- `text.split(separator)` for a separator of one character, and canonical numerals.
use Prim.Native.Nat.{ℕ}
use mathlib.Core.Path.{◌≡◌, refl, ap, ◌∙◌}
use mathlib.Core.Logic.{◌≢◌, inl, inr}
use mathlib.Core.Bool.{true, false}
use mathlib.Core.List.{List, [], ◌∷◌, ◌++◌}
use native.Mathlib.Omega.{arith}
use kepos.Common.Tests.{◌==◌, ==_iff, Bool-cases, if_cases, if◌then◌else◌}
use kepos.Common.Lists.{All}
use kepos.Common.Text.{Text}

-- The first part takes a character more.
abbrev extend : ℕ → List Text → List Text
extend c [] = (c ∷ []) ∷ []
extend c (p ∷ ps) = (c ∷ p) ∷ ps

unfoldable pub split : ℕ → Text → List Text
split separator [] = [] ∷ []
split separator (c ∷ s) =
    let rest = split separator s in if c == separator then [] ∷ rest else extend c rest

==_refl : (c : ℕ) → (c == c) ≡ true
==_refl c = ground arith

pub split-none : (c : ℕ) (s : Text) → All (λ x. (x == c) ≡ false) s → split c s ≡ s ∷ []
unfolding split
split-none c [] h = refl
split-none c (x ∷ s) h = rw (h.0, split-none c s h.1) refl

pub split-append :
    (c : ℕ) (s t : Text) → All (λ x. (x == c) ≡ false) s → split c (s ++ c ∷ t) ≡ s ∷ split c t
unfolding split
split-append c [] t h = rw (==_refl c) refl
split-append c (x ∷ s) t h = rw (h.0, split-append c s t h.1) refl

-- `parts.join(separator)`
abbrev pub join : ℕ → List Text → Text
join c [] = []
join c (p ∷ []) = p
join c (p ∷ q ∷ ps) = p ++ c ∷ join c (q ∷ ps)

join-extend : (c x : ℕ) (ps : List Text) → join c (extend x ps) ≡ x ∷ join c ps
join-extend c x [] = refl
join-extend c x (p ∷ []) = refl
join-extend c x (p ∷ q ∷ ps) = refl

join-nil : (c : ℕ) (ps : List Text) → ps ≢ [] → join c ([] ∷ ps) ≡ c ∷ join c ps
join-nil c [] h = absurd (h refl)
join-nil c (p ∷ ps) h = refl

extend-nonempty : (x : ℕ) (ps : List Text) → extend x ps ≢ []
extend-nonempty x [] e = cc
extend-nonempty x (p ∷ ps) e = cc

split-nonempty : (c : ℕ) (s : Text) → split c s ≢ []
unfolding split
split-nonempty c [] = λ e. cc
split-nonempty c (x ∷ s) =
    if_cases (λ (ps : List Text). ps ≢ []) (x == c) _ _ (λ h e. cc)
      (λ h. extend-nonempty x (split c s))

pub join-split : (c : ℕ) (s : Text) → join c (split c s) ≡ s
unfolding split
join-split c [] = refl
join-split c (x ∷ s) = elim (Bool-cases (x == c)) [
  | inl same ↦
      rw same (
        join-nil c (split c s) (split-nonempty c s) ∙ rw (join-split c s, (==_iff x c).0 same) refl)
  | inr other ↦ rw other (join-extend c x (split c s) ∙ ap (◌∷◌ x) (join-split c s))
]
