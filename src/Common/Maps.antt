-- ===== src/Common/Maps.antt =====
-- A map with texts as keys, as the list of its entries in the order of insertion.
use Prim.Native.Nat.{suc, ◌+◌, ◌≤◌}
use mathlib.Core.Path.{◌≡◌, refl, sym, subst}
use mathlib.Core.Bool.{Bool, true, false, ◌||◌}
use mathlib.Core.Option.{Option, none, some}
use mathlib.Core.List.{List, [], ◌∷◌}
use native.Mathlib.Omega.{arith}
use kepos.Common.Tests.{if◌then◌else◌, if_cases, Bool-cases, unsome}
use mathlib.Core.Logic.{inl, inr}
use kepos.Common.Lists.{length, All}
use kepos.Common.Text.{Text, text_eq, text_eq_refl, eq_of_text_eq}

module _ {A : Type 0} where
  abbrev pub has_key : List (Text × A) → Text → Bool
  has_key [] k = false
  has_key ((l, a) ∷ m) k = text_eq l k || has_key m k

  unfoldable pub get : List (Text × A) → Text → Option A
  get [] k = none
  get ((l, a) ∷ m) k = let later = get m k in if text_eq l k then some a else later

  unfoldable pub set : List (Text × A) → Text → A → List (Text × A)
  set [] k b = (k, b) ∷ []
  set ((l, a) ∷ m) k b = let later = set m k b in if text_eq l k then (l, b) ∷ m else (l, a) ∷ later

  unfoldable pub del : List (Text × A) → Text → List (Text × A)
  del [] k = []
  del ((l, a) ∷ m) k = let later = del m k in if text_eq l k then later else (l, a) ∷ later

  pub length-set : (m : List (Text × A)) (k : Text) (b : A) → length (set m k b) ≤ length m + 1
  unfolding set
  length-set [] k b = omega arith
  length-set ((l, a) ∷ m) k b =
      let rest = length-set m k b in
      if_cases (λ (x : List (Text × A)). length x ≤ suc (length m) + 1) (text_eq l k) _ _
        (λ e. omega arith) (λ e. omega arith)

  pub length-del : (m : List (Text × A)) (k : Text) → length (del m k) ≤ length m
  unfolding del
  length-del [] k = omega arith
  length-del ((l, a) ∷ m) k =
      let rest = length-del m k in
      if_cases (λ (x : List (Text × A)). length x ≤ suc (length m)) (text_eq l k) _ _
        (λ e. omega arith) (λ e. omega arith)

  -- A key that is there leaves the map smaller.
  pub del_present :
      (m : List (Text × A)) (k : Text) → has_key m k ≡ true → length (del m k) + 1 ≤ length m
  unfolding del
  del_present [] k h = cc
  del_present ((l, a) ∷ m) k h =
      let fewer = length-del m k in
      if_cases (λ (x : List (Text × A)). length x + 1 ≤ suc (length m)) (text_eq l k) _ _
        (λ e. omega arith) (λ e. let rest = del_present m k (ground arith) in omega arith)

  -- What holds of the keys.
  pub All-set :
      (P : Text → Type 0) (m : List (Text × A)) (k : Text) (b : A)
      → P k
      → All (λ (e : Text × A). P e.0) m
      → All (λ (e : Text × A). P e.0) (set m k b)
  unfolding set
  All-set P [] k b p h = (p, tt)
  All-set P ((l, a) ∷ m) k b p h =
      if_cases (All (λ (e : Text × A). P e.0)) (text_eq l k) _ _ (λ e. h)
        (λ e. (h.0, All-set P m k b p h.1))

  pub All-del :
      (P : Text → Type 0) (m : List (Text × A)) (k : Text)
      → All (λ (e : Text × A). P e.0) m
      → All (λ (e : Text × A). P e.0) (del m k)
  unfolding del
  All-del P [] k h = tt
  All-del P ((l, a) ∷ m) k h =
      if_cases (All (λ (e : Text × A). P e.0)) (text_eq l k) _ _ (λ e. All-del P m k h.1)
        (λ e. (h.0, All-del P m k h.1))

  -- What was set is got.
  pub get-set : (m : List (Text × A)) (k : Text) (b : A) → get (set m k b) k ≡ some b
  unfolding get set
  get-set [] k b = rw (text_eq_refl k) refl
  get-set ((l, a) ∷ m) k b = elim (Bool-cases (text_eq l k)) [
    | inl same ↦ rw (same, same) refl
    | inr other ↦ rw (other, other) (get-set m k b)
  ]

  -- What holds of the entries. A key that is set may stand as one that equals it.
  pub AllEntries-set :
      (P : Text × A → Type 0) (m : List (Text × A)) (k : Text) (b : A)
      → P (k, b)
      → All P m
      → All P (set m k b)
  unfolding set
  AllEntries-set P [] k b p h = (p, tt)
  AllEntries-set P ((l, a) ∷ m) k b p h =
      if_cases (All P) (text_eq l k) _ _
        (λ e. (subst (λ l. P (l, b)) (sym (eq_of_text_eq l k e)) p, h.1))
        (λ e. (h.0, AllEntries-set P m k b p h.1))

  pub AllEntries-del :
      (P : Text × A → Type 0) (m : List (Text × A)) (k : Text) → All P m → All P (del m k)
  unfolding del
  AllEntries-del P [] k h = tt
  AllEntries-del P ((l, a) ∷ m) k h =
      if_cases (All P) (text_eq l k) _ _ (λ e. AllEntries-del P m k h.1)
        (λ e. (h.0, AllEntries-del P m k h.1))

  pub AllEntries-get :
      (P : Text × A → Type 0) (m : List (Text × A)) (k : Text) (b : A)
      → get m k ≡ some b
      → All P m
      → P (k, b)
  unfolding get
  AllEntries-get P [] k b e h = absurd (cc)
  AllEntries-get P ((l, a) ∷ m) k b e h = elim (Bool-cases (text_eq l k)) [
    | inl same ↦
        let found : a ≡ b = unsome (rw same at e) in
        subst (λ l. P (l, b)) (eq_of_text_eq l k same) (subst (λ a. P (l, a)) found h.0)
    | inr other ↦ AllEntries-get P m k b (rw other at e) h.1
  ]
