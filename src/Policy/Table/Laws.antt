-- ===== src/Policy/Table/Laws.antt =====
-- The map of flows and the set of closed keys, as finite maps.
use kepos.Common.{
  suc, ◌≤◌, ◌<◌, ◌≡◌, refl, inl, inr, false, ◌||◌, none, some, List, [], ◌∷◌, arith, if◌then◌else◌,
  Bool-cases, length,
}
use kepos.Common.Text.{Text, text_eq, eq_of_text_eq, text_eq_iff, has_text}
use kepos.Policy.Table.{Flow, Flows, find, put, delete, without, add_key}

pub find-put :
    (k j : Text) (f : Flow) (m : Flows)
    → find j (put k f m) ≡ (if text_eq k j then some f else find j m)
unfolding find put
find-put k j f [] = refl
find-put k j f ((i, g) ∷ m) =
    ground (arith, text_eq_iff i k, text_eq_iff i j, text_eq_iff k j, find-put k j f m)

pub find-delete :
    (k j : Text) (m : Flows) → find j (delete k m) ≡ (if text_eq k j then none else find j m)
unfolding find delete
find-delete k j [] = ground arith
find-delete k j ((i, g) ∷ m) =
    ground (arith, text_eq_iff i k, text_eq_iff i j, text_eq_iff k j, find-delete k j m)

pub has_text-without :
    (k j : Text) (c : List Text)
    → has_text (without k c) j ≡ (if text_eq k j then false else has_text c j)
unfolding without
has_text-without k j [] = ground arith
has_text-without k j (i ∷ c) =
    ground (arith, text_eq_iff i k, text_eq_iff i j, text_eq_iff k j, has_text-without k j c)

pub has_text-add_key :
    (k j : Text) (c : List Text) → has_text (add_key k c) j ≡ (text_eq k j || has_text c j)
unfolding add_key
has_text-add_key k j [] = refl
has_text-add_key k j (i ∷ c) =
    ground (arith, text_eq_iff i k, text_eq_iff i j, text_eq_iff k j, has_text-add_key k j c)

pub length-put : (k : Text) (f : Flow) (m : Flows) → length (put k f m) ≤ suc (length m)
unfolding put
length-put k f [] = omega arith
length-put k f ((i, g) ∷ m) = ground (arith, length-put k f m)

-- A key that is there is replaced.
pub length-put_found :
    (k : Text) (f : Flow) (m : Flows) (old : Flow)
    → find k m ≡ some old
    → length (put k f m) ≡ length m
unfolding find put
length-put_found k f [] old e = cc
length-put_found k f ((i, g) ∷ m) old e = ground (arith, length-put_found k f m old)

pub length-delete : (k : Text) (m : Flows) → length (delete k m) ≤ length m
unfolding delete
length-delete k [] = omega arith
length-delete k ((i, g) ∷ m) = ground (arith, length-delete k m)

pub length-delete_found :
    (k : Text) (m : Flows) (old : Flow) → find k m ≡ some old → length (delete k m) < length m
unfolding find delete
length-delete_found k [] old e = cc
length-delete_found k ((i, g) ∷ m) old e =
    ground (arith, length-delete_found k m old, length-delete k m)

-- What holds of every flow and its key.
module _ (P : Text → Flow → Type 0) where
  abbrev pub AllFlows : Flows → Type 0
  AllFlows [] = Unit {0}
  AllFlows ((k, f) ∷ m) = P k f × AllFlows m

  pub AllFlows-put : (k : Text) (f : Flow) (m : Flows) → P k f → AllFlows m → AllFlows (put k f m)
  unfolding put
  AllFlows-put k f [] p h = (p, tt)
  AllFlows-put k f ((i, g) ∷ m) p h = elim (Bool-cases (text_eq i k)) [
    | inl same ↦ rw same (let e : i ≡ k = eq_of_text_eq i k same in (rw e p, h.1))
    | inr other ↦ rw other (h.0, AllFlows-put k f m p h.1)
  ]

  pub AllFlows-delete : (k : Text) (m : Flows) → AllFlows m → AllFlows (delete k m)
  unfolding delete
  AllFlows-delete k [] h = tt
  AllFlows-delete k ((i, g) ∷ m) h = elim (Bool-cases (text_eq i k)) [
    | inl same ↦ rw same (AllFlows-delete k m h.1)
    | inr other ↦ rw other (h.0, AllFlows-delete k m h.1)
  ]

  pub AllFlows-find : (k : Text) (m : Flows) {f : Flow} → find k m ≡ some f → AllFlows m → P k f
  unfolding find
  AllFlows-find k [] e h = absurd (cc)
  AllFlows-find k ((i, g) ∷ m) {f} e h = elim (Bool-cases (text_eq i k)) [
    | inl same ↦
        let k-eq : i ≡ k = eq_of_text_eq i k same in
        let f-eq : g ≡ f = ground arith in rw (← k-eq, ← f-eq) h.0
    | inr other ↦ AllFlows-find k m (ground arith) h.1
  ]
