-- ===== src/ReceiverState/OneUse.antt =====
-- Invitations of a digest, and what of them an operation leaves.
use mathlib.Core.Path.{subst}
use kepos.Common.{
  ℕ, ◌+◌, ◌-◌, leb, false, ◌&&◌, Option, none, some, List, [], ◌∷◌, map, ◌≡◌, refl, sym, inl, inr,
  arith, Bool-cases, Option-cases, length, unsome, if_cases, both,
}
use kepos.Common.Outcome.{Run, Keeps, Keeps-and_then}
use kepos.Common.Integers.{ℤ}
use kepos.Common.Text.{Text, text_eq, has_text, eq_of_text_eq}
use kepos.Common.Distinct.{Distinct}
use kepos.ReceiverState.Durable.{
  ReceiverDevice, Pending, State, Store, StateError, Write, Fate, written, lost, renamed, save,
  clean, replace, live_ones, live, max_devices,
}
use kepos.ReceiverState.Enrollment.{
  find_pending, find_device, choose, new_device, excludes, lowest_free, taken_addresses,
}
use kepos.ReceiverState.Addresses.{pool_range}
use kepos.ReceiverState.{admit_pending, digest}

abbrev pub digests : List Pending → List Text
digests ps = map (λ (p : Pending). p.digest) ps

-- No invitation has this digest.
unfoldable pub Spent : Text → Store → Type 0
Spent hash s = has_text (digests s.state.invitations) hash ≡ false

pub spent_live :
    (hash : Text) (now : ℤ) (ps : List Pending)
    → has_text (digests ps) hash ≡ false
    → has_text (digests (live_ones now ps)) hash ≡ false
unfolding live_ones
spent_live hash now [] h = refl
spent_live hash now (p ∷ ps) h =
    let rest = spent_live hash now ps (ground arith) in
    if_cases (λ (xs : List Pending). has_text (digests xs) hash ≡ false) (live now p) _ _
      (λ e. ground arith) (λ e. rest)

-- With no invitation of a digest, none is found.
pub spent-find_pending :
    (hash : Text) (now : ℤ) (ps : List Pending)
    → has_text (digests ps) hash ≡ false
    → find_pending hash now ps ≡ none
unfolding find_pending
spent-find_pending hash now [] h = refl
spent-find_pending hash now (p ∷ ps) h =
    let other : (text_eq p.digest hash && live now p) ≡ false = ground arith in
    rw (other, spent-find_pending hash now ps (ground arith)) refl

-- A digest that is not among those of some invitations is not the one that was found in them.
apart :
    (hash : Text) (now : ℤ) (other : Text) (ps : List Pending) (r : Pending × List Pending)
    → has_text (digests ps) other ≡ false
    → find_pending hash now ps ≡ some r
    → text_eq other hash ≡ false
apart hash now other ps r h e = elim (Bool-cases (text_eq other hash)) [
  | inr different ↦ different
  | inl same ↦
      let missing =
        spent-find_pending hash now ps
          (subst (λ t. has_text (digests ps) t ≡ false) (eq_of_text_eq other hash same) h) in
      absurd (cc)
]

-- If digests differ, the invitations that are left over have another one.
pub left_over :
    (hash : Text) (now : ℤ) (ps : List Pending) (r : Pending × List Pending)
    → Distinct (digests ps)
    → find_pending hash now ps ≡ some r
    → has_text (digests r.1) hash ≡ false
unfolding find_pending
left_over hash now [] r d e = cc
left_over hash now (p ∷ ps) r d e = elim (Bool-cases (text_eq p.digest hash && live now p)) [
  | inl found ↦
      let (same, alive) = both (text_eq p.digest hash) (live now p) found in
      subst (λ (x : Pending × List Pending). has_text (digests x.1) hash ≡ false)
        (unsome (rw (found, find_pending) at e)) (rw (sym (eq_of_text_eq p.digest hash same)) d.0)
  | inr other ↦ elim (Option-cases (find_pending hash now ps)) [
    | inl missing ↦ absurd (cc (rw (other, missing, find_pending) at e))
    | inr (s, later) ↦
        let rest = left_over hash now ps s d.1 later in
        subst (λ (x : Pending × List Pending). has_text (digests x.1) hash ≡ false)
          (unsome (rw (other, later, find_pending) at e))
          (rw (apart hash now p.digest ps s d.0 later) rest)
  ]
]

-- What a write leaves: the old invitations or the new ones.
pub save-Spent :
    (hash : Text) (next : State) (w : Write) (s : Store)
    → has_text (digests next.invitations) hash ≡ false
    → Spent hash s
    → Keeps (Spent hash) (λ _. Unit) (save next w s)
unfolding Spent save clean replace
save-Spent hash next w s h k = go w.cleanup w.fate
  where
    go : (c : Option ℕ) (f : Fate) → Keeps (Spent hash) (λ _. Unit) (clean c (replace next f) s)
    go none written = (h, tt)
    go none lost = (k, tt)
    go none renamed = (k, tt)
    go (some n) written = (h, tt)
    go (some n) lost = (k, tt)
    go (some n) renamed = (k, tt)

-- The invitations that are not found stay free of a digest.
other_spent :
    (hash found : Text) (now : ℤ) (ps : List Pending) (r : Pending × List Pending)
    → has_text (digests ps) hash ≡ false
    → find_pending found now ps ≡ some r
    → has_text (digests r.1) hash ≡ false
unfolding find_pending
other_spent hash found now [] r h e = cc
other_spent hash found now (p ∷ ps) r h e =
    let tail : has_text (digests ps) hash ≡ false = ground arith in
    let head : text_eq p.digest hash ≡ false = ground arith in
    elim (Bool-cases (text_eq p.digest found && live now p)) [
      | inl here ↦
          subst (λ (x : Pending × List Pending). has_text (digests x.1) hash ≡ false)
            (unsome (rw (here, find_pending) at e)) tail
      | inr other ↦ elim (Option-cases (find_pending found now ps)) [
        | inl missing ↦ absurd (cc (rw (other, missing, find_pending) at e))
        | inr (s, later) ↦
            subst (λ (x : Pending × List Pending). has_text (digests x.1) hash ≡ false)
              (unsome (rw (other, later, find_pending) at e))
              (rw head (other_spent hash found now ps s tail later))
      ]
    ]

new_device-Keeps :
    (P : Store → Type 0) (q : State) (p : Pending) (key : Text) (s : Store)
    → P s
    → Keeps P (λ _. Unit) (new_device q p key s)
unfolding new_device
new_device-Keeps P q p key s h =
    if_cases
      (λ (r : Run StateError Store (ReceiverDevice × List ReceiverDevice)).
        Keeps P (λ _. Unit) (r s))
      (leb max_devices (length q.devices)) _ _ (λ full. (h, tt))
      (λ room. elim (Option-cases (pool_range q.pool)) [
        | inl bad ↦ rw bad (h, tt)
        | inr (range, known) ↦
            rw known
              (elim (Option-cases (
                lowest_free (taken_addresses q p.exclude_address) (range.last + 1 - range.first)
                  range.first)) [
                    | inl used_up ↦ rw used_up (h, tt)
                    | inr (a, free) ↦ rw free (h, tt)
                  ])
      ])

-- The choice of a device leaves the store alone.
pub choose-Keeps :
    (P : Store → Type 0) (q : State) (p : Pending) (key : Text) (s : Store)
    → P s
    → Keeps P (λ _. Unit) (choose q p key s)
unfolding choose new_device
choose-Keeps P q p key s h = elim (Option-cases (find_device key q.devices)) [
  | inl unknown ↦ rw (unknown, choose) (new_device-Keeps P q p key s h)
  | inr (d, known) ↦
      rw (known, choose)
        (if_cases
          (λ (r : Run StateError Store (ReceiverDevice × List ReceiverDevice)).
            Keeps P (λ _. Unit) (r s))
          (excludes p.exclude_address d.address) _ _ (λ e. (h, tt)) (λ e. (h, tt)))
]

module _ (sha256 : List ℕ → Text) (hash : Text) where
  pub admit-Spent :
      (q : State) (key secret : Text) (now : ℤ) (w : Write) (s : Store)
      → has_text (digests q.invitations) hash ≡ false
      → Spent hash s
      → Keeps (Spent hash) (λ _. Unit) (admit_pending sha256 q key secret now w s)
  unfolding admit_pending
  admit-Spent q key secret now w s h k =
      elim (Option-cases (find_pending (digest sha256 secret) now q.invitations)) [
        | inl missing ↦ rw (missing, admit_pending) (k, tt)
        | inr (r, found) ↦
            rw (found, admit_pending)
              (Keeps-and_then (Spent hash) (λ _. Unit) (λ _. Unit) (choose q r.0 key s) _
                (choose-Keeps (Spent hash) q r.0 key s k)
                (λ c s' k' _.
                  Keeps-and_then (Spent hash) (λ _. Unit) (λ _. Unit) (save (next r c) w s') _
                    (save-Spent hash (next r c) w s' (left r found) k') (λ a s'' k'' _. (k'', tt))))
      ]
    where
      next : Pending × List Pending → ReceiverDevice × List ReceiverDevice → State
      next r c = record q { devices = c.1; invitations = live_ones now r.1 }

      left :
          (r : Pending × List Pending)
          → find_pending (digest sha256 secret) now q.invitations ≡ some r
          → has_text (digests (live_ones now r.1)) hash ≡ false
      left r found =
          spent_live hash now r.1
            (other_spent hash (digest sha256 secret) now q.invitations r h found)
