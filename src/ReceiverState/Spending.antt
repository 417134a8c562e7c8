-- ===== src/ReceiverState/Spending.antt =====
-- An invitation enrols once: in no history after an enrolment does its secret enrol again.
use mathlib.Core.Path.{subst}
use kepos.Common.{
  ℕ, leb, Bool, true, false, not, ◌||◌, Option, none, some, List, [], ◌∷◌, ◌++◌, map, ◌≡◌, refl,
  inl, inr, arith, Option-cases, if◌then◌else◌, length, All, if_cases,
}
use kepos.Common.Outcome.{
  Outcome, Run, and_then, ◌>>◌, done, thrown, final, return, Keeps, Keeps-and_then, Keeps-final,
}
use kepos.Common.Integers.{ℤ}
use kepos.Common.Text.{Text, text_eq, has_text}
use kepos.Common.Distinct.{Distinct}
use kepos.Invitation.{is_key}
use kepos.ReceiverState.Durable.{
  ReceiverDevice, Pending, State, Store, StateError, Write, invalid_grant, storage_failure,
  unusable_invitation, Fate, written, lost, renamed, save, clean, replace, live_ones,
  max_invitations,
}
use kepos.ReceiverState.Enrollment.{find_pending, choose}
use kepos.ReceiverState.Addresses.{pool_range, valid_exclusion}
use kepos.ReceiverState.{
  enroll, admit_pending, digest, list, create_invitation, grant, revoke, check_exclusion,
  issue_invitation, give, regrant, without_device, issue, keys_of, checked_ports,
}
use kepos.ReceiverState.Histories.{Command, list_devices, create, enrol, allow, remove, step, run}
use kepos.ReceiverState.OneUse.{
  digests, Spent, spent_live, spent-find_pending, left_over, save-Spent, admit-Spent,
}

module _ (sha256 : List ℕ → Text) (hash : Text) where
  give-Spent :
      (o : Option Text) (s : Store) → Spent hash s → Keeps (Spent hash) (λ _. Unit) (give o s)
  give-Spent none s h = (h, tt)
  give-Spent (some text) s h = (h, tt)

  issue-Spent :
      (q : State) (excluded : Option Text) (now : ℤ) (secret : Text) (w : Write) (s : Store)
      → text_eq (digest sha256 secret) hash ≡ false
      → has_text (digests q.invitations) hash ≡ false
      → Spent hash s
      → Keeps (Spent hash) (λ _. Unit) (issue_invitation sha256 q excluded now secret w s)
  unfolding issue_invitation
  issue-Spent q excluded now secret w s fresh h k =
      let kept = live_ones now q.invitations in
      let new = issue sha256 secret now excluded in
      let next : State = record q { invitations = kept ++ new ∷ [] } in
      if_cases (λ (r : Run StateError Store Text). Keeps (Spent hash) (λ _. Unit) (r s))
        (leb max_invitations (length kept)) _ _ (λ full. (k, tt))
        (λ room.
          Keeps-and_then (Spent hash) (λ _. Unit) (λ _. Unit) (save next w s) _
            (save-Spent hash next w s (longer kept new (spent_live hash now q.invitations h) fresh)
              k)
            (λ a s' k' _. give-Spent _ s' k'))
    where
      longer :
          (ps : List Pending) (p : Pending)
          → has_text (digests ps) hash ≡ false
          → text_eq p.digest hash ≡ false
          → has_text (digests (ps ++ p ∷ [])) hash ≡ false
      longer [] p h k = rw k refl
      longer (x ∷ ps) p h k = ground (arith, longer ps p)

  check_exclusion-Spent :
      (q : State) (excluded : Option Text) (s : Store)
      → Spent hash s
      → Keeps (Spent hash) (λ _. Unit) (check_exclusion q excluded s)
  unfolding check_exclusion
  check_exclusion-Spent q none s h = (h, tt)
  check_exclusion-Spent q (some a) s h = elim (Option-cases (pool_range q.pool)) [
    | inl bad ↦ rw (bad, check_exclusion) (h, tt)
    | inr (range, known) ↦
        rw (known, check_exclusion)
          (if_cases (λ (r : Run StateError Store (Unit {0})). Keeps (Spent hash) (λ _. Unit) (r s))
            (not (valid_exclusion a q.receiver_address range)) _ _ (λ e. (h, tt))
            (λ e.
              if_cases
                (λ (r : Run StateError Store (Unit {0})). Keeps (Spent hash) (λ _. Unit) (r s))
                (has_text (map (λ (d : ReceiverDevice). d.address) q.devices) a) _ _ (λ e. (h, tt))
                (λ e. (h, tt))))
  ]

  -- A command that does not draw a secret of this digest.
  unfoldable pub NoDraw : Command → Type 0
  NoDraw list_devices = Unit
  NoDraw (create excluded now secret w) = text_eq (digest sha256 secret) hash ≡ false
  NoDraw (enrol key secret now w) = Unit
  NoDraw (allow key g w) = Unit
  NoDraw (remove key w) = Unit

  -- A run on a store, unless the store has failed.
  unless_failed :
      {A : Type 0} (s : Store) (o : Outcome StateError Store A)
      → Spent hash s
      → Keeps (Spent hash) (λ _. Unit) o
      → Spent hash (final (if s.failed then thrown storage_failure s else o))
  unless_failed s o h k =
      if_cases (λ (x : Outcome StateError Store _). Spent hash (final x)) s.failed _ _ (λ e. h)
        (λ e. Keeps-final (Spent hash) (λ _. Unit) o k)

  step-Spent : (s : Store) (c : Command) → NoDraw c → Spent hash s → Spent hash (step sha256 s c)
  unfolding step list create_invitation enroll grant revoke Spent NoDraw
  step-Spent s list_devices n h = unless_failed s (return s.state.devices s) h (h, tt)
  step-Spent s (create excluded now secret w) n h = unless_failed s _ h (
      Keeps-and_then (Spent hash) (λ _. Unit) (λ _. Unit) (check_exclusion s.state excluded s) _
        (check_exclusion-Spent s.state excluded s h)
        (λ a s' k _. issue-Spent s.state excluded now secret w s' n h k))
  step-Spent s (enrol key secret now w) n h = unless_failed s _ h (
      if_cases (λ (r : Run StateError Store ReceiverDevice). Keeps (Spent hash) (λ _. Unit) (r s))
        (not (is_key key) || text_eq key s.state.receiver_key || not (is_key secret)) _ _
        (λ e. (h, tt)) (λ e. admit-Spent sha256 hash s.state key secret now w s h h))
  step-Spent s (allow key g w) n h = elim (Option-cases (checked_ports g)) [
    | inl bad ↦ rw (bad, grant) (unless_failed s (thrown invalid_grant s) h (h, tt))
    | inr (g', good) ↦
        rw (good, grant)
          (unless_failed s _ h (
            if_cases (λ (r : Run StateError Store (Unit {0})). Keeps (Spent hash) (λ _. Unit) (r s))
              (not (has_text (keys_of s.state.devices) key)) _ _ (λ e. (h, tt))
              (λ e.
                save-Spent hash (record s.state { devices = regrant key g' s.state.devices }) w s h
                  h)))
  ]
  step-Spent s (remove key w) n h = unless_failed s _ h (
      if_cases (λ (r : Run StateError Store (Unit {0})). Keeps (Spent hash) (λ _. Unit) (r s))
        (not (has_text (keys_of s.state.devices) key)) _ _ (λ e. (h, tt))
        (λ e.
          save-Spent hash (record s.state { devices = without_device key s.state.devices }) w s h
            h))

  run-Spent :
      (s : Store) (cs : List Command) → All NoDraw cs → Spent hash s → Spent hash (run sha256 s cs)
  unfolding run
  run-Spent s [] n h = h
  run-Spent s (c ∷ cs) (n, ns) h = run-Spent (step sha256 s c) cs ns (step-Spent s c n h)

module _ (hash : Text) where
  -- What holds of the store if the run returns.
  Spends : {A : Type 0} → Outcome StateError Store A → Type 0
  Spends (done a s) = Spent hash s
  Spends (thrown e s) = Unit

  Spends-and_then :
      {A B : Type 0} (o : Outcome StateError Store A) (f : A → Run StateError Store B)
      → ((a : A) (s : Store) → Spends (f a s))
      → Spends (and_then o f)
  unfolding Spends
  Spends-and_then (done a s) f h = h a s
  Spends-and_then (thrown e s) f h = tt

  save-Spends :
      {A : Type 0} (next : State) (w : Write) (s : Store) (a : A)
      → has_text (digests next.invitations) hash ≡ false
      → Spends ((save next w >> return a) s)
  unfolding save clean replace Spent Spends
  save-Spends next w s a h = go w.cleanup w.fate
    where
      go : (c : Option ℕ) (f : Fate) → Spends ((clean c (replace next f) >> return a) s)
      go none written = h
      go none lost = tt
      go none renamed = tt
      go (some n) written = tt
      go (some n) lost = tt
      go (some n) renamed = tt

enroll-Spends :
    (sha256 : List ℕ → Text) (key secret : Text) (now : ℤ) (w : Write) (s : Store)
    → Distinct (digests s.state.invitations)
    → Spends (digest sha256 secret) (enroll sha256 key secret now w s)
unfolding enroll admit_pending Spends
enroll-Spends sha256 key secret now w s d =
    if_cases (λ (o : Outcome StateError Store ReceiverDevice). Spends hash o) s.failed _ _ (λ e. tt)
      (λ e.
        if_cases (λ (r : Run StateError Store ReceiverDevice). Spends hash (r s))
          (not (is_key key) || text_eq key s.state.receiver_key || not (is_key secret)) _ _
          (λ e. tt) (λ e. admitted))
  where
    hash : Text
    hash = digest sha256 secret

    admitted : Spends hash (admit_pending sha256 s.state key secret now w s)
    admitted = elim (Option-cases (find_pending hash now s.state.invitations)) [
      | inl missing ↦ rw (missing, admit_pending) tt
      | inr (r, found) ↦
          rw (found, admit_pending)
            (Spends-and_then hash (choose s.state r.0 key s) _ (λ c s'.
              save-Spends hash (record s.state { devices = c.1; invitations = live_ones now r.1 }) w
                s' c.0
                (spent_live hash now r.1 (left_over hash now s.state.invitations r d found))))
    ]

refused :
    (b : Bool) (s : Store) (o : Outcome StateError Store ReceiverDevice)
    → o ≡ thrown unusable_invitation s
    → (if b then thrown storage_failure s else o)
      ≡ thrown (if b then storage_failure else unusable_invitation) s
refused true s o e = refl
refused false s o e = e

-- With no invitation of a secret's digest, enrolment with it is refused.
enroll-Spent :
    (sha256 : List ℕ → Text) (key secret : Text) (now : ℤ) (w : Write) (s : Store)
    → Spent (digest sha256 secret) s
    → enroll sha256 key secret now w s
      ≡ thrown (if s.failed then storage_failure else unusable_invitation) s
unfolding enroll admit_pending Spent
enroll-Spent sha256 key secret now w s h =
    let missing = spent-find_pending (digest sha256 secret) now s.state.invitations h in
    refused s.failed s _ (
      if_cases (λ (r : Run StateError Store ReceiverDevice). r s ≡ thrown unusable_invitation s)
        (not (is_key key) || text_eq key s.state.receiver_key || not (is_key secret)) _ _
        (λ e. refl) (λ e. rw (missing, admit_pending) refl))

-- Let the digests of the invitations differ, and let a secret enrol a device. Then in no history that
-- draws no secret of the same digest again, and at no time after it, does the secret enrol another
-- device or the same one: the call is refused and changes nothing.
pub one_use :
    (sha256 : List ℕ → Text) (key secret : Text) (now : ℤ) (w : Write) (s s' : Store)
    (device : ReceiverDevice) (cs : List Command) (key' : Text) (now' : ℤ) (w' : Write)
    → Distinct (digests s.state.invitations)
    → enroll sha256 key secret now w s ≡ done device s'
    → All (NoDraw sha256 (digest sha256 secret)) cs
    → enroll sha256 key' secret now' w' (run sha256 s' cs)
      ≡ thrown
          (if (run sha256 s' cs).failed then storage_failure else unusable_invitation)
          (run sha256 s' cs)
unfolding Spends
one_use sha256 key secret now w s s' device cs key' now' w' d e n =
    let hash = digest sha256 secret in
    let spent : Spent hash s' = subst (Spends hash) e (enroll-Spends sha256 key secret now w s d) in
    enroll-Spent sha256 key' secret now' w' (run sha256 s' cs) (run-Spent sha256 hash s' cs n spent)
