-- ===== src/ReceiverState/Growth.antt =====
-- Invitations and enrolments only add devices.
use kepos.Common.{
  ℕ, ◌+◌, ◌-◌, ◌≡◌, refl, ap, ◌∙◌, not, ◌||◌, Option, none, some, List, [], ◌∷◌, ◌++◌, map, leb,
  if_cases, length, Option-cases, inl, inr,
}
use kepos.Common.Outcome.{Outcome, Run, Keeps, Keeps-and_then, throw, return}
use kepos.Common.Integers.{ℤ}
use kepos.Common.Text.{Text, text_eq, has_text}
use kepos.Invitation.{is_key}
use kepos.ReceiverState.Addresses.{pool_range, valid_exclusion}
use kepos.ReceiverState.Durable.{
  ReceiverDevice, Pending, State, Store, StateError, Fate, written, lost, renamed, Write, clean,
  replace, save, live_ones, exclusion_allocated, max_devices, max_invitations,
}
use kepos.ReceiverState.Enrollment.{
  find_pending, find_device, lowest_free, new_device, choose, excludes, taken_addresses,
}
use kepos.ReceiverState.{
  check_exclusion, give, issue, issue_invitation, create_invitation, enroll, admit_pending, digest,
  list,
}

-- The devices `ds` and then perhaps others.
abbrev pub Extends : List ReceiverDevice → List ReceiverDevice → Type 0
Extends ds all = (more : List ReceiverDevice) × (all ≡ ds ++ more)

pub app_nil : (ds : List ReceiverDevice) → Extends ds ds
app_nil [] = ([], refl)
app_nil (d ∷ ds) = let (more, e) = app_nil ds in (more, ap (◌∷◌ d) e)

app_more : (ds more new : List ReceiverDevice) → (ds ++ more) ++ new ≡ ds ++ (more ++ new)
app_more [] more new = refl
app_more (d ∷ ds) more new = ap (◌∷◌ d) (app_more ds more new)

module _ (ds : List ReceiverDevice) where
  abbrev Has : Store → Type 0
  Has s = Extends ds s.state.devices

  grown : (all new : List ReceiverDevice) → Extends ds all → Extends ds (all ++ new)
  grown all new (more, e) =
      (more ++ new, ap (λ (t : List ReceiverDevice). t ++ new) e ∙ app_more ds more new)

  -- A write of a state that has them, however it ends.
  save-Has :
      (next : State) (w : Write) (s : Store)
      → Has s
      → Extends ds next.devices
      → Keeps Has (λ _. Unit {0}) (save next w s)
  unfolding save clean replace
  save-Has next w s old new = go w.cleanup w.fate
    where
      go : (c : Option ℕ) (f : Fate) → Keeps Has (λ _. Unit {0}) (clean c (replace next f) s)
      go none written = (new, tt)
      go none lost = (old, tt)
      go none renamed = (old, tt)
      go (some n) written = (new, tt)
      go (some n) lost = (old, tt)
      go (some n) renamed = (old, tt)

  check_exclusion-Has :
      (q : State) (excluded : Option Text) (s : Store)
      → Has s
      → Keeps Has (λ _. Unit {0}) (check_exclusion q excluded s)
  unfolding check_exclusion
  check_exclusion-Has q none s h = (h, tt)
  check_exclusion-Has q (some a) s h = elim (Option-cases (pool_range q.pool)) [
    | inl bad ↦ rw (bad, check_exclusion) (h, tt)
    | inr (range, e) ↦
        let Kept : Run StateError Store (Unit {0}) → Type 0 =
          λ r. Keeps Has (λ _. Unit {0}) (r s) in
        rw (e, check_exclusion)
          (if_cases Kept (not (valid_exclusion a q.receiver_address range)) _ _ (λ bad. (h, tt))
            (λ good.
              if_cases Kept (has_text (map (λ (d : ReceiverDevice). d.address) q.devices) a)
                (throw exclusion_allocated) (return tt) (λ used. (h, tt)) (λ free. (h, tt))))
  ]

  give-Has : (o : Option Text) (s : Store) → Has s → Keeps Has (λ _. Unit {0}) (give o s)
  give-Has none s h = (h, tt)
  give-Has (some text) s h = (h, tt)

  issue-Has :
      (sha256 : List ℕ → Text) (q : State) (excluded : Option Text) (now : ℤ) (secret : Text)
      (w : Write) (s : Store)
      → Extends ds q.devices
      → Has s
      → Keeps Has (λ _. Unit {0}) (issue_invitation sha256 q excluded now secret w s)
  unfolding issue_invitation
  issue-Has sha256 q excluded now secret w s e h =
      if_cases (λ (r : Run StateError Store Text). Keeps Has (λ _. Unit {0}) (r s))
        (leb max_invitations (length (live_ones now q.invitations))) _ _ (λ full. (h, tt))
        (λ room.
          let next : State = record q {
            invitations = live_ones now q.invitations ++ issue sha256 secret now excluded ∷ [];
          } in
          Keeps-and_then Has (λ _. Unit {0}) (λ _. Unit {0}) (save next w s) _
            (save-Has next w s h e) (λ a s' k _. give-Has _ s' k))

  pub create-Has :
      (sha256 : List ℕ → Text) (excluded : Option Text) (now : ℤ) (secret : Text) (w : Write)
      (s : Store)
      → Has s
      → Keeps Has (λ _. Unit {0}) (create_invitation sha256 excluded now secret w s)
  unfolding create_invitation
  create-Has sha256 excluded now secret w s h =
      if_cases (λ (o : Outcome StateError Store Text). Keeps Has (λ _. Unit {0}) o) s.failed _ _
        (λ failed. (h, tt))
        (λ works.
          Keeps-and_then Has (λ _. Unit {0}) (λ _. Unit {0}) (check_exclusion s.state excluded s) _
            (check_exclusion-Has s.state excluded s h)
            (λ a s' k _. issue-Has sha256 s.state excluded now secret w s' h k))

  abbrev Chosen : ReceiverDevice × List ReceiverDevice → Type 0
  Chosen r = Extends ds r.1

  new_device-Has :
      (q : State) (p : Pending) (key : Text) (s : Store)
      → Extends ds q.devices
      → Has s
      → Keeps Has Chosen (new_device q p key s)
  unfolding new_device
  new_device-Has q p key s e h =
      if_cases
        (λ (r : Run StateError Store (ReceiverDevice × List ReceiverDevice)).
          Keeps Has Chosen (r s))
        (leb max_devices (length q.devices)) _ _ (λ full. (h, tt))
        (λ room. elim (Option-cases (pool_range q.pool)) [
          | inl bad ↦ rw (bad, new_device) (h, tt)
          | inr (range, good) ↦
              rw (good, new_device)
                (elim (Option-cases (
                  lowest_free (taken_addresses q p.exclude_address) (range.last + 1 - range.first)
                    range.first)) [
                      | inl full ↦ rw (full, new_device) (h, tt)
                      | inr (a, free) ↦ rw (free, new_device) (h, grown q.devices _ e)
                    ])
        ])

  choose-Has :
      (q : State) (p : Pending) (key : Text) (s : Store)
      → Extends ds q.devices
      → Has s
      → Keeps Has Chosen (choose q p key s)
  unfolding choose
  choose-Has q p key s e h = elim (Option-cases (find_device key q.devices)) [
    | inl new ↦ rw (new, choose) (new_device-Has q p key s e h)
    | inr (d, known) ↦
        rw (known, choose)
          (if_cases
            (λ (r : Run StateError Store (ReceiverDevice × List ReceiverDevice)).
              Keeps Has Chosen (r s))
            (excludes p.exclude_address d.address) _ _ (λ bad. (h, tt)) (λ good. (h, e)))
  ]

  admit_pending-Has :
      (sha256 : List ℕ → Text) (q : State) (key secret : Text) (now : ℤ) (w : Write) (s : Store)
      → Extends ds q.devices
      → Has s
      → Keeps Has (λ _. Unit {0}) (admit_pending sha256 q key secret now w s)
  unfolding admit_pending
  admit_pending-Has sha256 q key secret now w s e h =
      elim (Option-cases (find_pending (digest sha256 secret) now q.invitations)) [
        | inl missing ↦ rw (missing, admit_pending) (h, tt)
        | inr (r, found) ↦
            rw (found, admit_pending)
              (Keeps-and_then Has Chosen (λ _. Unit {0}) (choose q r.0 key s) _
                (choose-Has q r.0 key s e h)
                (λ c s' k chosen.
                  Keeps-and_then Has (λ _. Unit {0}) (λ _. Unit {0}) (save (next r c) w s') _
                    (save-Has (next r c) w s' k chosen) (λ a s'' k' _. (k', tt))))
      ]
    where
      next : Pending × List Pending → ReceiverDevice × List ReceiverDevice → State
      next r c = record q { devices = c.1; invitations = live_ones now r.1 }

  pub enroll-Has :
      (sha256 : List ℕ → Text) (key secret : Text) (now : ℤ) (w : Write) (s : Store)
      → Has s
      → Keeps Has (λ _. Unit {0}) (enroll sha256 key secret now w s)
  unfolding enroll
  enroll-Has sha256 key secret now w s h =
      if_cases (λ (o : Outcome StateError Store ReceiverDevice). Keeps Has (λ _. Unit {0}) o)
        s.failed _ _ (λ failed. (h, tt))
        (λ works.
          if_cases (λ (r : Run StateError Store ReceiverDevice). Keeps Has (λ _. Unit {0}) (r s))
            (not (is_key key) || text_eq key s.state.receiver_key || not (is_key secret)) _ _
            (λ bad. (h, tt)) (λ good. admit_pending-Has sha256 s.state key secret now w s h h))

-- What `list` gives, and that it leaves the store as it is.
pub list-Gives :
    (s : Store) → Keeps (λ s'. s' ≡ s) (λ (ds : List ReceiverDevice). ds ≡ s.state.devices) (list s)
unfolding list
list-Gives s =
    if_cases
      (λ (o : Outcome StateError Store (List ReceiverDevice)).
        Keeps (λ s'. s' ≡ s) (λ (ds : List ReceiverDevice). ds ≡ s.state.devices) o)
      s.failed _ _ (λ failed. (refl, tt)) (λ works. (refl, refl))
