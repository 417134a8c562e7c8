-- ===== src/ReceiverState/Preservation.antt =====
-- Every operation of the store keeps the invariant, whatever the clock, the secret and the fate of
-- the write.
use mathlib.Core.Path.{subst}
use kepos.Common.{
  ℕ, ◌<◌, true, not, Option, none, some, List, [], ◌∷◌, ◌++◌, leb, length, All-append, ◌≡◌, refl,
  arith, Option-cases, inl, inr, if_cases, length-append, unnot,
}
use kepos.Common.Outcome.{Outcome, Run, done, thrown, Keeps, Keeps-and_then}
use kepos.Common.Integers.{ℤ}
use kepos.Common.Text.{Text, has_text}
use kepos.ReceiverState.Addresses.{Range, pool_range, valid_exclusion}
use kepos.ReceiverState.Durable.{
  Grant, Pending, State, Store, StateError, live_ones, max_invitations, Fate, written, lost,
  renamed, Write, clean, replace, save,
}
use kepos.ReceiverState.{
  checked_ports, regrant, without_device, keys_of, create_invitation, issue_invitation, issue, give,
  check_exclusion, grant, revoke,
}
use kepos.ReceiverState.Invariant.{
  IsGranted, IsExclusion, IsInvitation, addresses_of, Valid, Sound, OnDisk, live_ones-Invitations,
}
use kepos.ReceiverState.Lists.{checked_same, without_device-Devices, regrant-Devices}

module _ (range : Range) where
  abbrev Ok : Outcome StateError Store (Unit {0}) → Type 0
  Ok = Keeps (Sound range) (λ _. Unit)

  replace-Sound :
      (next : State) (f : Fate) (s : Store)
      → Valid range next
      → Sound range s
      → Ok (replace next f s)
  unfolding replace OnDisk
  replace-Sound next written s h k = (record { valid = h; disk = h; durable = λ e. refl }, tt)
  replace-Sound next lost s h k = (record { valid = k.valid; disk = k.disk; durable = λ e. cc }, tt)
  replace-Sound next renamed s h k = (record { valid = k.valid; disk = h; durable = λ e. cc }, tt)

  clean-Sound :
      (c : Option ℕ) (run : Run StateError Store (Unit {0})) (s : Store)
      → Ok (run s)
      → Ok (clean c run s)
  unfolding clean
  clean-Sound none run s h = h
  clean-Sound (some n) run s h = go (run s) h
    where
      go :
          (o : Outcome StateError Store (Unit {0}))
          → Ok o
          → Ok (elim o [
            | done a s' ↦ thrown (StateError.foreign n) s'
            | thrown e s' ↦ thrown (StateError.foreign n) s'
          ])
      go (done a s') h = (h.0, tt)
      go (thrown e s') h = (h.0, tt)

  pub save-Sound :
      (next : State) (w : Write) (s : Store) → Valid range next → Sound range s → Ok (save next w s)
  unfolding save
  save-Sound next w s h k =
      clean-Sound w.cleanup (replace next w.fate) s (replace-Sound next w.fate s h k)

  check_exclusion-Sound :
      (q : State) (excluded : Option Text) (s : Store)
      → pool_range q.pool ≡ some range
      → Sound range s
      → Keeps
          (Sound range)
          (λ _. IsExclusion range q.receiver_address excluded)
          (check_exclusion q excluded s)
  unfolding check_exclusion IsExclusion
  check_exclusion-Sound q none s e h = (h, tt)
  check_exclusion-Sound q (some a) s e h =
      let Kept : Run StateError Store (Unit {0}) → Type 0 =
        λ r. Keeps (Sound range) (λ _. valid_exclusion a q.receiver_address range ≡ true) (r s) in
      rw (e, check_exclusion)
        (if_cases Kept (not (valid_exclusion a q.receiver_address range)) _ _ (λ bad. (h, tt))
          (λ good.
            if_cases Kept (has_text (addresses_of q.devices) a) _ _ (λ used. (h, tt))
              (λ free. (h, unnot (valid_exclusion a q.receiver_address range) good))))

  give-Sound :
      (o : Option Text) (s : Store) → Sound range s → Keeps (Sound range) (λ _. Unit) (give o s)
  give-Sound none s h = (h, tt)
  give-Sound (some text) s h = (h, tt)

  issued-Valid :
      (q : State) (now : ℤ) (new : Pending)
      → Valid range q
      → IsInvitation range q.receiver_address new
      → length (live_ones now q.invitations) < max_invitations
      → Valid range (record q { invitations = live_ones now q.invitations ++ new ∷ [] })
  issued-Valid q now new v x few =
      let kept = live_ones now q.invitations in
      let old = live_ones-Invitations range q.receiver_address now q.invitations v.invitations in
      let count = length-append kept (new ∷ []) in
      record {
        pool = v.pool;
        devices = v.devices;
        invitations = record {
          few = omega arith;
          each =
              All-append (IsInvitation range q.receiver_address) kept (new ∷ []) old.each (x, tt);
        };
      }

  issue-Sound :
      (sha256 : List ℕ → Text) (q : State) (excluded : Option Text) (now : ℤ) (secret : Text)
      (w : Write) (s : Store)
      → Valid range q
      → IsExclusion range q.receiver_address excluded
      → Sound range s
      → Keeps (Sound range) (λ _. Unit) (issue_invitation sha256 q excluded now secret w s)
  unfolding issue_invitation IsInvitation
  issue-Sound sha256 q excluded now secret w s v x h =
      let kept = live_ones now q.invitations in
      let new = issue sha256 secret now excluded in
      let next : State = record q { invitations = kept ++ new ∷ [] } in
      if_cases (λ (r : Run StateError Store Text). Keeps (Sound range) (λ _. Unit) (r s))
        (leb max_invitations (length kept)) _ _ (λ full. (h, tt))
        (λ room.
          Keeps-and_then (Sound range) (λ _. Unit) (λ _. Unit) (save next w s) _
            (save-Sound next w s (issued-Valid q now new v (refl, x) (ground arith)) h)
            (λ a s' k _. give-Sound _ s' k))

  pub create-Sound :
      (sha256 : List ℕ → Text) (excluded : Option Text) (now : ℤ) (secret : Text) (w : Write)
      (s : Store)
      → Sound range s
      → Keeps (Sound range) (λ _. Unit) (create_invitation sha256 excluded now secret w s)
  unfolding create_invitation
  create-Sound sha256 excluded now secret w s h =
      if_cases (λ (o : Outcome StateError Store Text). Keeps (Sound range) (λ _. Unit) o) s.failed _
        _ (λ failed. (h, tt))
        (λ works.
          Keeps-and_then (Sound range) (λ _. IsExclusion range s.state.receiver_address excluded)
            (λ _. Unit) (check_exclusion s.state excluded s) _
            (check_exclusion-Sound s.state excluded s h.valid.pool h)
            (λ a s' k x. issue-Sound sha256 s.state excluded now secret w s' h.valid x k))

  pub revoke-Sound :
      (key : Text) (w : Write) (s : Store)
      → Sound range s
      → Keeps (Sound range) (λ _. Unit) (revoke key w s)
  unfolding revoke
  revoke-Sound key w s h =
      let next : State = record s.state { devices = without_device key s.state.devices } in
      let valid : Valid range next = record {
        pool = h.valid.pool;
        devices = without_device-Devices range _ _ key s.state.devices h.valid.devices;
        invitations = h.valid.invitations;
      } in
      if_cases (λ (o : Outcome StateError Store (Unit {0})). Keeps (Sound range) (λ _. Unit) o)
        s.failed _ _ (λ failed. (h, tt))
        (λ works.
          if_cases (λ (r : Run StateError Store (Unit {0})). Keeps (Sound range) (λ _. Unit) (r s))
            (not (has_text (keys_of s.state.devices) key)) _ _ (λ unknown. (h, tt))
            (λ known. save-Sound next w s valid h))

  pub grant-Sound :
      (key : Text) (g : Grant) (w : Write) (s : Store)
      → Sound range s
      → Keeps (Sound range) (λ _. Unit) (grant key g w s)
  unfolding grant IsGranted
  grant-Sound key g w s h =
      if_cases (λ (o : Outcome StateError Store (Unit {0})). Keeps (Sound range) (λ _. Unit) o)
        s.failed _ _ (λ failed. (h, tt))
        (λ works. elim (Option-cases (checked_ports g)) [
          | inl bad ↦ rw (bad, grant) (h, tt)
          | inr (g', good) ↦
              rw (good, grant)
                (if_cases
                  (λ (r : Run StateError Store (Unit {0})). Keeps (Sound range) (λ _. Unit) (r s))
                  (not (has_text (keys_of s.state.devices) key)) _ _ (λ unknown. (h, tt))
                  (λ known. save-Sound (regranted g') w s (valid g' good) h))
        ])
    where
      regranted : Grant → State
      regranted g' = record s.state { devices = regrant key g' s.state.devices }

      valid : (g' : Grant) → checked_ports g ≡ some g' → Valid range (regranted g')
      valid g' good = record {
        pool = h.valid.pool;
        devices =
            regrant-Devices range _ _ key g' s.state.devices
              (subst (λ x. checked_ports x ≡ some g') (checked_same g g' good) good)
              h.valid.devices;
        invitations = h.valid.invitations;
      }
