-- ===== src/ReceiverState/Histories.antt =====
-- A history of the store: the operations that the serial queue runs one after another, each with its
-- clock, secret and write.
use mathlib.Core.Path.{subst}
use kepos.Common.{
  ℕ, false, Option, none, some, List, [], ◌∷◌, ◌≡◌, refl, sym, ap, arith, Option-cases, inl, inr,
  Bool-cases, if_cases,
}
use kepos.Common.Outcome.{Outcome, done, final, Keeps-final}
use kepos.Common.Integers.{ℤ}
use kepos.Common.Text.{Text}
use kepos.Invitation.{is_key}
use kepos.ReceiverState.Addresses.{Range, pool_range, ipv4}
use kepos.ReceiverState.Durable.{
  Grant, ReceiverDevice, State, Fate, written, lost, renamed, clean, replace, Store, StateError,
  Write, save,
}
use kepos.ReceiverState.{open_new, new_state, list, create_invitation, enroll, grant, revoke}
use kepos.ReceiverState.Invariant.{Valid, Sound, OnDisk}
use kepos.ReceiverState.Preservation.{create-Sound, grant-Sound, revoke-Sound}
use kepos.ReceiverState.Admission.{enroll-Sound}

pub data Command : Type 0 where
  list_devices : Command
  create : Option Text → ℤ → Text → Write → Command
  enrol : (key secret : Text) → ℤ → Write → Command
  allow : Text → Grant → Write → Command
  remove : Text → Write → Command

module _ (sha256 : List ℕ → Text) where
  unfoldable pub step : Store → Command → Store
  step s list_devices = final (list s)
  step s (create excluded now secret w) = final (create_invitation sha256 excluded now secret w s)
  step s (enrol key secret now w) = final (enroll sha256 key secret now w s)
  step s (allow key g w) = final (grant key g w s)
  step s (remove key w) = final (revoke key w s)

  unfoldable pub run : Store → List Command → Store
  unfolding step
  run s [] = s
  run s (c ∷ cs) = run (step s c) cs

  step-Sound : (range : Range) (s : Store) (c : Command) → Sound range s → Sound range (step s c)
  unfolding step list
  step-Sound range s list_devices h =
      if_cases (λ (o : Outcome StateError Store (List ReceiverDevice)). Sound range (final o))
        s.failed _ _ (λ failed. h) (λ works. h)
  step-Sound range s (create excluded now secret w) h =
      Keeps-final (Sound range) (λ _. Unit) _ (create-Sound range sha256 excluded now secret w s h)
  step-Sound range s (enrol key secret now w) h =
      Keeps-final (Sound range) (λ _. Unit) _ (enroll-Sound range sha256 key secret now w s h)
  step-Sound range s (allow key g w) h =
      Keeps-final (Sound range) (λ _. Unit) _ (grant-Sound range key g w s h)
  step-Sound range s (remove key w) h =
      Keeps-final (Sound range) (λ _. Unit) _ (revoke-Sound range key w s h)

  pub run-Sound_from :
      (range : Range) (s : Store) (cs : List Command) → Sound range s → Sound range (run s cs)
  unfolding run
  run-Sound_from range s [] h = h
  run-Sound_from range s (c ∷ cs) h = run-Sound_from range (step s c) cs (step-Sound range s c h)

-- A write that returns has put the new state in memory and on the disk.
pub save_done :
    (next : State) (w : Write) (s s' : Store)
    → save next w s ≡ done tt s'
    → s' ≡ record s { state = next; disk = some next }
unfolding save clean replace
save_done next w s s' e = go w.cleanup w.fate e
  where
    go :
        (c : Option ℕ) (f : Fate)
        → clean c (replace next f) s ≡ done tt s'
        → s' ≡ record s { state = next; disk = some next }
    go none written e = sym (ap final e)
    go none lost e = absurd (cc)
    go none renamed e = absurd (cc)
    go (some n) written e = absurd (cc)
    go (some n) lost e = absurd (cc)
    go (some n) renamed e = absurd (cc)

opened-Sound :
    (key a pool : Text) (w : Write) (s : Store)
    → open_new key a pool w ≡ done tt s
    → (range : Range) × ((pool_range pool ≡ some range) × Sound range s)
unfolding open_new OnDisk
opened-Sound key a pool w s e = elim (Bool-cases (is_key key)) [
  | inl good ↦ elim (Option-cases (ipv4 a)) [
    | inl bad ↦ absurd (cc (rw (good, bad, open_new) at e))
    | inr (n, fine) ↦ elim (Option-cases (pool_range pool)) [
      | inl bad ↦ absurd (cc (rw (good, fine, bad, open_new) at e))
      | inr (range, known) ↦ (
        range,
        (
          known,
          subst (Sound range)
              (sym
                (save_done (new_state key a pool) w new s (rw (good, fine, known, open_new) at e)))
              (sound range known),
        ),
      )
    ]
  ]
  | inr bad ↦ absurd (cc (rw (bad, open_new) at e))
]
  where
    new : Store
    new = record { state = new_state key a pool; failed = false; disk = none }

    valid : (range : Range) → pool_range pool ≡ some range → Valid range (new_state key a pool)
    valid range known = record {
      pool = known;
      devices = record {
        few = omega arith;
        keys_differ = (refl, tt);
        addresses_differ = (refl, tt);
        each = tt;
      };
      invitations = record { few = omega arith; each = tt };
    }

    sound :
        (range : Range)
        → pool_range pool ≡ some range
        → Sound range
            (record new { state = new_state key a pool; disk = some (new_state key a pool) })
    sound range known = record {
      valid = valid range known;
      disk = valid range known;
      durable = λ e. refl;
    }

-- After any history of a store that was opened in a new directory, with any clock, secrets and fates
-- of the writes: there are at most 16 devices and 16 invitations; the keys of the devices differ from
-- each other and from the receiver's, and so do the addresses, which are numbers of the pool's range;
-- every grant passes the check of ports; every invitation ends ten minutes after its issue; the file
-- holds a state of which the same is true, and it is the state in memory unless a write has failed.
pub run-Sound :
    (sha256 : List ℕ → Text) (key a pool : Text) (w : Write) (s : Store) (cs : List Command)
    → open_new key a pool w ≡ done tt s
    → (range : Range) × ((pool_range pool ≡ some range) × Sound range (run sha256 s cs))
run-Sound sha256 key a pool w s cs e =
    let (range, (known, sound)) = opened-Sound key a pool w s e in
    (range, (known, run-Sound_from sha256 range s cs sound))
