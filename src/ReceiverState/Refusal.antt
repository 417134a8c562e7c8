-- ===== src/ReceiverState/Refusal.antt =====
-- What a failed store does.
use mathlib.Core.Path.{subst}
use kepos.Common.{◌≢◌, none, some, ℕ, true, Option, List, [], ◌∷◌, ◌≡◌, refl, sym}
use kepos.Common.Outcome.{thrown, final}
use kepos.Common.Integers.{ℤ}
use kepos.Common.Text.{Text}
use kepos.ReceiverState.Durable.{
  Grant, State, Store, Write, storage_failure, Fate, written, lost, renamed, clean, replace, save,
}
use kepos.ReceiverState.{list, create_invitation, enroll, grant, revoke}
use kepos.ReceiverState.Histories.{Command, list_devices, create, enrol, allow, remove, step, run}

module _ (sha256 : List ℕ → Text) where
  step_failed : (s : Store) (c : Command) → s.failed ≡ true → step sha256 s c ≡ s
  unfolding step list create_invitation enroll grant revoke
  step_failed s list_devices h = rw h refl
  step_failed s (create excluded now secret w) h = rw h refl
  step_failed s (enrol key secret now w) h = rw h refl
  step_failed s (allow key g w) h = rw h refl
  step_failed s (remove key w) h = rw h refl

  run_failed : (s : Store) (cs : List Command) → s.failed ≡ true → run sha256 s cs ≡ s
  unfolding run
  run_failed s [] h = refl
  run_failed s (c ∷ cs) h = rw (step_failed s c h) (run_failed s cs h)

write_fails :
    (next : State) (w : Write) (s : Store)
    → w.fate ≢ written
    → ((final (save next w s)).failed ≡ true) × ((final (save next w s)).state ≡ s.state)
unfolding save clean replace
write_fails next w s h = go w.cleanup w.fate h
  where
    go :
        (c : Option ℕ) (f : Fate)
        → f ≢ written
        → ((final (clean c (replace next f) s)).failed ≡ true)
          × ((final (clean c (replace next f) s)).state ≡ s.state)
    go c written h = absurd (h refl)
    go none lost h = (refl, refl)
    go (some n) lost h = (refl, refl)
    go none renamed h = (refl, refl)
    go (some n) renamed h = (refl, refl)

-- What every operation does on a store.
abbrev pub Refuses : (List ℕ → Text) → Store → Type 0
Refuses sha256 s =
    (list s ≡ thrown storage_failure s)
    × (((excluded : Option Text) (now : ℤ) (secret : Text) (w : Write)
          → create_invitation sha256 excluded now secret w s ≡ thrown storage_failure s)
        × (((key secret : Text) (now : ℤ) (w : Write)
              → enroll sha256 key secret now w s ≡ thrown storage_failure s)
            × (((key : Text) (g : Grant) (w : Write) → grant key g w s ≡ thrown storage_failure s)
                × ((key : Text) (w : Write) → revoke key w s ≡ thrown storage_failure s))))

refuses : (sha256 : List ℕ → Text) (s : Store) → s.failed ≡ true → Refuses sha256 s
unfolding list create_invitation enroll grant revoke
refuses sha256 s h = (
  rw h refl,
  (λ x n y w. rw h refl, (λ k y n w. rw h refl, (λ k g w. rw h refl, λ k w. rw h refl))),
)

-- Once a write has failed, before or after the rename, the state in memory is the one from before,
-- no later history changes the store, and every operation throws the storage error.
pub failed_for_good :
    (sha256 : List ℕ → Text) (next : State) (w : Write) (s : Store) (cs : List Command)
    → w.fate ≢ written
    → ((final (save next w s)).state ≡ s.state)
      × ((run sha256 (final (save next w s)) cs ≡ final (save next w s))
          × Refuses sha256 (run sha256 (final (save next w s)) cs))
failed_for_good sha256 next w s cs h =
    let (failed, same) = write_fails next w s h in
    let stays = run_failed sha256 (final (save next w s)) cs failed in
    (same, (stays, subst (Refuses sha256) (sym stays) (refuses sha256 _ failed)))
