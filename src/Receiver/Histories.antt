-- ===== src/Receiver/Histories.antt =====
-- A receiver through requests, enrolments and restarts, in the order of its queue.
use kepos.Common.{
  ℕ, refl, Bool, true, false, not, ◌&&◌, ◌||◌, Option, none, some, List, [], ◌∷◌, ◌==◌, if_cases,
  length,
}
use kepos.Common.Outcome.{
  Outcome, Run, done, thrown, return, final, Keeps, Keeps-and_then, Keeps-final,
}
use kepos.Common.Json.{Fields, lookup, field_names, is_text}
use kepos.Common.Text.{Text, codes}
use kepos.Config.{PeerConfig}
use kepos.ReceiverState.Durable.{ReceiverDevice, Store}
use kepos.ReceiverState.Growth.{create-Has, enroll-Has}
use kepos.ReceiverState.{list, create_invitation, enroll}
use kepos.Receiver.{
  excluded_of, invite_command, change_command, text_of, command, note_storage, serve, enroll_device,
  applied, on_reload, Event, request, enrolling, device_changed, engine_lost, stop_called,
  stop_finished, reload_due, lost, step, run,
}
use kepos.Receiver.State.{
  Receiver, new_receiver, CommandError, Answer, invitation, devices, World, fail, storage_failed,
  on_store, Base, launch, restart,
}
use kepos.Receiver.Current.{
  Current, grows, listed, launch-Current, restart-Current, grant_command-Current,
  revoke_command-Current,
}

module _ (sha256 : List ℕ → Text) (base : Base) where
  abbrev Kept : {A : Type 0} → Outcome CommandError Receiver A → Type 0
  Kept o = Keeps (Current base) (λ _. Unit {0}) o

  invite-Current :
      (o : Option (Option Text)) (w : World) (q : Receiver)
      → Current base q
      → Kept (invite_command sha256 base o w q)
  invite-Current none w q h = (h, tt)
  invite-Current (some excluded) w q h =
      Keeps-and_then (Current base) (λ _. Unit {0}) (λ _. Unit {0})
        (on_store (create_invitation sha256 excluded w.now w.secret w.write) q)
        (λ t. return (invitation t))
        (grows base (create_invitation sha256 excluded w.now w.secret w.write) q
          (λ ds x. create-Has ds sha256 excluded w.now w.secret w.write q.store x) h)
        (λ a r k _. (k, tt))

  change-Current :
      (o : Option Text) (w : World) (value : Fields) (grants revokes : Bool) (q : Receiver)
      → Current base q
      → Kept (change_command sha256 base o w value grants revokes q)
  change-Current none w value grants revokes q h = (h, tt)
  change-Current (some key) w value true revokes q h = grant_command-Current base w key value q h
  change-Current (some key) w value false true q h = revoke_command-Current base w key value q h
  change-Current (some key) w value false false q h = (h, tt)

  command-Current :
      (value : Fields) (w : World) (q : Receiver)
      → Current base q
      → Kept (command sha256 base value w q)
  unfolding command
  command-Current value w q h =
      let action = lookup value (codes "action") in
      let kept : Run CommandError Receiver Answer → Type 0 = λ r. Kept (r q) in
      if_cases kept (is_text action (codes "invite")) _ _
        (λ e. invite-Current (excluded_of value) w q h)
        (λ e.
          if_cases kept (is_text action (codes "list") && length (field_names value) == 1) _ _
            (λ e.
              Keeps-and_then (Current base) (λ (ds : List ReceiverDevice). Unit {0}) (λ _. Unit {0})
                (on_store list q) (λ ds. return (devices ds)) (listed base q h)
                (λ a r k _. (k, tt)))
            (λ e. change-Current (text_of (lookup value (codes "key"))) w value _ _ q h))

  noted-Current :
      {A : Type 0} (o : Outcome CommandError Receiver A) → Kept o → Kept (note_storage o)
  noted-Current (done a q) h = h
  noted-Current (thrown e q) h =
      (if_cases (Current base) _ (fail storage_failed q) q (λ s. h.0) (λ s. h.0), tt)

  enroll_device-Current :
      (key secret : Text) (free is_open : Bool) (w : World) (q : Receiver)
      → Current base q
      → Kept (enroll_device sha256 base key secret free is_open w q)
  unfolding enroll_device
  enroll_device-Current key secret free is_open w q h = noted-Current _ (
      if_cases (λ (o : Outcome CommandError Receiver ReceiverDevice). Kept o) (not free) _ _
        (λ e. (h, tt))
        (λ e.
          if_cases (λ (o : Outcome CommandError Receiver ReceiverDevice). Kept o)
            (q.stopping || not is_open) _ _ (λ e. (h, tt))
            (λ e.
              grows base (enroll sha256 key secret w.now w.write) q
                (λ ds x. enroll-Has ds sha256 key secret w.now w.write q.store x) h)))

  applied-Current :
      (o : Outcome CommandError Receiver (Unit {0})) → Kept o → Current base (applied o)
  applied-Current (done a q) h = h.0
  applied-Current (thrown e q) h = h.0

  lost-Current : (c : Option PeerConfig) (q : Receiver) → Current base q → Current base (lost c q)
  lost-Current none q h = h
  lost-Current (some c) q h = if_cases (Current base) q.stopping q _ (λ e. h) (λ e. h)

  step-Current : (q : Receiver) (e : Event) → Current base q → Current base (step sha256 base q e)
  unfolding step serve on_reload
  step-Current q (request value w) h =
      Keeps-final (Current base) (λ _. Unit {0}) _
        (noted-Current (command sha256 base value w q) (command-Current value w q h))
  step-Current q (enrolling key secret free is_open w) h =
      Keeps-final (Current base) (λ _. Unit {0})
        (enroll_device sha256 base key secret free is_open w q)
        (enroll_device-Current key secret free is_open w q h)
  step-Current q device_changed h = h
  step-Current q (reload_due w) h =
      if_cases (Current base) (not q.reload || q.stopping) (record q { reload = false }) _ (λ e. h)
        (λ e.
          applied-Current (restart base w (record q { reload = false })) (restart-Current base w _))
  step-Current q engine_lost h = lost-Current q.engine q h
  step-Current q stop_called h = h
  step-Current q stop_finished h =
      if_cases (Current base) q.stopping (record q { engine = none }) q (λ e. tt) (λ e. h)

  run_from-Current :
      (q : Receiver) (es : List Event) → Current base q → Current base (run sha256 base q es)
  unfolding run
  run_from-Current q [] h = h
  run_from-Current q (e ∷ es) h = run_from-Current (step sha256 base q e) es (step-Current q e h)

-- From the launch of a receiver on any store, after any requests, enrolments, restarts and failures: if
-- an engine runs, then its configuration is the one for devices that the store begins with, so no peer
-- that the engine serves is without a device in the store with its key, address and grant.
pub run-Current :
    (sha256 : List ℕ → Text) (base : Base) (s : Store) (starts : Bool) (es : List Event)
    → Current base (run sha256 base (final (launch base starts (new_receiver s))) es)
run-Current sha256 base s starts es =
    run_from-Current sha256 base (final (launch base starts (new_receiver s))) es (
      Keeps-final (Current base) (λ _. Unit {0}) (launch base starts (new_receiver s))
        (launch-Current base starts (new_receiver s) refl))
