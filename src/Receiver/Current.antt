-- ===== src/Receiver/Current.antt =====
-- The running engine has no device that the store does not have.
use mathlib.Core.Path.{subst}
use kepos.Common.{
  ◌≡◌, refl, sym, ap, ◌∙◌, Bool, true, false, not, Option, none, some, List, if_cases,
}
use kepos.Common.Outcome.{
  and_then, Outcome, Run, done, thrown, ◌>>◌, return, throw, Keeps, Keeps-and_then,
}
use kepos.Common.Json.{Fields, lookup, keys_are}
use kepos.Common.Text.{Text, codes, has_text}
use kepos.Invitation.{is_key}
use kepos.Config.{PeerConfig}
use kepos.ReceiverState.Durable.{Grant, ReceiverDevice, Store, StateError}
use kepos.ReceiverState.Growth.{Extends, app_nil, list-Gives}
use kepos.ReceiverState.{list, grant, revoke, keys_of}
use kepos.Receiver.{guarded, apply, check_device, grant_command, revoke_command, read_ports}
use kepos.Receiver.State.{
  Receiver, CommandError, unknown_receiver_device, invalid_tcp_grant, Answer, World, stored,
  on_store, Base, next_config, start_engine, launch, stop_old, halt, restart,
}

-- No engine runs, or one with the devices that the store had first.
abbrev pub Runs : Base → Option PeerConfig → List ReceiverDevice → Type 0
Runs base none all = Unit
Runs base (some c) all = (ds : List ReceiverDevice) × ((c ≡ next_config base ds) × Extends ds all)

abbrev pub Current : Base → Receiver → Type 0
Current base q = Runs base q.engine q.store.state.devices

abbrev pub IsIdle : Receiver → Type 0
IsIdle q = q.engine ≡ none

module _ (base : Base) where
  pub idle-Current : (q : Receiver) → IsIdle q → Current base q
  idle-Current q e = subst (λ c. Runs base c q.store.state.devices) (sym e) tt

  -- Operations of the store that only add devices.
  pub grows :
      {A : Type 0} (m : Run StateError Store A) (q : Receiver)
      → ((ds : List ReceiverDevice)
          → Extends ds q.store.state.devices
          → Keeps (λ (s : Store). Extends ds s.state.devices) (λ _. Unit {0}) (m q.store))
      → Current base q
      → Keeps (Current base) (λ _. Unit {0}) (on_store m q)
  grows {A = A} m q grow h = go q.engine (m q.store) h grow
    where
      go :
          (c : Option PeerConfig) (o : Outcome StateError Store A)
          → Runs base c q.store.state.devices
          → ((ds : List ReceiverDevice)
              → Extends ds q.store.state.devices
              → Keeps (λ (s : Store). Extends ds s.state.devices) (λ _. Unit {0}) o)
          → Keeps (Current base) (λ _. Unit {0}) (stored (record q { engine = c }) o)
      go none (done a s) h grow = (tt, tt)
      go none (thrown e s) h grow = (tt, tt)
      go (some c) (done a s) (ds, (e, x)) grow = ((ds, (e, (grow ds x).0)), tt)
      go (some c) (thrown err s) (ds, (e, x)) grow = ((ds, (e, (grow ds x).0)), tt)

  -- `list` changes nothing, and gives the devices.
  pub listed :
      (q : Receiver)
      → Current base q
      → Keeps (Current base) (λ (ds : List ReceiverDevice). Unit {0}) (on_store list q)
  listed q h = go (list q.store) (list-Gives q.store)
    where
      go :
          (o : Outcome StateError Store (List ReceiverDevice))
          → Keeps (λ s'. s' ≡ q.store) (λ (ds : List ReceiverDevice). ds ≡ q.store.state.devices) o
          → Keeps (Current base) (λ (ds : List ReceiverDevice). Unit {0}) (stored q o)
      go (done ds s) (e, x) =
          (subst (λ (s : Store). Runs base q.engine s.state.devices) (sym e) h, tt)
      go (thrown err s) (e, x) =
          (subst (λ (s : Store). Runs base q.engine s.state.devices) (sym e) h, tt)

  -- An engine that is launched where none runs has the devices of the store.
  pub launch-Current :
      (starts : Bool) (q : Receiver)
      → IsIdle q
      → Keeps (Current base) (λ _. Unit {0}) (launch base starts q)
  unfolding launch
  launch-Current starts q idle = go (list q.store) (list-Gives q.store)
    where
      started :
          (b : Bool) (ds : List ReceiverDevice) (s : Store)
          → ds ≡ s.state.devices
          → Keeps (Current base) (λ _. Unit {0}) (start_engine base b ds (record q { store = s }))
      started true ds s e = ((ds, (refl, subst (λ t. Extends ds t) e (app_nil ds))), tt)
      started false ds s e = (idle-Current (record q { store = s }) idle, tt)

      go :
          (o : Outcome StateError Store (List ReceiverDevice))
          → Keeps (λ s'. s' ≡ q.store) (λ (ds : List ReceiverDevice). ds ≡ q.store.state.devices) o
          → Keeps (Current base) (λ _. Unit {0}) (and_then (stored q o) (start_engine base starts))
      go (done ds s) (e, x) = started starts ds s (x ∙ ap (λ (s : Store). s.state.devices) (sym e))
      go (thrown err s) (e, x) = (idle-Current (record q { store = s }) idle, tt)

  halt-IsIdle : (stops : Bool) (q : Receiver) → Keeps IsIdle (λ _. Unit {0}) (halt stops q)
  unfolding halt
  halt-IsIdle stops q = go q.engine refl stops
    where
      go :
          (c : Option PeerConfig)
          → q.engine ≡ c
          → (b : Bool) → Keeps IsIdle (λ _. Unit {0}) (stop_old c b q)
      go none e b = (e, tt)
      go (some c) e true = (refl, tt)
      go (some c) e false = (refl, tt)

  -- What runs once the engine is gone.
  once_idle :
      {A : Type 0} (o : Outcome CommandError Receiver (Unit {0}))
      (k : Unit {0} → Run CommandError Receiver A)
      → Keeps IsIdle (λ _. Unit {0}) o
      → ((q : Receiver) → IsIdle q → Keeps (Current base) (λ _. Unit {0}) (k tt q))
      → Keeps (Current base) (λ _. Unit {0}) (and_then o k)
  once_idle (done tt q) k e h = h q e.0
  once_idle (thrown err q) k e h = (idle-Current q e.0, tt)

  stored-IsIdle :
      {A : Type 0} (q : Receiver) (o : Outcome StateError Store A)
      → IsIdle q
      → Keeps IsIdle (λ _. Unit {0}) (stored q o)
  stored-IsIdle q (done a s) e = (e, tt)
  stored-IsIdle q (thrown err s) e = (e, tt)

  guarded-Current :
      (o : Outcome CommandError Receiver (Unit {0}))
      → Keeps (Current base) (λ _. Unit {0}) o
      → Keeps (Current base) (λ _. Unit {0}) (guarded o)
  guarded-Current (done a q) h = (h.0, tt)
  guarded-Current (thrown e q) h = (h.0, tt)

  apply-Current :
      (w : World) (change : Run StateError Store (Unit {0})) (q : Receiver)
      → Keeps (Current base) (λ _. Unit {0}) (apply base w change q)
  unfolding apply
  apply-Current w change q = once_idle (halt w.stops q) _ (halt-IsIdle w.stops q) (λ r idle.
      guarded-Current ((on_store change >> launch base w.starts) r) (
        once_idle (on_store change r) (λ _. launch base w.starts)
          (stored-IsIdle r (change r.store) idle) (λ t idle'. launch-Current w.starts t idle')))

  pub restart-Current :
      (w : World) (q : Receiver) → Keeps (Current base) (λ _. Unit {0}) (restart base w q)
  unfolding restart
  restart-Current w q =
      once_idle (halt w.stops q) (λ _. launch base w.starts) (halt-IsIdle w.stops q)
        (λ r idle. launch-Current w.starts r idle)

  check_device-Current :
      (key : Text) (q : Receiver)
      → Current base q
      → Keeps (Current base) (λ _. Unit {0}) (check_device key q)
  unfolding check_device
  check_device-Current key q h =
      if_cases
        (λ (r : Run CommandError Receiver (Unit {0})). Keeps (Current base) (λ _. Unit {0}) (r q))
        (not (is_key key)) _ _ (λ bad. (h, tt))
        (λ good.
          Keeps-and_then (Current base) (λ (ds : List ReceiverDevice). Unit {0}) (λ _. Unit {0})
            (on_store list q) _ (listed q h)
            (λ ds r k _.
              if_cases
                (λ (m : Run CommandError Receiver (Unit {0})).
                  Keeps (Current base) (λ _. Unit {0}) (m r))
                (has_text (keys_of ds) key) (return tt) (throw unknown_receiver_device)
                (λ e. (k, tt)) (λ e. (k, tt))))

  pub grant_command-Current :
      (w : World) (key : Text) (value : Fields) (q : Receiver)
      → Current base q
      → Keeps (Current base) (λ _. Unit {0}) (grant_command base w key value q)
  unfolding grant_command
  grant_command-Current w key value q h =
      if_cases
        (λ (r : Run CommandError Receiver Answer). Keeps (Current base) (λ _. Unit {0}) (r q))
        (not (keys_are value (codes "action,key,ports"))) _ _ (λ bad. (h, tt))
        (λ good.
          Keeps-and_then (Current base) (λ _. Unit {0}) (λ _. Unit {0}) (check_device key q) _
            (check_device-Current key q h)
            (λ a r k _. granted (read_ports (lookup value (codes "ports"))) r k))
    where
      granted :
          (o : Option Grant) (r : Receiver)
          → Current base r
          → Keeps
              (Current base)
              (λ _. Unit {0})
              ((elim o as (λ x. Run CommandError Receiver Answer) [
                | none ↦ throw invalid_tcp_grant
                | some asked ↦ apply base w (grant key asked w.write)
              ])
                r)
      granted none r k = (k, tt)
      granted (some asked) r k = apply-Current w (grant key asked w.write) r

  pub revoke_command-Current :
      (w : World) (key : Text) (value : Fields) (q : Receiver)
      → Current base q
      → Keeps (Current base) (λ _. Unit {0}) (revoke_command base w key value q)
  unfolding revoke_command
  revoke_command-Current w key value q h =
      if_cases
        (λ (r : Run CommandError Receiver Answer). Keeps (Current base) (λ _. Unit {0}) (r q))
        (not (keys_are value (codes "action,key"))) _ _ (λ bad. (h, tt))
        (λ good.
          Keeps-and_then (Current base) (λ _. Unit {0}) (λ _. Unit {0}) (check_device key q) _
            (check_device-Current key q h) (λ a r k _. apply-Current w (revoke key w.write) r))
