-- ===== src/Receiver/Applied.antt =====
-- A change of the devices that is confirmed is in force.
use mathlib.Core.Path.{subst}
use kepos.Common.{◌≡◌, refl, sym, ap, ◌∙◌, Bool, true, false, not, none, some, List, if_cases}
use kepos.Common.Outcome.{and_then, Outcome, Run, done, thrown, Keeps}
use kepos.Common.Json.{Fields, keys_are}
use kepos.Common.Text.{Text, codes}
use kepos.ReceiverState.Durable.{ReceiverDevice, Store, StateError}
use kepos.ReceiverState.Enrollment.{find_device}
use kepos.ReceiverState.Access.{revoke-Removed}
use kepos.ReceiverState.Growth.{list-Gives}
use kepos.ReceiverState.{list, revoke}
use kepos.Receiver.{guarded, apply, check_device, revoke_command}
use kepos.Receiver.State.{
  Receiver, CommandError, Answer, changed, World, stored, Base, next_config, start_engine, launch,
  halt,
}

-- What holds after a run that returns.
abbrev pub Gives : {A : Type 0} → (Receiver → Type 0) → Outcome CommandError Receiver A → Type 0
Gives P (done a q) = P q
Gives P (thrown e q) = Unit

Gives-and_then :
    {A B : Type 0} (P : Receiver → Type 0) (o : Outcome CommandError Receiver A)
    (k : A → Run CommandError Receiver B)
    → ((a : A) (q : Receiver) → Gives P (k a q))
    → Gives P (and_then o k)
Gives-and_then P (done a q) k h = h a q
Gives-and_then P (thrown e q) k h = tt

module _ (base : Base) where
  -- The engine runs with the devices of the store.
  abbrev pub InForce : Receiver → Type 0
  InForce q = q.engine ≡ some (next_config base q.store.state.devices)

  -- The change has been made, and it is in force.
  abbrev pub Applied : Run StateError Store (Unit {0}) → Receiver → Type 0
  Applied change q = InForce q × ((s : Store) × (change s ≡ done tt q.store))

  launch-Gives :
      (starts : Bool) (q : Receiver)
      → Gives (λ q'. (q'.store ≡ q.store) × InForce q') (launch base starts q)
  unfolding launch
  launch-Gives starts q = go (list q.store) (list-Gives q.store)
    where
      started :
          (b : Bool) (ds : List ReceiverDevice) (s : Store)
          → s ≡ q.store
          → ds ≡ s.state.devices
          → Gives
              (λ q'. (q'.store ≡ q.store) × InForce q')
              (start_engine base b ds (record q { store = s }))
      started true ds s e x = (e, ap (λ t. some (next_config base t)) x)
      started false ds s e x = tt

      go :
          (o : Outcome StateError Store (List ReceiverDevice))
          → Keeps (λ s'. s' ≡ q.store) (λ (ds : List ReceiverDevice). ds ≡ q.store.state.devices) o
          → Gives
              (λ q'. (q'.store ≡ q.store) × InForce q')
              (and_then (stored q o) (start_engine base starts))
      go (done ds s) (e, x) =
          started starts ds s e (x ∙ ap (λ (s : Store). s.state.devices) (sym e))
      go (thrown err s) h = tt

  apply-Applied :
      (w : World) (change : Run StateError Store (Unit {0})) (q : Receiver)
      → Gives (Applied change) (apply base w change q)
  unfolding apply
  apply-Applied w change q =
      Gives-and_then (Applied change) (halt w.stops q) _ (λ a r. go r (change r.store) refl)
    where
      launched :
          (r : Receiver) (s : Store) (o : Outcome CommandError Receiver (Unit {0}))
          → change s ≡ done tt r.store
          → Gives (λ q'. (q'.store ≡ r.store) × InForce q') o
          → Gives (Applied change) (guarded o)
      launched r s (done a q') e (same, force) =
          (force, (s, e ∙ ap (λ (t : Store). done tt t) (sym same)))
      launched r s (thrown err q') e h = tt

      go :
          (r : Receiver) (o : Outcome StateError Store (Unit {0}))
          → change r.store ≡ o
          → Gives (Applied change) (guarded (and_then (stored r o) (λ _. launch base w.starts)))
      go r (done tt s) e =
          launched (record r { store = s }) r.store _ e
            (launch-Gives w.starts (record r { store = s }))
      go r (thrown err s) e = tt

  revoke-Applied :
      (w : World) (key : Text) (value : Fields) (q : Receiver)
      → Gives (Applied (revoke key w.write)) (revoke_command base w key value q)
  unfolding revoke_command
  revoke-Applied w key value q =
      let P = Applied (revoke key w.write) in
      if_cases (λ (r : Run CommandError Receiver Answer). Gives P (r q))
        (not (keys_are value (codes "action,key"))) _ _ (λ bad. tt)
        (λ good.
          Gives-and_then P (check_device key q) _ (λ a r. apply-Applied w (revoke key w.write) r))

-- If the command that revokes a device is confirmed, then an engine runs that was started with the
-- devices of the store as it is now, and none of them has the key.
pub revoke_command-InForce :
    (base : Base) (w : World) (key : Text) (value : Fields) (q q' : Receiver)
    → revoke_command base w key value q ≡ done changed q'
    → InForce base q' × (find_device key q'.store.state.devices ≡ none)
revoke_command-InForce base w key value q q' e =
    let (force, (s, made)) : Applied base (revoke key w.write) q' =
      subst (Gives (Applied base (revoke key w.write))) e (revoke-Applied base w key value q) in
    (force, (revoke-Removed key w.write s q'.store made).gone)
