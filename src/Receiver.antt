-- ===== src/Receiver.antt =====
-- src/vpn/receiver.ts: the commands of the control socket, the enrolments and the restarts of the engine.
-- The queue `serialize` runs them one after another, so each is a run over the receiver. What the store
-- and the engine do is an argument: the clock, the secret, the write, and whether the old engine stops
-- and the new one starts.
pub mod Applied
pub mod Current
pub mod State
pub mod Histories
mod Runs
use kepos.Common.{
  ℕ, Bool, true, false, not, ◌&&◌, ◌||◌, Option, none, some, List, [], ◌∷◌, ◌++◌, map, ltb, ◌==◌,
  if◌then◌else◌, length,
}
use kepos.Common.Outcome.{Outcome, Run, done, thrown, ◌>>=◌, ◌>>◌, return, throw, final}
use kepos.Common.Integers.{ℤ, pos}
use kepos.Common.Json.{
  Json, number, text, array, object, Fields, lookup, field_names, to_list, is_text, keys_are,
}
use kepos.Common.Text.{Text, codes, has_text}
use kepos.Invitation.{is_key}
use kepos.Config.{PeerConfig, PeerDefinition, VpnPeer, PeerVpnConfig, PeerNetworkConfig, accept}
use kepos.ReceiverState.Durable.{
  Grant, all_ports, ports, ReceiverDevice, Store, StateError, storage_failure, Write,
}
use kepos.ReceiverState.{
  list, create_invitation, enroll, grant, revoke, keys_of, bad_port, repeated,
}
use kepos.Receiver.State.{
  Receiver, CommandError, Answer, World, fail, on_store, Base, launch, halt, restart,
  storage_failed, policy_failed, enrollment_failed, engine_failed, invalid_request,
  unknown_receiver_device, invalid_tcp_grant, enrollment_ended, route_rejected, store_error,
  invitation, devices, changed,
}

-- `request.ports`
abbrev port_number : Json → Option ℕ
port_number (number (pos n)) = if bad_port n then none else some n
port_number _ = none

pub port_numbers : List Json → Option (List ℕ)
port_numbers [] = some []
port_numbers (j ∷ js) = elim (port_number j) [
  | none ↦ none
  | some n ↦ elim (port_numbers js) [ none ↦ none | some ns ↦ some (n ∷ ns) ]
]

pub read_ports : Option Json → Option Grant
unfolding port_numbers
read_ports (some (array items)) = elim (port_numbers (to_list items)) [
  | none ↦ none
  | some ns ↦ if ltb 256 (length ns) || repeated ns then none else some (ports ns)
]
read_ports value = if is_text value (codes "all") then some all_ports else none

-- A failure while the policy is applied stops the receiver.
abbrev pub guarded : Outcome CommandError Receiver (Unit {0}) → Outcome CommandError Receiver Answer
guarded (done a q) = done changed q
guarded (thrown e q) = thrown e (fail policy_failed q)

pub apply : Base → World → Run StateError Store (Unit {0}) → Run CommandError Receiver Answer
unfolding halt launch
apply base w change = halt w.stops >>= λ _ q. guarded ((on_store change >> launch base w.starts) q)

-- `typeof request.key === "string"`
abbrev pub text_of : Option Json → Option Text
text_of (some (text s)) = some s
text_of _ = none

-- The key of a device that is enrolled.
pub check_device : Text → Run CommandError Receiver (Unit {0})
check_device key =
    if not (is_key key)
    then throw unknown_receiver_device
    else on_store list >>= λ ds.
        if has_text (keys_of ds) key then return tt else throw unknown_receiver_device

pub grant_command : Base → World → Text → Fields → Run CommandError Receiver Answer
unfolding check_device read_ports apply
grant_command base w key value =
    if not (keys_are value (codes "action,key,ports"))
    then throw invalid_request
    else check_device key >>= λ _. elim (read_ports (lookup value (codes "ports"))) [
      | none ↦ throw invalid_tcp_grant
      | some asked ↦ apply base w (grant key asked w.write)
    ]

pub revoke_command : Base → World → Text → Fields → Run CommandError Receiver Answer
unfolding check_device apply
revoke_command base w key value =
    if not (keys_are value (codes "action,key"))
    then throw invalid_request
    else check_device key >>= λ _. apply base w (revoke key w.write)

-- The two forms of `invite`; no excluded address is written, or a text.
abbrev pub excluded_of : Fields → Option (Option Text)
excluded_of value =
    if keys_are value (codes "action")
    then some none
    else if keys_are value (codes "action,excludeAddress")
    then (elim (text_of (lookup value (codes "excludeAddress"))) [
      | none ↦ none
      | some a ↦ some (some a)
    ])
    else none

-- A request of the socket. An error of the storage stops the receiver.
abbrev pub is_storage : CommandError → Bool
is_storage (store_error storage_failure) = true
is_storage _ = false

abbrev pub note_storage :
    {A : Type 0} → Outcome CommandError Receiver A → Outcome CommandError Receiver A
note_storage (done a q) = done a q
note_storage (thrown e q) = thrown e (if is_storage e then fail storage_failed q else q)

-- The timer of `changed`.
abbrev pub applied : Outcome CommandError Receiver (Unit {0}) → Receiver
applied (done a q) = q
applied (thrown e q) = fail enrollment_failed q

pub data Event : Type 0 where
  request : Fields → World → Event
  enrolling : Text → Text → Bool → Bool → World → Event
  device_changed engine_lost stop_called stop_finished : Event
  reload_due : World → Event

abbrev pub lost : Option PeerConfig → Receiver → Receiver
lost none q = q
lost (some c) q = if q.stopping then q else fail engine_failed q

module _ (sha256 : List ℕ → Text) (base : Base) where
  abbrev pub invite : Option Text → World → Run CommandError Receiver Answer
  invite excluded w = on_store (create_invitation sha256 excluded w.now w.secret w.write) >>= λ t.
      return (invitation t)

  abbrev pub invite_command : Option (Option Text) → World → Run CommandError Receiver Answer
  invite_command none w = throw invalid_request
  invite_command (some excluded) w = invite excluded w

  abbrev pub change_command :
      Option Text → World → Fields → Bool → Bool → Run CommandError Receiver Answer
  change_command none w value grants revokes = throw invalid_request
  change_command (some key) w value grants revokes =
      if grants
      then grant_command base w key value
      else if revokes
      then revoke_command base w key value
      else throw invalid_request

  pub command : Fields → World → Run CommandError Receiver Answer
  unfolding grant_command revoke_command
  command value w =
      let action = lookup value (codes "action") in
      if is_text action (codes "invite")
      then invite_command (excluded_of value) w
      else if is_text action (codes "list") && length (field_names value) == 1
      then (on_store list >>= λ ds. return (devices ds))
      else change_command (text_of (lookup value (codes "key"))) w value
          (is_text action (codes "grant")) (is_text action (codes "revoke"))

  pub serve : Fields → World → Run CommandError Receiver Answer
  unfolding command
  serve value w q = note_storage (command value w q)

  -- The enrolment of the engine; `free` says that the routes of the pool have no conflict, and `open`
  -- that the stream is still there.
  pub enroll_device : Text → Text → Bool → Bool → World → Run CommandError Receiver ReceiverDevice
  enroll_device key secret free is_open w q = note_storage (
      if not free
      then thrown route_rejected q
      else if q.stopping || not is_open
      then thrown enrollment_ended q
      else on_store (enroll sha256 key secret w.now w.write) q)

  pub on_reload : World → Receiver → Receiver
  unfolding restart
  on_reload w q =
      let r : Receiver = record q { reload = false } in
      if not q.reload || q.stopping then r else applied (restart base w r)

  unfoldable pub step : Receiver → Event → Receiver
  unfolding serve enroll_device on_reload
  step q (request value w) = final (serve value w q)
  step q (enrolling key secret free is_open w) = final (enroll_device key secret free is_open w q)
  step q device_changed = record q { reload = true }
  step q (reload_due w) = on_reload w q
  step q engine_lost = lost q.engine q
  step q stop_called = record q { stopping = true; reload = false }
  step q stop_finished = if q.stopping then record q { engine = none } else q

  unfoldable pub run : Receiver → List Event → Receiver
  unfolding step
  run q [] = q
  run q (e ∷ es) = run (step q e) es
