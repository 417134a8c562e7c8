-- ===== src/Receiver/Runs.antt =====
-- A device that is revoked, one that is granted ports, and an engine that does not start again.
use kepos.Common.{ℕ, true, false, none, some, List, [], ◌∷◌, ◌≡◌, refl}
use kepos.Common.Outcome.{final}
use kepos.Common.Integers.{pos}
use kepos.Common.Json.{
  number, text, array, item, end, Fields, field, last, lookup, is_text, keys_are,
}
use kepos.Common.Text.{Text, codes}
use kepos.Invitation.{is_key}
use kepos.Config.Runs.{repeat}
use kepos.ReceiverState.Durable.{all_ports, ports, ReceiverDevice, Store, written, lost, save}
use kepos.ReceiverState.Enrollment.{find_device}
use kepos.ReceiverState.{revoke, grant, list, checked_ports, repeated}
use kepos.Receiver.{revoke_command, request, run}
use kepos.Receiver.State.{Receiver, new_receiver, World, Base, next_config, launch, policy_failed}
use kepos.Receiver.Applied.{InForce, revoke_command-InForce}
use kepos.Receiver.Current.{Current}
use kepos.Receiver.Histories.{run-Current}

abbrev phone : Text
phone = repeat 64 b'b'

abbrev laptop : Text
laptop = repeat 64 b'c'

abbrev device : Text → Text → ReceiverDevice
device key address = record { public_key = key; address = address; allow_tcp = all_ports }

abbrev store : Store
store = record {
  state = record {
    receiver_key = repeat 64 b'a';
    receiver_address = codes "10.7.0.1";
    pool = codes "10.7.0.0/24";
    devices = device phone (codes "10.7.0.2") ∷ device laptop (codes "10.7.0.3") ∷ [];
    invitations = [];
  };
  failed = false;
  disk = none;
}

abbrev base : Base
base = record { address = codes "10.7.0.1"; network = none }

abbrev world : World
world = record {
  now = pos 0;
  secret = repeat 64 b'7';
  write = record { fate = written; cleanup = none };
  stops = true;
  starts = true;
}

abbrev sha256 : List ℕ → Text
sha256 bytes = bytes

abbrev revocation : Fields
revocation = field (codes "action") (text (codes "revoke")) (field (codes "key") (text phone) last)

abbrev granting : Fields
granting = field (codes "action") (text (codes "grant")) (
    field (codes "key") (text laptop)
      (field (codes "ports") (array (item (number (pos 22)) end)) last))

abbrev started : Receiver
started = final (launch base true (new_receiver store))

computing : Unit {0}
unfolding run launch revoke_command is_key find_device revoke grant list save checked_ports repeated
    lookup is_text keys_are
computing = tt

run-Current_example :
    Current base (run sha256 base started (request revocation world ∷ request granting world ∷ []))
run-Current_example =
    run-Current sha256 base store true (request revocation world ∷ request granting world ∷ [])

revoke_command-InForce_example :
    InForce base (final (revoke_command base world phone revocation started))
    × (find_device phone
          (final (revoke_command base world phone revocation started)).store.state.devices
        ≡ none)
unfolding computing
revoke_command-InForce_example =
    revoke_command-InForce base world phone revocation started
      (final (revoke_command base world phone revocation started)) refl

-- The engine that runs at the end has the one device that is left, with its ports.
last_engine :
    (run sha256 base started (request revocation world ∷ request granting world ∷ [])).engine
    ≡ some (
        next_config base (
          record { public_key = laptop; address = codes "10.7.0.3"; allow_tcp = ports (22 ∷ []) }
          ∷ []))
unfolding computing
last_engine = refl

-- A write that is lost leaves the receiver without an engine, and it has failed.
lost_write :
    (run sha256 base started (
      request revocation (record world { write = record { fate = lost; cleanup = none } })
      ∷ [])).engine
    ≡ none
unfolding computing
lost_write = refl

lost_write_fails :
    (run sha256 base started (
      request revocation (record world { write = record { fate = lost; cleanup = none } })
      ∷ [])).failed
    ≡ some policy_failed
unfolding computing
lost_write_fails = refl

-- An engine whose `stop` throws leaves the receiver without an engine too, but it has not failed.
stop_throws :
    (run sha256 base started (request revocation (record world { stops = false }) ∷ [])).engine
    ≡ none
unfolding computing
stop_throws = refl

stop_throws_unnoticed :
    (run sha256 base started (request revocation (record world { stops = false }) ∷ [])).failed
    ≡ none
unfolding computing
stop_throws_unnoticed = refl
