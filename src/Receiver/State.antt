-- ===== src/Receiver/State.antt =====
-- src/vpn/receiver.ts: the receiver, its failures, and the launch and restart of its engine.
use kepos.Common.{Bool, false, Option, none, some, List, map, if◌then◌else◌}
use kepos.Common.Outcome.{Outcome, Run, done, thrown, ◌>>=◌, ◌>>◌}
use kepos.Common.Integers.{ℤ}
use kepos.Common.Text.{Text}
use kepos.Config.{PeerConfig, PeerDefinition, VpnPeer, PeerNetworkConfig, accept}
use kepos.ReceiverState.Durable.{ReceiverDevice, Store, StateError, Write}
use kepos.ReceiverState.{list}

-- The messages that `failed` is resolved with.
pub data Failure : Type 0 where
  storage_failed policy_failed enrollment_failed engine_failed : Failure

-- `engine` is the configuration that the running engine was started with, if one runs.
pub record Receiver : Type 0 where
  pub store : Store
  pub engine : Option PeerConfig
  pub stopping : Bool
  pub reload : Bool
  pub failed : Option Failure

abbrev pub new_receiver : Store → Receiver
new_receiver s = record {
  store = s;
  engine = none;
  stopping = false;
  reload = false;
  failed = none;
}

pub data CommandError : Type 0 where
  invalid_request unknown_receiver_device invalid_tcp_grant engine_error : CommandError
  enrollment_ended route_rejected : CommandError
  store_error : StateError → CommandError

pub data Answer : Type 0 where
  invitation : Text → Answer
  devices : List ReceiverDevice → Answer
  changed : Answer

-- What happens during a command.
pub record World : Type 0 where
  pub now : ℤ
  pub secret : Text
  pub write : Write
  pub stops : Bool
  pub starts : Bool

abbrev pub first_failure : Option Failure → Failure → Option Failure
first_failure none f = some f
first_failure (some old) f = some old

abbrev pub fail : Failure → Receiver → Receiver
fail f q = record q { failed = first_failure q.failed f }

abbrev pub stored :
    {A : Type 0} → Receiver → Outcome StateError Store A → Outcome CommandError Receiver A
stored q (done a s) = done a (record q { store = s })
stored q (thrown e s) = thrown (store_error e) (record q { store = s })

abbrev pub on_store : {A : Type 0} → Run StateError Store A → Run CommandError Receiver A
on_store m q = stored q (m q.store)

-- The configuration of `launch`.
abbrev pub definition_of : ReceiverDevice → PeerDefinition
definition_of d = record { label = d.public_key; public_key = d.public_key; connection = accept }

abbrev pub entry_of : ReceiverDevice → VpnPeer
entry_of d = record { peer = d.public_key; address = d.address; allow_tcp = d.allow_tcp }

-- The configuration that the receiver was started with: its address and its network.
pub record Base : Type 0 where
  pub address : Text
  pub network : Option PeerNetworkConfig

abbrev pub next_config : Base → List ReceiverDevice → PeerConfig
next_config base ds = record {
  vpn = some (record { address = base.address; peers = map entry_of ds });
  network = base.network;
  peers = map definition_of ds;
}

abbrev pub start_engine : Base → Bool → List ReceiverDevice → Run CommandError Receiver (Unit {0})
start_engine base starts ds q =
    if starts
    then done tt (record q { engine = some (next_config base ds) })
    else thrown engine_error q

unfoldable pub launch : Base → Bool → Run CommandError Receiver (Unit {0})
launch base starts = on_store list >>= start_engine base starts

-- `const old = runtime; runtime = undefined; await old?.stop();`
abbrev pub stop_old : Option PeerConfig → Bool → Run CommandError Receiver (Unit {0})
stop_old none stops q = done tt q
stop_old (some c) stops q =
    if stops
    then done tt (record q { engine = none })
    else thrown engine_error (record q { engine = none })

unfoldable pub halt : Bool → Run CommandError Receiver (Unit {0})
halt stops q = stop_old q.engine stops q

unfoldable pub restart : Base → World → Run CommandError Receiver (Unit {0})
unfolding halt launch
restart base w = halt w.stops >> launch base w.starts
