-- ===== src/WorkletBridge/State.antt =====
-- src/vpn/worklet-bridge.ts: the variables of `runWorkletBridge`, the messages to the app, and the way in
-- which a bridge ends. Promises are states, and what the bridge does is noted in a log, the last first.
use kepos.Common.{ℕ, Bool, true, false, Option, none, List, [], ◌∷◌, if◌then◌else◌}
use kepos.Common.Json.{Json, boolean, text, array, object, Fields, field, last, Items, item, end}
use kepos.Common.Text.{Text, codes}
use kepos.Config.{PeerConfig}
use kepos.Engine.Enrolling.{reason_text}
use kepos.Pair.{PairFailure, unusable, unavailable, unknown, rejection}

-- `state`, and the promises `startup` and `stopped` with what they wait for.
pub data Stage : Type 0 where
  initial settings starting running stopped : Stage

pub data Startup : Type 0 where
  idle launching announcing settled : Startup

pub data Shutdown : Type 0 where
  unstopped awaiting_startup awaiting_stop done failed : Shutdown

-- Where the loop that receives frames stands: at the next frame, or at a promise of its handler.
pub data Main : Type 0 where
  listening writing pairing reporting delivering stop_requested reporting_error finishing over :
      Main

pub record Entry : Type 0 where
  pub public_key : Text
  pub label : Text
  pub address : Text

pub data Message : Type 0 where
  paired_message : Text → Text → Text → Message
  pair_error : PairFailure → Message
  settings_message : Text → Text → List Entry → Message
  peer_message : Text → Text → Bool → Message
  running_message stopped_message error_message : Message

pub data Effect : Type 0 where
  sent : Message → Effect
  pair_called : Text → Text → Effect
  launched : Option PeerConfig → Option Text → Effect
  halted destroyed : Effect
  delivered forwarded : List ℕ → Effect

-- `key_pair` is the seed. `deliver` says whether the engine has given its receiver, `watching` whether a
-- failure of the engine is listened for, and `lost` whether the stream is destroyed.
pub record Bridge : Type 0 where
  pub stage : Stage
  pub startup : Startup
  pub runtime : Bool
  pub stopping : Bool
  pub shutdown : Shutdown
  pub main : Main
  pub config : Option PeerConfig
  pub key_pair : Option Text
  pub deliver : Bool
  pub watching : Bool
  pub sink : Bool
  pub packets_ended : Bool
  pub device_closed : Bool
  pub lost : Bool
  pub log : List Effect

abbrev pub new_bridge : Bridge
new_bridge = record {
  stage = initial;
  startup = idle;
  runtime = false;
  stopping = false;
  shutdown = unstopped;
  main = listening;
  config = none;
  key_pair = none;
  deliver = false;
  watching = false;
  sink = true;
  packets_ended = false;
  device_closed = false;
  lost = false;
  log = [];
}

-- The values of the messages.
abbrev pub reason : PairFailure → Text
reason unusable = codes "unusable"
reason unavailable = codes "unavailable"
reason unknown = codes "unknown"
reason (rejection r) = reason_text r

abbrev pub entry_json : Entry → Json
entry_json e = object (
    field (codes "publicKey") (text e.public_key) (
      field (codes "label") (text e.label) (
        field (codes "address") (text e.address) (field (codes "connected") (boolean false) last))))

abbrev pub entry_items : List Entry → Items
entry_items [] = end
entry_items (e ∷ es) = item (entry_json e) (entry_items es)

abbrev pub typed : Text → Fields → Json
typed type rest = object (field (codes "type") (text type) rest)

pub message_json : Message → Json
message_json (paired_message address receiver_address receiver_key) = typed (codes "paired") (
    field (codes "address") (text address) (
      field (codes "receiverAddress") (text receiver_address)
        (field (codes "receiverKey") (text receiver_key) last)))
message_json (pair_error f) =
    typed (codes "pair-error") (field (codes "reason") (text (reason f)) last)
message_json (settings_message key address peers) = typed (codes "settings") (
    field (codes "publicKey") (text key) (
      field (codes "address") (text address)
        (field (codes "peers") (array (entry_items peers)) last)))
message_json (peer_message key label connected) = typed (codes "peer") (
    field (codes "publicKey") (text key)
      (field (codes "label") (text label) (field (codes "connected") (boolean connected) last)))
message_json running_message = typed (codes "running") last
message_json stopped_message = typed (codes "stopped") last
message_json error_message = typed (codes "error") last

abbrev pub note : Bridge → Effect → Bridge
note q e = record q { log = e ∷ q.log }

abbrev pub destroy : Bridge → Bridge
destroy q = record q { lost = true; log = destroyed ∷ q.log }

abbrev pub is_pending : Startup → Bool
is_pending launching = true
is_pending announcing = true
is_pending _ = false

-- `shutdown`: the last part of its task, the part after `await startup`, and its start.
abbrev pub complete : Bridge → Bridge
complete q = record q {
  shutdown = done;
  device_closed = true;
  packets_ended = true;
  key_pair = none;
  sink = false;
}

unfoldable pub after_startup : Bridge → Bridge
after_startup q =
    if q.runtime then record q { shutdown = awaiting_stop; log = halted ∷ q.log } else complete q

unfoldable pub begin_shutdown : Bridge → Bridge
unfolding after_startup
begin_shutdown q =
    let s : Bridge = record q { stage = stopped; stopping = true; shutdown = awaiting_startup } in
    if is_pending q.startup then s else after_startup s

abbrev pub is_begun : Shutdown → Bool
is_begun unstopped = false
is_begun _ = true

-- `stopped ??= ...`
unfoldable pub begin_once : Bridge → Bridge
unfolding begin_shutdown
begin_once q = if is_begun q.shutdown then q else begin_shutdown q

-- The end of `runWorkletBridge`: when `shutdown` fails, the stream is not destroyed.
abbrev pub conclude : Shutdown → Bridge → Bridge
conclude done q = record (destroy q) { main = over }
conclude failed q = record q { main = over }
conclude _ q = q

unfoldable pub resume_end : Bridge → Bridge
resume_end q = conclude q.shutdown q

unfoldable pub close : Bridge → Bridge
unfolding begin_once resume_end
close q = resume_end (begin_once (record q { main = finishing }))

-- An error that is thrown in the handler or by the stream.
unfoldable pub throw : Bridge → Bridge
unfolding close
throw q =
    if q.lost then close q else record (note q (sent error_message)) { main = reporting_error }

abbrev pub answer_stop : Shutdown → Bridge → Bridge
answer_stop done q = record (note q (sent stopped_message)) { main = writing }
answer_stop failed q = throw q
answer_stop _ q = q

unfoldable pub resume_stop : Bridge → Bridge
unfolding throw
resume_stop q = answer_stop q.shutdown q

-- The promise of `shutdown` has been settled, or not yet.
abbrev pub resume_from : Main → Bridge → Bridge
resume_from stop_requested q = resume_stop q
resume_from finishing q = resume_end q
resume_from _ q = q

unfoldable pub resume : Bridge → Bridge
unfolding resume_stop resume_end
resume q = resume_from q.main q

abbrev pub awaits_startup : Shutdown → Bool
awaits_startup awaiting_startup = true
awaits_startup _ = false

-- The startup task has ended.
unfoldable pub settle_startup : Bridge → Bridge
unfolding resume after_startup
settle_startup q =
    let s : Bridge = record q { startup = settled } in
    if awaits_startup q.shutdown then resume (after_startup s) else s
