-- ===== src/WorkletBridge.antt =====
-- src/vpn/worklet-bridge.ts: the messages of the app, and `runWorkletBridge` as a state machine.
-- `parse` is `JSON.parse` of a payload that is read as UTF-8, `public_key` the key of a seed in hexadecimal,
-- and `number_of`, `toml` and `stringify` are the parameters of the reader of configurations.
pub mod Handlers
pub mod Histories
pub mod Lifecycle
mod Runs
pub mod Settings
pub mod Messages
pub mod State
use kepos.Common.{
  ℕ, Bool, true, false, not, ◌&&◌, ◌||◌, Option, none, some, List, [], ◌∷◌, ltb, leb, ◌==◌,
  if◌then◌else◌, length,
}
use kepos.Common.Json.{Json, text, object, Fields, lookup, field_names, is_text, keys_are}
use kepos.Common.Text.{Text, codes, text_eq}
use kepos.Invitation.{is_key}
use kepos.PacketFraming.{vpn_mtu}
use kepos.WorkletFraming.{ipc_control}
use kepos.Config.{PeerConfig, PeerDefinition, VpnPeer, PeerVpnConfig}
use kepos.Config.Values.{Parsed, ok, error}
use kepos.Config.Toml.{parse_kepos_config}
use kepos.Engine.Members.{find_definition}
use kepos.Pair.{Outcome, failure, paired, PairFailure, unknown}
use kepos.WorkletBridge.State.{
  Stage, initial, settings, starting, running, stopped, Startup, idle, launching, announcing,
  settled, Main, listening, writing, pairing, reporting, delivering, stop_requested,
  reporting_error, finishing, over, Shutdown, awaiting_stop, failed, Entry, Message, paired_message,
  pair_error, settings_message, peer_message, running_message, Effect, sent, pair_called, launched,
  delivered, forwarded, Bridge, new_bridge, note, destroy, complete, begin_once, close, throw,
  resume_stop, resume, settle_startup,
}
use kepos.WorkletBridge.Messages.{
  is_initial, is_settings, is_running, is_stopped, pair_parts, start_parts, paired_values,
  settings_peers,
}

abbrev pub begin_pairing : Bridge → Option (Text × Text) → Bridge
begin_pairing q none = throw q
begin_pairing q (some (invitation, seed)) = record q {
  stage = starting;
  key_pair = some seed;
  main = pairing;
  log = pair_called invitation seed ∷ q.log;
}

-- The answer to `pair`. A configuration without the values is an error like any other.
abbrev pub report : Bridge → Option Message → Bridge
report q none = record (note q (sent (pair_error unknown))) { main = writing }
report q (some m) = record (note q (sent m)) { main = reporting }

pub on_paired : Bridge → Outcome → Bridge
unfolding paired_values
on_paired q (failure f) = record (note q (sent (pair_error f))) { main = writing }
on_paired q (paired c) = report q (paired_values c)

-- `ready` and `stop`
pub ready : Bridge → Bridge
ready q = record q {
  stage = starting;
  startup = launching;
  log = launched q.config q.key_pair ∷ q.log;
}

pub stop : Bridge → Bridge
unfolding begin_once resume_stop
stop q = resume_stop (begin_once (record q { main = stop_requested }))

-- A packet of the app.
pub on_packet : Bridge → List ℕ → Bridge
unfolding throw
on_packet q payload =
    if not (is_running q.stage)
      || not q.deliver
      || ltb (length payload) 20
      || ltb vpn_mtu (length payload)
    then throw q
    else record q { main = delivering; log = delivered payload ∷ q.log }

-- What happens to the bridge: a frame, the end or a failure of the stream, the end of a write, of `pair`
-- and of `deliver`, what the engine and its device do, a failed write of a `peer` message, and the end
-- of `runtime.stop`.
pub data Event : Type 0 where
  frame : ℕ → List ℕ → Event
  ended broken stream_lost : Event
  wrote handed : Bool → Event
  pair_ended : Outcome → Event
  engine_up engine_down engine_failed : Event
  announced : Bool → Event
  receiving device_close : Event
  peer_changed : Text → Text → Bool → Event
  status_failed : Event
  outgoing : List ℕ → Event
  halt_ended : Bool → Event

-- The end of a write that the handler waits for.
abbrev pub after_write : Main → Bool → Bridge → Bridge
after_write writing true q = record q { main = listening }
after_write writing false q = throw q
after_write reporting true q = record q { main = listening }
after_write reporting false q = record (note q (sent (pair_error unknown))) { main = writing }
after_write reporting_error b q = close q
after_write _ b q = q

-- The startup task, after `startEngine` and after its message.
pub come_up : Bridge → Bridge
unfolding settle_startup
come_up q =
    let s : Bridge = record q { runtime = true } in
    if q.stopping
    then settle_startup s
    else record s { stage = running; startup = announcing; log = sent running_message ∷ q.log }

abbrev pub on_startup : Startup → Event → Bridge → Bridge
on_startup launching engine_up q = come_up q
on_startup launching engine_down q = settle_startup (destroy q)
on_startup announcing (announced true) q = settle_startup (record q { watching = true })
on_startup announcing (announced false) q = settle_startup (destroy q)
on_startup _ _ q = q

-- The end of `runtime.stop`.
abbrev pub on_halt : Shutdown → Bool → Bridge → Bridge
on_halt awaiting_stop true q = resume (complete q)
on_halt awaiting_stop false q = resume (record q { shutdown = failed })
on_halt _ b q = q

abbrev is_started : Startup → Bool
is_started idle = false
is_started _ = true

-- The device of the engine, which is there from its launch on.
abbrev pub on_device : Event → Bridge → Bridge
on_device receiving q = record q { deliver = true }
on_device device_close q = record q { deliver = false; packets_ended = true }
on_device (peer_changed key label connected) q = note q (sent (peer_message key label connected))
on_device status_failed q = destroy q
on_device (outgoing packet) q = note q (forwarded packet)
on_device engine_failed q = if q.watching && not q.stopping then destroy q else q
on_device _ q = q

abbrev pub from_device : Event → Bridge → Bridge
from_device e q = if is_started q.startup then on_device e q else q

module _ (parse : List ℕ → Option Json) (public_key : Text → Text) (number_of : Text → Option ℕ)
    (toml : Text → Parsed Json) (stringify : Json → Text) where
  abbrev pub send_settings : Bridge → Text → Text → Option (List Entry) → Bridge
  send_settings q key address none = throw q
  send_settings q key address (some peers) = record q {
    stage = settings;
    main = writing;
    log = sent (settings_message key address peers) ∷ q.log;
  }

  abbrev pub configure : Bridge → Text → PeerConfig → Option PeerVpnConfig → Bridge
  configure q seed c none = throw q
  configure q seed c (some vpn) =
      send_settings (record q { key_pair = some seed }) (public_key seed) vpn.address
        (settings_peers (public_key seed) c.peers vpn.peers)

  abbrev pub load : Bridge → Text → Parsed PeerConfig → Bridge
  load q seed (error message) = throw q
  load q seed (ok c) = configure (record q { config = some c }) seed c c.vpn

  abbrev pub begin_settings : Bridge → Option (Text × Text) → Bridge
  begin_settings q none = throw q
  begin_settings q (some (source, seed)) =
      load q seed (parse_kepos_config number_of toml stringify source)

  pub control_object : Bridge → Fields → Bridge
  unfolding pair_parts start_parts settings_peers ready stop throw
  control_object q value =
      let type = lookup value (codes "type") in
      let alone = length (field_names value) == 1 in
      if is_text type (codes "pair") && is_initial q.stage
      then begin_pairing q (pair_parts value)
      else if is_text type (codes "start") && is_initial q.stage
      then begin_settings q (start_parts value)
      else if is_text type (codes "ready") && alone && is_settings q.stage
      then ready q
      else if is_text type (codes "stop") && alone && not (is_stopped q.stage)
      then stop q
      else throw q

  abbrev pub control_json : Bridge → Option Json → Bridge
  control_json q (some (object value)) = control_object q value
  control_json q _ = throw q

  pub on_frame : Bridge → ℕ → List ℕ → Bridge
  unfolding control_object on_packet
  on_frame q kind payload =
      if kind == ipc_control then control_json q (parse payload) else on_packet q payload

  -- An event that the code does not wait for does nothing.
  abbrev pub on_main : Main → Event → Bridge → Bridge
  on_main listening (frame kind payload) q = on_frame q kind payload
  on_main listening ended q = close q
  on_main listening broken q = throw q
  on_main pairing (pair_ended o) q = on_paired q o
  on_main delivering (handed true) q = record q { main = listening }
  on_main delivering (handed false) q = throw q
  on_main m (wrote b) q = after_write m b q
  on_main _ _ q = q

  abbrev pub on_engine : Event → Bridge → Bridge
  on_engine stream_lost q = record q { lost = true }
  on_engine engine_up q = on_startup q.startup engine_up q
  on_engine engine_down q = on_startup q.startup engine_down q
  on_engine (announced b) q = on_startup q.startup (announced b) q
  on_engine (halt_ended b) q = on_halt q.shutdown b q
  on_engine receiving q = from_device receiving q
  on_engine device_close q = from_device device_close q
  on_engine (peer_changed key label connected) q = from_device (peer_changed key label connected) q
  on_engine status_failed q = from_device status_failed q
  on_engine (outgoing packet) q = from_device (outgoing packet) q
  on_engine engine_failed q = from_device engine_failed q
  on_engine e q = on_main q.main e q

  unfoldable pub step : Bridge → Event → Bridge
  unfolding on_frame on_paired throw close come_up settle_startup resume
  step q e = on_engine e q

  unfoldable pub run : Bridge → List Event → Bridge
  unfolding step
  run q [] = q
  run q (e ∷ es) = run (step q e) es
