-- ===== src/WorkletBridge/Runs.antt =====
-- A bridge from its start to its end, one that is stopped while its engine starts, and one that pairs.
use kepos.Common.{
  ℕ, true, false, none, some, Option, List, [], ◌∷◌, ◌≡◌, ◌≤◌, refl, if◌then◌else◌, ◌==◌,
}
use kepos.Common.Json.{Json, text, object, field, last, lookup, keys_are, is_text}
use kepos.Common.Text.{Text, codes, number}
use kepos.Invitation.{is_key}
use kepos.WorkletFraming.{ipc_control, ipc_packet}
use kepos.ReceiverState.Durable.{all_ports}
use kepos.Config.Runs.{config, loop, repeat, key}
use kepos.Config.Values.{Parsed, ok}
use kepos.Config.Toml.{toml_json, parse_kepos_config}
use kepos.Pair.{failure, unusable}
use kepos.WorkletBridge.State.{
  settings_message, running_message, stopped_message, pair_error, sent, launched, halted, destroyed,
  delivered, pair_called, Bridge, new_bridge, is_pending,
}
use kepos.WorkletBridge.{
  Event, frame, wrote, receiving, engine_up, announced, handed, halt_ended, ended, pair_ended, run,
}
use kepos.WorkletBridge.Messages.{is_stopped}
use kepos.WorkletBridge.Lifecycle.{launches, blind_launches, odd_packets, halts, count}
use kepos.Engine.Members.{members}
use kepos.WorkletBridge.{settings_peers}
use kepos.WorkletBridge.Settings.{entries_of, settings_peers-members}
use kepos.WorkletBridge.Histories.{run_one_engine, shutdown_complete}

abbrev seed : Text
seed = repeat 64 b'c'

-- Payloads of one byte stand for the messages.
abbrev message : ℕ → Option Json
message n =
    if n == 1
    then some (
        object (
          field (codes "type") (text (codes "start"))
            (field (codes "config") (text (codes "file")) (field (codes "seed") (text seed) last))))
    else if n == 2
    then some (object (field (codes "type") (text (codes "ready")) last))
    else if n == 3
    then some (object (field (codes "type") (text (codes "stop")) last))
    else some (
        object (
          field (codes "type") (text (codes "pair")) (
            field (codes "invitation") (text (codes "kepos1:"))
              (field (codes "seed") (text seed) last))))

abbrev parse : List ℕ → Option Json
parse (n ∷ []) = message n
parse _ = none

abbrev public_key : Text → Text
public_key s = repeat 64 b'd'

abbrev number_of : Text → Option ℕ
number_of s = some (number s)

abbrev toml : Text → Parsed Json
toml s = ok (toml_json config)

abbrev stringify : Json → Text
stringify value = codes "file"

abbrev run_of : List Event → Bridge
run_of es = run parse public_key number_of toml stringify new_bridge es

abbrev packet : List ℕ
packet = repeat 20 0

abbrev whole : List Event
whole =
    frame ipc_control (1 ∷ [])
    ∷ wrote true
    ∷ frame ipc_control (2 ∷ [])
    ∷ receiving
    ∷ engine_up
    ∷ announced true
    ∷ frame ipc_packet packet
    ∷ handed true
    ∷ frame ipc_control (3 ∷ [])
    ∷ halt_ended true
    ∷ wrote true
    ∷ ended
    ∷ []

-- Stopped before the engine is there.
abbrev early : List Event
early =
    frame ipc_control (1 ∷ [])
    ∷ wrote true
    ∷ frame ipc_control (2 ∷ [])
    ∷ frame ipc_control (3 ∷ [])
    ∷ engine_up
    ∷ halt_ended true
    ∷ []

computing : Unit {0}
unfolding run loop parse_kepos_config lookup keys_are is_text is_key
computing = tt

whole_log :
    (run_of whole).log
    ≡ destroyed
      ∷ sent stopped_message
      ∷ halted
      ∷ delivered packet
      ∷ sent running_message
      ∷ launched (some config) (some seed)
      ∷ sent (
          settings_message
            (public_key seed)
            (codes "10.7.0.1")
            (record { public_key = key; label = codes "phone"; address = codes "10.7.0.2" } ∷ []))
      ∷ []
unfolding computing
whole_log = refl

early_log :
    (run_of early).log
    ≡ sent stopped_message
      ∷ halted
      ∷ launched (some config) (some seed)
      ∷ sent (
          settings_message
            (public_key seed)
            (codes "10.7.0.1")
            (record { public_key = key; label = codes "phone"; address = codes "10.7.0.2" } ∷ []))
      ∷ []
unfolding computing
early_log = refl

pairing_log :
    (run_of
      (frame ipc_control (4 ∷ []) ∷ pair_ended (failure unusable) ∷ wrote true ∷ ended ∷ [])).log
    ≡ destroyed ∷ sent (pair_error unusable) ∷ pair_called (codes "kepos1:") seed ∷ []
unfolding computing
pairing_log = refl

run_one_engine_example :
    (launches (run_of whole).log ≤ 1)
    × ((halts (run_of whole).log ≤ launches (run_of whole).log)
        × ((blind_launches (run_of whole).log ≡ 0) × (odd_packets (run_of whole).log ≡ 0)))
run_one_engine_example = run_one_engine parse public_key number_of toml stringify whole

shutdown_complete_example :
    (is_pending (run_of early).startup ≡ false)
    × ((halts (run_of early).log ≡ count (run_of early).runtime)
        × (((run_of early).key_pair ≡ none) × (is_stopped (run_of early).stage ≡ true)))
unfolding computing
shutdown_complete_example = shutdown_complete parse public_key number_of toml stringify early refl

settings_peers-members_example :
    settings_peers
      (public_key seed)
      config.peers
      (record { peer = key; address = codes "10.7.0.2"; allow_tcp = all_ports } ∷ [])
    ≡ entries_of (
        members
          (public_key seed)
          config.peers
          (record { peer = key; address = codes "10.7.0.2"; allow_tcp = all_ports } ∷ []))
settings_peers-members_example =
    settings_peers-members (public_key seed) config.peers
      (record { peer = key; address = codes "10.7.0.2"; allow_tcp = all_ports } ∷ [])
