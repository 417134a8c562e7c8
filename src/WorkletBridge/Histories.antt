-- ===== src/WorkletBridge/Histories.antt =====
-- A bridge through any events: its engine, its device and its messages.
use kepos.Common.{
  ℕ, ◌≡◌, ◌≤◌, refl, ap, true, false, not, ◌&&◌, Option, none, some, List, [], ◌∷◌, ◌==◌, if_cases,
  length, arith, both,
}
use kepos.Common.Json.{Json, Fields, object, lookup, field_names, is_text}
use kepos.Common.Text.{Text, codes}
use kepos.WorkletFraming.{ipc_control}
use kepos.Config.Values.{Parsed}
use kepos.WorkletBridge.State.{
  Main, listening, pairing, delivering, done, Bridge, new_bridge, is_pending, is_begun,
}
use kepos.WorkletBridge.{
  control_object, control_json, on_frame, on_main, on_engine, Event, frame, ended, broken,
  stream_lost, wrote, handed, pair_ended, engine_up, engine_down, engine_failed, announced,
  receiving, device_close, peer_changed, status_failed, outgoing, halt_ended, step, run,
}
use kepos.WorkletBridge.Messages.{is_initial, is_settings, is_stopped}
use kepos.WorkletBridge.Lifecycle.{
  is_some, count, launches, blind_launches, odd_packets, halts, is_done, is_past, Tidy, moved,
  close-Tidy, throw-Tidy,
}
use kepos.WorkletBridge.Handlers.{
  ready-Tidy, stop-Tidy, on_packet-Tidy, begin_pairing-Tidy, on_paired-Tidy, on_startup-Tidy,
  on_halt-Tidy, after_write-Tidy, from_device-Tidy, begin_settings-Tidy,
}

module _ (parse : List ℕ → Option Json) (public_key : Text → Text) (number_of : Text → Option ℕ)
    (toml : Text → Parsed Json) (stringify : Json → Text) where
  control_object-Tidy :
      (q : Bridge) (value : Fields)
      → Tidy q
      → Tidy (control_object parse public_key number_of toml stringify q value)
  unfolding control_object
  control_object-Tidy q value h =
      let type = lookup value (codes "type") in
      let alone = length (field_names value) == 1 in
      if_cases Tidy (is_text type (codes "pair") && is_initial q.stage) _ _
        (λ e. begin_pairing-Tidy q _ (both _ _ e).1 h)
        (λ e.
          if_cases Tidy (is_text type (codes "start") && is_initial q.stage) _ _
            (λ e.
              begin_settings-Tidy parse public_key number_of toml stringify q _ (both _ _ e).1 h)
            (λ e.
              if_cases Tidy (is_text type (codes "ready") && alone && is_settings q.stage) _ _
                (λ e. ready-Tidy q (both _ _ e).1 h)
                (λ e.
                  if_cases Tidy (is_text type (codes "stop") && alone && not (is_stopped q.stage)) _
                    _ (λ e. stop-Tidy q h) (λ e. throw-Tidy q h))))

  control_json-Tidy :
      (q : Bridge) (o : Option Json)
      → Tidy q
      → Tidy (control_json parse public_key number_of toml stringify q o)
  control_json-Tidy q (some (object value)) h = control_object-Tidy q value h
  control_json-Tidy q _ h = throw-Tidy q h

  on_frame-Tidy :
      (q : Bridge) (kind : ℕ) (payload : List ℕ)
      → Tidy q
      → Tidy (on_frame parse public_key number_of toml stringify q kind payload)
  unfolding on_frame
  on_frame-Tidy q kind payload h =
      if_cases Tidy (kind == ipc_control) _ _ (λ e. control_json-Tidy q (parse payload) h)
        (λ e. on_packet-Tidy q payload h)

  on_main-Tidy :
      (m : Main) (e : Event) (q : Bridge)
      → Tidy q
      → Tidy (on_main parse public_key number_of toml stringify m e q)
  on_main-Tidy listening (frame kind payload) q h = on_frame-Tidy q kind payload h
  on_main-Tidy listening ended q h = close-Tidy q h
  on_main-Tidy listening broken q h = throw-Tidy q h
  on_main-Tidy pairing (pair_ended o) q h = on_paired-Tidy q o h
  on_main-Tidy delivering (handed true) q h = moved q listening refl h
  on_main-Tidy delivering (handed false) q h = throw-Tidy q h
  on_main-Tidy m (wrote b) q h = after_write-Tidy m b q h
  on_main-Tidy _ _ q h = h

  on_engine-Tidy :
      (e : Event) (q : Bridge)
      → Tidy q
      → Tidy (on_engine parse public_key number_of toml stringify e q)
  on_engine-Tidy stream_lost q h = h
  on_engine-Tidy engine_up q h = on_startup-Tidy q.startup engine_up q refl h
  on_engine-Tidy engine_down q h = on_startup-Tidy q.startup engine_down q refl h
  on_engine-Tidy (announced b) q h = on_startup-Tidy q.startup (announced b) q refl h
  on_engine-Tidy (halt_ended b) q h = on_halt-Tidy q.shutdown b q refl h
  on_engine-Tidy receiving q h = from_device-Tidy receiving q h
  on_engine-Tidy device_close q h = from_device-Tidy device_close q h
  on_engine-Tidy (peer_changed key label connected) q h =
      from_device-Tidy (peer_changed key label connected) q h
  on_engine-Tidy status_failed q h = from_device-Tidy status_failed q h
  on_engine-Tidy (outgoing packet) q h = from_device-Tidy (outgoing packet) q h
  on_engine-Tidy engine_failed q h = from_device-Tidy engine_failed q h
  on_engine-Tidy e q h = on_main-Tidy q.main e q h

  run_from-Tidy :
      (q : Bridge) (es : List Event)
      → Tidy q
      → Tidy (run parse public_key number_of toml stringify q es)
  unfolding run step
  run_from-Tidy q [] h = h
  run_from-Tidy q (e ∷ es) h =
      run_from-Tidy (step parse public_key number_of toml stringify q e) es (on_engine-Tidy e q h)

  run-Tidy : (es : List Event) → Tidy (run parse public_key number_of toml stringify new_bridge es)
  run-Tidy es =
      run_from-Tidy new_bridge es
        (refl, (refl, (refl, (refl, (refl, (refl, (refl, (refl, (refl, (refl, (refl, refl)))))))))))

-- In any history of a bridge at most one engine is launched, with a configuration and a key, and it is
-- stopped at most once; and every packet that is handed to it has 20 to 1400 bytes.
pub run_one_engine :
    (parse : List ℕ → Option Json) (public_key : Text → Text) (number_of : Text → Option ℕ)
    (toml : Text → Parsed Json) (stringify : Json → Text) (es : List Event)
    → let q = run parse public_key number_of toml stringify new_bridge es in
      (launches q.log ≤ 1)
      × ((halts q.log ≤ launches q.log) × ((blind_launches q.log ≡ 0) × (odd_packets q.log ≡ 0)))
run_one_engine parse public_key number_of toml stringify es =
    bounds (run parse public_key number_of toml stringify new_bridge es)
      (run-Tidy parse public_key number_of toml stringify es)
  where
    bounds :
        (q : Bridge)
        → Tidy q
        → (launches q.log ≤ 1)
          × ((halts q.log ≤ launches q.log)
              × ((blind_launches q.log ≡ 0) × (odd_packets q.log ≡ 0)))
    bounds q h = ground arith

-- Once the shutdown of a bridge is done, after any history, no startup is under way, an engine that came
-- up has been stopped, once, and no key is kept.
pub shutdown_complete :
    (parse : List ℕ → Option Json) (public_key : Text → Text) (number_of : Text → Option ℕ)
    (toml : Text → Parsed Json) (stringify : Json → Text) (es : List Event)
    → (run parse public_key number_of toml stringify new_bridge es).shutdown ≡ done
    → let q = run parse public_key number_of toml stringify new_bridge es in
      (is_pending q.startup ≡ false)
      × ((halts q.log ≡ count q.runtime) × ((q.key_pair ≡ none) × (is_stopped q.stage ≡ true)))
shutdown_complete parse public_key number_of toml stringify es =
    final (run parse public_key number_of toml stringify new_bridge es)
      (run-Tidy parse public_key number_of toml stringify es)
  where
    empty : (o : Option Text) → is_some o ≡ false → o ≡ none
    empty none e = refl
    empty (some x) e = absurd (cc)

    final :
        (q : Bridge)
        → Tidy q
        → q.shutdown ≡ done
        → (is_pending q.startup ≡ false)
          × ((halts q.log ≡ count q.runtime) × ((q.key_pair ≡ none) × (is_stopped q.stage ≡ true)))
    final q h e =
        let past = ap is_past e in
        let completes = ap is_done e in
        let begun = ap is_begun e in
        let gone : is_some q.key_pair ≡ false = ground arith in
        (ground arith, (ground arith, (empty q.key_pair gone, ground arith)))
