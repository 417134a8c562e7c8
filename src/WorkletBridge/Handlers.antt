-- ===== src/WorkletBridge/Handlers.antt =====
-- What each handler of a bridge keeps.
use kepos.Common.{
  ℕ, ◌≡◌, refl, ap, Bool, true, false, not, ◌&&◌, ◌||◌, Option, none, some, List, ◌∷◌, ltb,
  if_cases, length, arith,
}
use kepos.Common.Json.{Json}
use kepos.Common.Text.{Text}
use kepos.PacketFraming.{vpn_mtu}
use kepos.Config.{PeerConfig, PeerVpnConfig}
use kepos.Config.Values.{Parsed, ok, error}
use kepos.Config.Toml.{parse_kepos_config}
use kepos.Pair.{Outcome, failure, paired}
use kepos.WorkletBridge.State.{
  Stage, initial, settings, starting, running, stopped, Startup, launching, announcing, Main,
  listening, writing, reporting, delivering, stop_requested, reporting_error, Shutdown, unstopped,
  awaiting_startup, awaiting_stop, done, failed, Entry, Message, delivered, Bridge, destroy,
  complete, is_begun, is_pending, begin_once, throw, settle_startup,
}
use kepos.WorkletBridge.{
  is_started, begin_pairing, report, on_paired, ready, stop, on_packet, send_settings, configure,
  load, begin_settings, after_write, come_up, on_startup, on_halt, on_device, from_device, Event,
  engine_up, engine_down, engine_failed, announced, receiving, device_close, peer_changed,
  status_failed, outgoing,
}
use kepos.WorkletBridge.Messages.{is_initial, is_settings, is_running, is_stopped, paired_values}
use kepos.WorkletBridge.Lifecycle.{
  is_some, is_done, is_ended, is_past, Tidy, moved, begin_once-Tidy, close-Tidy, throw-Tidy,
  resume-Tidy, resume_stop-Tidy, settle_startup-Tidy,
}

-- A shutdown that has not begun is not past its waiting.
not_begun : (s : Shutdown) → is_begun s ≡ false → (is_past s ≡ false) × (is_done s ≡ false)
not_begun unstopped e = (refl, refl)
not_begun awaiting_startup e = absurd (cc)
not_begun awaiting_stop e = absurd (cc)
not_begun done e = absurd (cc)
not_begun failed e = absurd (cc)

settings_only : (s : Stage) → is_settings s ≡ true → is_stopped s ≡ false
settings_only initial e = absurd (cc)
settings_only settings e = refl
settings_only starting e = absurd (cc)
settings_only running e = absurd (cc)
settings_only stopped e = absurd (cc)

initial_only : (s : Stage) → is_initial s ≡ true → (is_settings s ≡ false) × (is_stopped s ≡ false)
initial_only initial e = (refl, refl)
initial_only settings e = absurd (cc)
initial_only starting e = absurd (cc)
initial_only running e = absurd (cc)
initial_only stopped e = absurd (cc)

unstopped_yet : (q : Bridge) → is_stopped q.stage ≡ false → Tidy q → is_begun q.shutdown ≡ false
unstopped_yet q e h = ground arith

pub ready-Tidy : (q : Bridge) → is_settings q.stage ≡ true → Tidy q → Tidy (ready q)
unfolding ready
ready-Tidy q s h =
    let calm = settings_only q.stage s in
    let begun = unstopped_yet q calm h in
    let (past, undone) = not_begun q.shutdown begun in ground arith

pub stop-Tidy : (q : Bridge) → Tidy q → Tidy (stop q)
unfolding stop
stop-Tidy q h =
    let s : Bridge = record q { main = stop_requested } in
    resume_stop-Tidy (begin_once s) (begin_once-Tidy s refl (moved q stop_requested refl h))

pub on_packet-Tidy : (q : Bridge) (payload : List ℕ) → Tidy q → Tidy (on_packet q payload)
unfolding on_packet
on_packet-Tidy q payload h =
    if_cases Tidy
      (not (is_running q.stage)
        || not q.deliver
        || ltb (length payload) 20
        || ltb vpn_mtu (length payload))
      (throw q) (record q { main = delivering; log = delivered payload ∷ q.log })
      (λ bad. throw-Tidy q h) (λ good. ground arith)

pub begin_pairing-Tidy :
    (q : Bridge) (o : Option (Text × Text))
    → is_initial q.stage ≡ true
    → Tidy q
    → Tidy (begin_pairing q o)
begin_pairing-Tidy q none s h = throw-Tidy q h
begin_pairing-Tidy q (some (invitation, seed)) s h =
    let (others, calm) = initial_only q.stage s in
    let begun = unstopped_yet q calm h in
    let (past, undone) = not_begun q.shutdown begun in ground arith

report-Tidy : (q : Bridge) (o : Option Message) → Tidy q → Tidy (report q o)
report-Tidy q none h = moved q writing refl h
report-Tidy q (some m) h = moved q reporting refl h

pub on_paired-Tidy : (q : Bridge) (o : Outcome) → Tidy q → Tidy (on_paired q o)
unfolding on_paired
on_paired-Tidy q (failure f) h = moved q writing refl h
on_paired-Tidy q (paired c) h = report-Tidy q (paired_values c) h

come_up-Tidy : (q : Bridge) → q.startup ≡ launching → Tidy q → Tidy (come_up q)
unfolding come_up
come_up-Tidy q e h =
    let up = ap is_started e in
    let pending = ap is_pending e in
    let past : is_past q.shutdown ≡ false = ground arith in
    let s : Bridge = record q { runtime = true } in
    if_cases Tidy q.stopping (settle_startup s) _ (λ stops. settle_startup-Tidy s up (ground arith))
      (λ goes. ground arith)

pub on_startup-Tidy :
    (s : Startup) (e : Event) (q : Bridge) → q.startup ≡ s → Tidy q → Tidy (on_startup s e q)
on_startup-Tidy launching engine_up q p h = come_up-Tidy q p h
on_startup-Tidy launching engine_down q p h = settle_startup-Tidy (destroy q) (ap is_started p) h
on_startup-Tidy announcing (announced true) q p h =
    settle_startup-Tidy (record q { watching = true }) (ap is_started p) h
on_startup-Tidy announcing (announced false) q p h =
    settle_startup-Tidy (destroy q) (ap is_started p) h
on_startup-Tidy _ _ q p h = h

pub on_halt-Tidy :
    (s : Shutdown) (b : Bool) (q : Bridge) → q.shutdown ≡ s → Tidy q → Tidy (on_halt s b q)
on_halt-Tidy awaiting_stop true q e h =
    let past = ap is_past e in
    let begun = ap is_begun e in let ends = ap is_ended e in resume-Tidy (complete q) (ground arith)
on_halt-Tidy awaiting_stop false q e h =
    let past = ap is_past e in
    let begun = ap is_begun e in
    let ends = ap is_ended e in resume-Tidy (record q { shutdown = failed }) (ground arith)
on_halt-Tidy _ b q e h = h

pub after_write-Tidy : (m : Main) (b : Bool) (q : Bridge) → Tidy q → Tidy (after_write m b q)
after_write-Tidy writing true q h = moved q listening refl h
after_write-Tidy writing false q h = throw-Tidy q h
after_write-Tidy reporting true q h = moved q listening refl h
after_write-Tidy reporting false q h = moved q writing refl h
after_write-Tidy reporting_error b q h = close-Tidy q h
after_write-Tidy _ b q h = h

pub from_device-Tidy : (e : Event) (q : Bridge) → Tidy q → Tidy (from_device e q)
from_device-Tidy e q h =
    if_cases Tidy (is_started q.startup) (on_device e q) q (λ s. device e) (λ s. h)
  where
    device : (e : Event) → Tidy (on_device e q)
    device receiving = h
    device device_close = h
    device (peer_changed key label connected) = h
    device status_failed = h
    device (outgoing packet) = h
    device engine_failed =
        if_cases Tidy (q.watching && not q.stopping) (destroy q) q (λ t. h) (λ t. h)
    device _ = h

module _ (parse : List ℕ → Option Json) (public_key : Text → Text) (number_of : Text → Option ℕ)
    (toml : Text → Parsed Json) (stringify : Json → Text) where
  send_settings-Tidy :
      (q : Bridge) (key address : Text) (o : Option (List Entry))
      → is_initial q.stage ≡ true
      → (is_some q.config && is_some q.key_pair) ≡ true
      → Tidy q
      → Tidy (send_settings parse public_key number_of toml stringify q key address o)
  send_settings-Tidy q key address none s k h = throw-Tidy q h
  send_settings-Tidy q key address (some peers) s k h =
      let (others, calm) = initial_only q.stage s in ground arith

  configure-Tidy :
      (q : Bridge) (seed : Text) (c : PeerConfig) (v : Option PeerVpnConfig)
      → is_initial q.stage ≡ true
      → is_some q.config ≡ true
      → Tidy q
      → Tidy (configure parse public_key number_of toml stringify q seed c v)
  configure-Tidy q seed c none s k h = throw-Tidy q h
  configure-Tidy q seed c (some vpn) s k h =
      let (others, calm) = initial_only q.stage s in
      let begun = unstopped_yet q calm h in
      let (past, undone) = not_begun q.shutdown begun in
      send_settings-Tidy (record q { key_pair = some seed }) _ _ _ s (ground arith) (ground arith)

  load-Tidy :
      (q : Bridge) (seed : Text) (r : Parsed PeerConfig)
      → is_initial q.stage ≡ true
      → Tidy q
      → Tidy (load parse public_key number_of toml stringify q seed r)
  load-Tidy q seed (error message) s h = throw-Tidy q h
  load-Tidy q seed (ok c) s h =
      let (others, calm) = initial_only q.stage s in
      configure-Tidy (record q { config = some c }) seed c c.vpn s refl (ground arith)

  pub begin_settings-Tidy :
      (q : Bridge) (o : Option (Text × Text))
      → is_initial q.stage ≡ true
      → Tidy q
      → Tidy (begin_settings parse public_key number_of toml stringify q o)
  begin_settings-Tidy q none s h = throw-Tidy q h
  begin_settings-Tidy q (some (source, seed)) s h =
      load-Tidy q seed (parse_kepos_config number_of toml stringify source) s h
