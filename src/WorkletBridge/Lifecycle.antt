-- ===== src/WorkletBridge/Lifecycle.antt =====
-- The life of a bridge: what is launched, stopped and delivered in any order of events.
use kepos.Common.{
  ℕ, suc, ◌+◌, ◌≡◌, refl, ap, Bool, true, false, not, ◌&&◌, ◌||◌, Option, none, some, List, [], ◌∷◌,
  ltb, if◌then◌else◌, if_cases, length, arith,
}
use kepos.PacketFraming.{vpn_mtu}
use kepos.WorkletBridge.State.{
  stopped, settled, Main, listening, writing, pairing, reporting, delivering, stop_requested,
  reporting_error, finishing, over, Shutdown, unstopped, awaiting_startup, awaiting_stop, done,
  failed, Effect, launched, halted, delivered, Bridge, is_pending, is_begun, after_startup,
  begin_shutdown, begin_once, conclude, resume_end, close, throw, answer_stop, resume_stop,
  resume_from, resume, awaits_startup, settle_startup,
}
use kepos.WorkletBridge.{is_started}
use kepos.WorkletBridge.Messages.{is_initial, is_settings, is_stopped}

abbrev pub is_some : {A : Type 0} → Option A → Bool
is_some none = false
is_some (some x) = true

abbrev pub count : Bool → ℕ
count b = if b then 1 else 0

-- The engines launched, those launched without a configuration or a key, and the calls of their `stop`.
abbrev pub launches : List Effect → ℕ
launches [] = 0
launches (launched c k ∷ log) = suc (launches log)
launches (_ ∷ log) = launches log

abbrev pub blind_launches : List Effect → ℕ
blind_launches [] = 0
blind_launches (launched c k ∷ log) = count (not (is_some c && is_some k)) + blind_launches log
blind_launches (_ ∷ log) = blind_launches log

abbrev pub halts : List Effect → ℕ
halts [] = 0
halts (halted ∷ log) = suc (halts log)
halts (_ ∷ log) = halts log

abbrev pub odd_packets : List Effect → ℕ
odd_packets [] = 0
odd_packets (delivered p ∷ log) =
    count (ltb (length p) 20 || ltb vpn_mtu (length p)) + odd_packets log
odd_packets (_ ∷ log) = odd_packets log

abbrev pub is_done : Shutdown → Bool
is_done done = true
is_done _ = false

abbrev pub is_ended : Shutdown → Bool
is_ended done = true
is_ended failed = true
is_ended _ = false

abbrev pub is_past : Shutdown → Bool
is_past awaiting_stop = true
is_past s = is_ended s

abbrev pub is_over : Main → Bool
is_over over = true
is_over _ = false

-- What holds of a bridge at any time.
abbrev pub Tidy : Bridge → Type 0
Tidy q =
    (launches q.log ≡ count (is_started q.startup))
    × ((blind_launches q.log ≡ 0)
        × ((odd_packets q.log ≡ 0)
            × ((halts q.log ≡ count (q.runtime && is_past q.shutdown))
                × ((((is_initial q.stage || is_settings q.stage) && is_started q.startup) ≡ false)
                    × (((is_settings q.stage && not (is_some q.config && is_some q.key_pair))
                          ≡ false)
                        × (((is_past q.shutdown && is_pending q.startup) ≡ false)
                            × ((is_begun q.shutdown ≡ q.stopping)
                                × ((is_stopped q.stage ≡ q.stopping)
                                    × (((is_done q.shutdown && is_some q.key_pair) ≡ false)
                                        × (((q.runtime && not (is_started q.startup)) ≡ false)
                                            × ((is_over q.main && not (is_ended q.shutdown))
                                                ≡ false)))))))))))

pub after_startup-Tidy :
    (q : Bridge)
    → q.shutdown ≡ awaiting_startup
    → is_pending q.startup ≡ false
    → is_over q.main ≡ false
    → Tidy q
    → Tidy (after_startup q)
unfolding after_startup
after_startup-Tidy q e p m h =
    let past = ap is_past e in
    let begun = ap is_begun e in if_cases Tidy q.runtime _ _ (λ r. ground arith) (λ r. ground arith)

pub begin_shutdown-Tidy :
    (q : Bridge)
    → is_begun q.shutdown ≡ false
    → is_over q.main ≡ false
    → Tidy q
    → Tidy (begin_shutdown q)
unfolding begin_shutdown
begin_shutdown-Tidy q b m h =
    let s : Bridge = record q { stage = stopped; stopping = true; shutdown = awaiting_startup } in
    let waits : Tidy s = waiting (unbegun q.shutdown b) in
    if_cases Tidy (is_pending q.startup) s (after_startup s) (λ p. waits)
      (λ p. after_startup-Tidy s refl p m waits)
  where
    unbegun : (s : Shutdown) → is_begun s ≡ false → is_past s ≡ false
    unbegun unstopped b = refl
    unbegun awaiting_startup b = absurd (cc)
    unbegun awaiting_stop b = absurd (cc)
    unbegun done b = absurd (cc)
    unbegun failed b = absurd (cc)

    waiting :
        is_past q.shutdown ≡ false
        → Tidy (record q { stage = stopped; stopping = true; shutdown = awaiting_startup })
    waiting past = ground arith

pub begin_once-Tidy : (q : Bridge) → is_over q.main ≡ false → Tidy q → Tidy (begin_once q)
unfolding begin_once
begin_once-Tidy q m h =
    if_cases Tidy (is_begun q.shutdown) q (begin_shutdown q) (λ b. h)
      (λ b. begin_shutdown-Tidy q b m h)

conclude-Tidy : (s : Shutdown) (q : Bridge) → q.shutdown ≡ s → Tidy q → Tidy (conclude s q)
conclude-Tidy unstopped q e h = h
conclude-Tidy awaiting_startup q e h = h
conclude-Tidy awaiting_stop q e h = h
conclude-Tidy done q e h = let ends = ap is_ended e in ground arith
conclude-Tidy failed q e h = let ends = ap is_ended e in ground arith

-- The loop goes on elsewhere.
pub moved : (q : Bridge) (m : Main) → is_over m ≡ false → Tidy q → Tidy (record q { main = m })
moved q m e h = ground arith

resume_end-Tidy : (q : Bridge) → Tidy q → Tidy (resume_end q)
unfolding resume_end
resume_end-Tidy q h = conclude-Tidy q.shutdown q refl h

pub close-Tidy : (q : Bridge) → Tidy q → Tidy (close q)
unfolding close
close-Tidy q h =
    let s : Bridge = record q { main = finishing } in
    resume_end-Tidy (begin_once s) (begin_once-Tidy s refl (moved q finishing refl h))

pub throw-Tidy : (q : Bridge) → Tidy q → Tidy (throw q)
unfolding throw
throw-Tidy q h =
    if_cases Tidy q.lost (close q) _ (λ l. close-Tidy q h) (λ l. moved q reporting_error refl h)

answer_stop-Tidy : (s : Shutdown) (q : Bridge) → Tidy q → Tidy (answer_stop s q)
answer_stop-Tidy unstopped q h = h
answer_stop-Tidy awaiting_startup q h = h
answer_stop-Tidy awaiting_stop q h = h
answer_stop-Tidy done q h = moved q writing refl h
answer_stop-Tidy failed q h = throw-Tidy q h

pub resume_stop-Tidy : (q : Bridge) → Tidy q → Tidy (resume_stop q)
unfolding resume_stop
resume_stop-Tidy q h = answer_stop-Tidy q.shutdown q h

resume_from-Tidy : (m : Main) (q : Bridge) → Tidy q → Tidy (resume_from m q)
resume_from-Tidy stop_requested q h = resume_stop-Tidy q h
resume_from-Tidy finishing q h = resume_end-Tidy q h
resume_from-Tidy listening q h = h
resume_from-Tidy writing q h = h
resume_from-Tidy pairing q h = h
resume_from-Tidy reporting q h = h
resume_from-Tidy delivering q h = h
resume_from-Tidy reporting_error q h = h
resume_from-Tidy over q h = h

pub resume-Tidy : (q : Bridge) → Tidy q → Tidy (resume q)
unfolding resume
resume-Tidy q h = resume_from-Tidy q.main q h

waiting_shutdown : (s : Shutdown) → awaits_startup s ≡ true → s ≡ awaiting_startup
waiting_shutdown awaiting_startup e = refl
waiting_shutdown unstopped e = absurd (cc)
waiting_shutdown awaiting_stop e = absurd (cc)
waiting_shutdown done e = absurd (cc)
waiting_shutdown failed e = absurd (cc)

pub settle_startup-Tidy :
    (q : Bridge) → is_started q.startup ≡ true → Tidy q → Tidy (settle_startup q)
unfolding settle_startup
settle_startup-Tidy q up h =
    let s : Bridge = record q { startup = settled } in
    let k : Tidy s = quiet in
    if_cases Tidy (awaits_startup q.shutdown) (resume (after_startup s)) s
      (λ w.
        let e = waiting_shutdown q.shutdown w in
        resume-Tidy (after_startup s) (after_startup-Tidy s e refl (not_over (ap is_ended e)) k))
      (λ w. k)
  where
    quiet : Tidy (record q { startup = settled })
    quiet = ground arith

    not_over : is_ended q.shutdown ≡ false → is_over q.main ≡ false
    not_over e = ground arith
