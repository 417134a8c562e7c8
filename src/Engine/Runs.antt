-- ===== src/Engine/Runs.antt =====
-- Runs of the engine's handlers.
use kepos.Common.{true, [], ◌∷◌, ◌≡◌, refl, arith}
use kepos.Common.Text.{Text, codes}
use kepos.Common.Maps.{get, set, del}
use kepos.Engine.{Peer, Setup, Engine, accept, new_engine, firewall, on_connection, stop}
use kepos.Engine.Admission.{Bounded}
use kepos.Engine.Histories.{begin, after_firewall, after_connection, after_stop, Reachable-Bounded}
use kepos.Engine.Rate.{firewall_twice}

abbrev phone : Peer
phone = record { label = codes "phone"; key = codes "aa"; direction = accept }

abbrev setup : Setup
setup = record { peers = phone ∷ []; enrollment = true }

abbrev stranger : Text
stranger = codes "bb"

abbrev knocked : Engine
knocked = (firewall setup new_engine stranger 500).0

loop : Unit {0}
unfolding firewall on_connection stop get set del
loop = tt

enrolling_run : (on_connection setup knocked stranger 7).enrollment_streams ≡ 7 ∷ []
unfolding loop
enrolling_run = refl

unreserved_run : (on_connection setup new_engine stranger 7).destroyed ≡ 7 ∷ []
unfolding loop
unreserved_run = refl

session_run :
    (on_connection setup (firewall setup new_engine (codes "aa") 500).0 (codes "aa") 3).sessions
    ≡ (codes "aa", 3) ∷ []
unfolding loop
session_run = refl

Reachable-Bounded_example : Bounded setup (stop (on_connection setup knocked stranger 7))
Reachable-Bounded_example =
    Reachable-Bounded setup (stop (on_connection setup knocked stranger 7))
      (after_stop (after_connection stranger 7 (after_firewall stranger 500 begin)))

firewall_twice_example : (firewall setup knocked stranger 1400).1 ≡ true
unfolding loop
firewall_twice_example =
    firewall_twice setup new_engine knocked stranger 500 1400 refl (omega arith)
