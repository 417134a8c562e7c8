-- ===== src/Acceptance/Runs.antt =====
-- A run of the acceptance events.
use kepos.Common.{true, false, List, [], ◌∷◌, ◌≡◌, refl}
use kepos.Acceptance.{Event, source_mismatch, policy_admitted, Acceptance, set_sink, events}
use kepos.Acceptance.Budget.{count, happened, count-events}

abbrev fresh : Acceptance
fresh = record {
  enabled = true;
  sink = false;
  emitted = λ _. 0;
  mismatch_seen = false;
  reported = [];
}

abbrev some_events : List Event
some_events =
    policy_admitted ∷ source_mismatch ∷ policy_admitted ∷ policy_admitted ∷ policy_admitted
    ∷ policy_admitted ∷ []

count-events_example : count policy_admitted (events some_events (set_sink true fresh)).reported ≡ 3
unfolding happened
count-events_example = count-events fresh some_events policy_admitted refl
