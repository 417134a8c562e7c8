-- ===== src/Acceptance.antt =====
-- src/vpn/acceptance-diagnostics.ts: the few events that an acceptance build reports to its sink. The
-- sink is outside the module, and an error of it is dropped; `reported` lists the calls of it.
pub mod Budget
mod Runs
use kepos.Common.{
  ℕ, ◌+◌, Bool, true, false, not, ◌&&◌, ◌||◌, List, [], ◌∷◌, ◌++◌, leb, ◌==◌, if◌then◌else◌,
}

pub data Event : Type 0 where
  admission_unknown admission_accepted source_mismatch : Event
  policy_rejected policy_admitted packet_busy : Event

abbrev pub code : Event → ℕ
code admission_unknown = 0
code admission_accepted = 1
code source_mismatch = 2
code policy_rejected = 3
code policy_admitted = 4
code packet_busy = 5

abbrev pub same : Event → Event → Bool
same d e = code d == code e

-- The module's variables. `enabled` is fixed by the build, and `sink` says whether there is one.
pub record Acceptance : Type 0 where
  pub enabled : Bool
  pub sink : Bool
  pub emitted : Event → ℕ
  pub mismatch_seen : Bool
  pub reported : List Event

unfoldable pub set_sink : Bool → Acceptance → Acceptance
set_sink next q =
    if not q.enabled
    then q
    else record q { sink = next; emitted = λ _. 0; mismatch_seen = false; reported = [] }

abbrev pub count_up : (Event → ℕ) → Event → Event → ℕ
count_up emitted event e = if same e event then emitted event + 1 else emitted e

-- The call of the sink, within the budget of the event.
unfoldable pub emit : Event → Acceptance → Acceptance
emit event q =
    if leb 3 (q.emitted event)
    then q
    else record q { emitted = count_up q.emitted event; reported = q.reported ++ event ∷ [] }

unfoldable pub acceptance_event : Event → Acceptance → Acceptance
unfolding emit
acceptance_event event q =
    if not q.enabled || not q.sink
    then q
    else (let seen = q.mismatch_seen || same event source_mismatch in
        if same event policy_admitted && not seen
        then record q { mismatch_seen = seen }
        else emit event (record q { mismatch_seen = seen }))

unfoldable pub events : List Event → Acceptance → Acceptance
unfolding acceptance_event
events [] q = q
events (e ∷ es) q = events es (acceptance_event e q)
