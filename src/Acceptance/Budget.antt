-- ===== src/Acceptance/Budget.antt =====
-- How many of its events a sink sees.
use kepos.Common.{
  ℕ, ◌+◌, ◌≤◌, Bool, true, false, not, ◌&&◌, ◌||◌, List, [], ◌∷◌, ◌++◌, leb, ◌==◌, if◌then◌else◌,
  ◌≡◌, refl, sym, ap, ◌∙◌, arith, if_cases, if_false, Bool-cases, inl, inr,
}
use kepos.Acceptance.{
  Event, code, same, source_mismatch, policy_admitted, Acceptance, set_sink, emit, acceptance_event,
  events,
}

-- How often an event stands in a list.
unfoldable pub count : Event → List Event → ℕ
count e [] = 0
count e (x ∷ xs) = (if same e x then 1 else 0) + count e xs

-- How often an event happens, where admitted packets count only once a mismatch was seen.
unfoldable pub happened : Event → Bool → List Event → ℕ
happened e seen [] = 0
happened e seen (x ∷ xs) =
    let seen' = seen || same x source_mismatch in
    (if same e x && not (same x policy_admitted && not seen') then 1 else 0) + happened e seen' xs

abbrev pub at_most : ℕ → ℕ → ℕ
at_most bound n = if leb bound n then bound else n

count-append :
    (e x : Event) (xs : List Event)
    → count e (xs ++ x ∷ []) ≡ count e xs + (if same e x then 1 else 0)
unfolding count
count-append e x [] = ground arith
count-append e x (y ∷ ys) = let rest = count-append e x ys in ground arith

decode : ℕ → Event
decode n =
    if n == 0
    then Event.admission_unknown
    else if n == 1
    then Event.admission_accepted
    else if n == 2
    then source_mismatch
    else if n == 3
    then Event.policy_rejected
    else if n == 4
    then policy_admitted
    else Event.packet_busy

decode-code : (e : Event) → decode (code e) ≡ e
unfolding decode
decode-code Event.admission_unknown = refl
decode-code Event.admission_accepted = refl
decode-code source_mismatch = refl
decode-code Event.policy_rejected = refl
decode-code policy_admitted = refl
decode-code Event.packet_busy = refl

eq_of_same : (d e : Event) → same d e ≡ true → d ≡ e
eq_of_same d e h =
    let codes_equal : code d ≡ code e = ground arith in
    sym (decode-code d) ∙ (ap decode codes_equal ∙ decode-code e)

-- The map holds the number of calls of each event, at most three.
Counts : Acceptance → Type 0
Counts q = (d : Event) → (q.emitted d ≡ count d q.reported) × (q.emitted d ≤ 3)

-- What a step does to the number of calls of an event that it adds `n` of.
record Step (seen : Bool) (added : Event → ℕ) (q r : Acceptance) : Type 0 where
  on : (r.enabled ≡ true) × (r.sink ≡ true)
  counts : Counts r
  mismatch : r.mismatch_seen ≡ seen
  calls : (d : Event) → count d r.reported ≡ at_most 3 (count d q.reported + added d)

module _ (q : Acceptance) (enabled : q.enabled ≡ true) (sink : q.sink ≡ true)
    (counts : Counts q) where
  emit-Step : (x : Event) → Step q.mismatch_seen (λ d. if same d x then 1 else 0) q (emit x q)
  unfolding emit Counts
  emit-Step x =
      if_cases (λ r. Step q.mismatch_seen (λ d. if same d x then 1 else 0) q r)
        (leb 3 (q.emitted x)) _ _
        (λ full. record {
          on = (enabled, sink);
          counts = counts;
          mismatch = refl;
          calls = λ d.
              if_cases (λ n. count d q.reported ≡ at_most 3 (count d q.reported + n)) (same d x) 1 0
                (λ e.
                  let is = ap q.emitted (eq_of_same d x e) in
                  let (known, bound) = counts d in ground arith)
                (λ e. let (known, bound) = counts d in ground arith);
        })
        (λ room. record {
          on = (enabled, sink);
          counts = λ d.
              let (known, bound) = counts d in
              let longer = count-append d x q.reported in
              elim (Bool-cases (same d x)) [
                | inl e ↦ let is = ap q.emitted (eq_of_same d x e) in (ground arith, ground arith)
                | inr e ↦ (ground arith, ground arith)
              ];
          mismatch = refl;
          calls = λ d.
              let (known, bound) = counts d in
              let longer = count-append d x q.reported in
              elim (Bool-cases (same d x)) [
                | inl e ↦ let is = ap q.emitted (eq_of_same d x e) in ground arith
                | inr e ↦ ground arith
              ];
        })

added_by : Event → Bool → Event → ℕ
added_by x seen d = if same d x && not (same x policy_admitted && not seen) then 1 else 0

event-Step :
    (x : Event) (q : Acceptance)
    → q.enabled ≡ true
    → q.sink ≡ true
    → Counts q
    → Step
        (q.mismatch_seen || same x source_mismatch)
        (added_by x (q.mismatch_seen || same x source_mismatch))
        q
        (acceptance_event x q)
unfolding acceptance_event added_by Counts
event-Step x q enabled sink counts =
    let seen = q.mismatch_seen || same x source_mismatch in
    let marked : Acceptance = record q { mismatch_seen = seen } in
    if_cases (λ r. Step seen (added_by x seen) q r) (not q.enabled || not q.sink) _ _
      (λ off. absurd (cc))
      (λ on.
        if_cases (λ r. Step seen (added_by x seen) q r) (same x policy_admitted && not seen) _ _
          (λ held. record {
            on = (enabled, sink);
            counts = counts;
            mismatch = refl;
            calls = λ d. let (known, bound) = counts d in ground arith;
          })
          (λ passes.
            let step = emit-Step marked enabled sink counts x in
            record {
              on = step.on;
              counts = step.counts;
              mismatch = step.mismatch;
              calls = λ d. let it = step.calls d in ground arith;
            }))

count-events_from :
    (xs : List Event) (e : Event) (q : Acceptance)
    → q.enabled ≡ true
    → q.sink ≡ true
    → Counts q
    → count e (events xs q).reported
      ≡ at_most 3 (count e q.reported + happened e q.mismatch_seen xs)
unfolding events happened Counts added_by
count-events_from [] e q enabled sink counts = let (known, bound) = counts e in ground arith
count-events_from (x ∷ xs) e q enabled sink counts =
    let step = event-Step x q enabled sink counts in
    let later = count-events_from xs e (acceptance_event x q) step.on.0 step.on.1 step.counts in
    let seen = ap (λ b. happened e b xs) step.mismatch in let now = step.calls e in ground arith

-- In a build that has the diagnostics, the sink that is set sees each event as often as it happens, but
-- at most three times. An admitted packet counts only once a source mismatch was seen since.
pub count-events :
    (q : Acceptance) (xs : List Event) (e : Event)
    → q.enabled ≡ true
    → count e (events xs (set_sink true q)).reported ≡ at_most 3 (happened e false xs)
unfolding set_sink Counts count
count-events q xs e enabled =
    let started : Acceptance = record q {
      sink = true;
      emitted = λ _. 0;
      mismatch_seen = false;
      reported = [];
    } in
    let same_state : set_sink true q ≡ started = if_false (not q.enabled) q started (cc) in
    let it = count-events_from xs e started enabled refl (λ d. (refl, ground arith)) in
    rw (same_state) (ground arith)
