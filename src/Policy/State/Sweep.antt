-- ===== src/Policy/State/Sweep.antt =====
-- What the sweep keeps: exactly the flows that are not over.
use kepos.Common.{
  ◌+◌, not, none, ◌∷◌, leb, if_cases, ℕ, ◌≤◌, ◌≡◌, refl, inl, inr, true, false, List, [], arith,
  Bool-cases, length,
}
use kepos.Common.Text.{Text, has_text}
use kepos.Policy.Tcp.{Segment}
use kepos.Policy.Table.{Direction, incoming, outgoing, Flow, Flows, find, stale, without}
use kepos.Policy.Table.Laws.{AllFlows, has_text-without}
use kepos.Policy.State.{Policy, sweep, source_of, ungranted, forbidden, sweep_flows, sweep_closed}

pub AllFlows-sweep :
    (P : Text → Flow → Type 0) (now : ℕ) (m : Flows) → AllFlows P m → AllFlows P (sweep_flows now m)
unfolding sweep_flows
AllFlows-sweep P now [] h = tt
AllFlows-sweep P now ((k, f) ∷ m) h = elim (Bool-cases (stale now f)) [
  | inl over ↦ rw over (AllFlows-sweep P now m h.1)
  | inr alive ↦ rw alive (h.0, AllFlows-sweep P now m h.1)
]

pub length-sweep : (now : ℕ) (m : Flows) → length (sweep_flows now m) ≤ length m
unfolding sweep_flows
length-sweep now [] = omega arith
length-sweep now ((k, f) ∷ m) = ground (arith, length-sweep now m)

-- No flow that is over is left.
pub sweep-alive : (now : ℕ) (m : Flows) → AllFlows (λ k f. stale now f ≡ false) (sweep_flows now m)
unfolding sweep_flows
sweep-alive now [] = tt
sweep-alive now ((k, f) ∷ m) = elim (Bool-cases (stale now f)) [
  | inl over ↦ rw over (sweep-alive now m)
  | inr alive ↦ rw alive (alive, sweep-alive now m)
]

-- A key that the sweep leaves in the set was there, and its flow stays.
pub sweep_closed_lem :
    (now : ℕ) (m : Flows) (c : List Text) (k : Text)
    → has_text (sweep_closed now m c) k ≡ true
    → (has_text c k ≡ true) × (find k (sweep_flows now m) ≡ find k m)
unfolding sweep_closed sweep_flows find
sweep_closed_lem now [] c k h = (h, refl)
sweep_closed_lem now ((i, f) ∷ m) c k h = elim (Bool-cases (stale now f)) [
  | inl over ↦
      let ih = sweep_closed_lem now m (without i c) k (rw over at h) in
      rw over (ground (arith, ih, has_text-without i k c))
  | inr alive ↦ let ih = sweep_closed_lem now m c k (rw alive at h) in rw alive (ground (arith, ih))
]

-- The sweep that comes first in `admit` changes no address and no grant, and brings no flow back.
module _ (q : Policy) (now : ℕ) where
  pub sweep-source : (d : Direction) → source_of (sweep q now) d ≡ source_of q d
  unfolding sweep
  sweep-source incoming =
      if_cases (λ (p : Policy). p.peer_address ≡ q.peer_address) (leb q.next_sweep now) _ _
        (λ _. refl) (λ _. refl)
  sweep-source outgoing =
      if_cases (λ (p : Policy). p.local_address ≡ q.local_address) (leb q.next_sweep now) _ _
        (λ _. refl) (λ _. refl)

  pub sweep-ungranted :
      (s : Segment) (d : Direction) → ungranted (sweep q now) s d ≡ ungranted q s d
  unfolding sweep
  sweep-ungranted s d =
      if_cases (λ (p : Policy). ungranted p s d ≡ ungranted q s d) (leb q.next_sweep now) _ _
        (λ _. same d) (λ _. refl)
    where
      same :
          (d : Direction)
          → ungranted
              (record q {
                flows = sweep_flows now q.flows;
                closed = sweep_closed now q.flows q.closed;
                next_sweep = now + 1000;
              })
              s
              d
            ≡ ungranted q s d
      same incoming = refl
      same outgoing = refl

  pub sweep-forbidden : (d : Direction) → forbidden (sweep q now) d ≡ forbidden q d
  unfolding sweep
  sweep-forbidden incoming = refl
  sweep-forbidden outgoing =
      if_cases (λ (p : Policy). not p.allow_outbound ≡ not q.allow_outbound) (leb q.next_sweep now)
        _ _ (λ _. refl) (λ _. refl)

  pub sweep-room : length (sweep q now).flows ≤ length q.flows
  unfolding sweep
  sweep-room =
      if_cases (λ (p : Policy). length p.flows ≤ length q.flows) (leb q.next_sweep now) _ _
        (λ _. length-sweep now q.flows) (λ _. omega arith)

absent_flow :
    (key : Text) (now : ℕ) (m : Flows) → find key m ≡ none → find key (sweep_flows now m) ≡ none
unfolding sweep_flows find
absent_flow key now [] h = refl
absent_flow key now ((k, f) ∷ m) h = ground (arith, absent_flow key now m)

pub sweep-absent :
    (q : Policy) (now : ℕ) (key : Text)
    → find key q.flows ≡ none
    → find key (sweep q now).flows ≡ none
unfolding sweep
sweep-absent q now key h =
    if_cases (λ (p : Policy). find key p.flows ≡ none) (leb q.next_sweep now) _ _
      (λ _. absent_flow key now q.flows h) (λ _. h)
