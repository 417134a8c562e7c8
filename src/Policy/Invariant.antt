-- ===== src/Policy/Invariant.antt =====
-- The invariant of a policy object, kept by every call.
use kepos.Common.{
  ℕ, ◌≤◌, ◌≡◌, refl, inl, inr, Bool, true, Option, some, List, arith, leb, Bool-cases, length,
}
use kepos.Common.Text.{Text, text_eq, eq_of_text_eq, has_text}
use kepos.Policy.Table.{
  Direction, incoming, outgoing, Flow, Flows, find, put, delete, without, add_key,
}
use kepos.Policy.Table.Laws.{
  AllFlows, AllFlows-delete, find-put, find-delete, has_text-without, has_text-add_key,
  length-delete,
}
use kepos.Policy.Tcp.{tuple}
use kepos.Policy.Handshake.Steps.{IsOrdered}
use kepos.Policy.State.{Ports, Policy, grants, create, clear, remove, sweep}
use kepos.Policy.State.Sweep.{AllFlows-sweep, length-sweep, sweep_closed_lem}

-- Who may have begun a flow: the peer, at a port that is granted, or this side, if it may.
abbrev pub IsAllowed : Ports → Bool → Text → Direction → Type 0
IsAllowed ports allow key incoming =
    (port : ℕ) × (remote : ℕ) × (key ≡ tuple port remote) × (grants ports port ≡ true)
IsAllowed ports allow key outgoing = allow ≡ true

abbrev pub IsSound : Ports → Bool → Text → Flow → Type 0
IsSound ports allow key f = IsAllowed ports allow key f.initiator × IsOrdered f

-- The key of a closed flow.
abbrev pub IsClosed : Option Flow → Type 0
IsClosed o = (f : Flow) × (t : ℕ) × (o ≡ some f) × (f.closed_at ≡ some t)

abbrev pub ClosedIn : List Text → Flows → Type 0
ClosedIn closed flows = (k : Text) → has_text closed k ≡ true → IsClosed (find k flows)

remove-ClosedIn :
    (key : Text) (closed : List Text) (flows : Flows)
    → ClosedIn closed flows
    → ClosedIn (without key closed) (delete key flows)
remove-ClosedIn key closed flows h k e = elim (Bool-cases (text_eq key k)) [
  | inl same ↦ absurd (ground (arith, has_text-without key k closed))
  | inr other ↦
      rw (find-delete key k flows, other) (h k (ground (arith, has_text-without key k closed)))
]

-- A write of a flow: `closed` may gain its key if it is closed.
pub put-ClosedIn :
    (key : Text) (f : Flow) (closed : List Text) (flows : Flows)
    → ClosedIn closed flows
    → (has_text closed key ≡ true → (t : ℕ) × (f.closed_at ≡ some t))
    → ClosedIn closed (put key f flows)
put-ClosedIn key f closed flows h c k e = elim (Bool-cases (text_eq key k)) [
  | inl same ↦
      let is : key ≡ k = eq_of_text_eq key k same in
      let (t, at) = c (rw is e) in rw (find-put key k f flows, same) (f, t, refl, at)
  | inr other ↦ rw (find-put key k f flows, other) (h k e)
]

pub add-ClosedIn :
    (key : Text) (f : Flow) (t : ℕ) (closed : List Text) (flows : Flows)
    → ClosedIn closed flows
    → f.closed_at ≡ some t
    → ClosedIn (add_key key closed) (put key f flows)
add-ClosedIn key f t closed flows h c k e = elim (Bool-cases (text_eq key k)) [
  | inl same ↦ rw (find-put key k f flows, same) (f, t, refl, c)
  | inr other ↦
      rw (find-put key k f flows, other) (h k (ground (arith, has_text-add_key key k closed)))
]

-- The flows are sound, at most 4096, and `closed` names closed flows only.
pub record Inv (ports : Ports) (allow : Bool) (q : Policy) : Type 0 where
  pub same_ports : q.ports ≡ ports
  pub same_allow : q.allow_outbound ≡ allow
  pub sound : AllFlows (IsSound ports allow) q.flows
  pub closed : ClosedIn q.closed q.flows
  pub bounded : length q.flows ≤ 4096

pub create-Inv :
    (a b : Text) (ports : Ports) (allow : Bool) → Inv ports allow (create a b ports allow)
unfolding create
create-Inv a b ports allow = record {
  same_ports = refl;
  same_allow = refl;
  sound = tt;
  closed = λ k h. absurd (cc);
  bounded = omega arith;
}

module _ {ports : Ports} {allow : Bool} where
  pub clear-Inv : {q : Policy} → Inv ports allow q → Inv ports allow (clear q)
  unfolding clear
  clear-Inv v = record {
    same_ports = v.same_ports;
    same_allow = v.same_allow;
    sound = tt;
    closed = λ k h. absurd (cc);
    bounded = omega arith;
  }

  pub remove-Inv : {q : Policy} (key : Text) → Inv ports allow q → Inv ports allow (remove q key)
  unfolding remove
  remove-Inv {q} key v = record {
    same_ports = v.same_ports;
    same_allow = v.same_allow;
    sound = AllFlows-delete (IsSound ports allow) key q.flows v.sound;
    closed = remove-ClosedIn key q.closed q.flows v.closed;
    bounded = omega (arith, length-delete key q.flows, v.bounded);
  }

  pub sweep-Inv : {q : Policy} (now : ℕ) → Inv ports allow q → Inv ports allow (sweep q now)
  unfolding sweep
  sweep-Inv {q} now v = elim (Bool-cases (leb q.next_sweep now)) [
    | inr early ↦ rw early v
    | inl due ↦ rw due (record {
      same_ports = v.same_ports;
      same_allow = v.same_allow;
      sound = AllFlows-sweep (IsSound ports allow) now q.flows v.sound;
      closed = λ k h.
          let (was, stays) = sweep_closed_lem now q.flows q.closed k h in rw stays (v.closed k was);
      bounded = omega (arith, length-sweep now q.flows, v.bounded);
    })
  ]
