-- ===== src/Policy/Upkeep.antt =====
-- The flows of a policy that satisfies its invariant: replaced, added, and taken out for room.
use kepos.Common.{
  ℕ, ◌<◌, ◌≡◌, refl, sym, ◌∙◌, ap, inl, inr, Bool, true, false, none, some, List, [], ◌∷◌, arith,
  leb, Bool-cases, unsome, length, drop,
}
use kepos.Common.Text.{Text, text_eq_refl}
use mathlib.Core.Path.{subst}
use kepos.Packet.{Packet, u16}
use kepos.Policy.Table.{Direction, incoming, outgoing, Flow, find, put}
use kepos.Policy.Table.Laws.{
  AllFlows-put, AllFlows-find, find-delete, length-put, length-put_found, length-delete_found,
}
use kepos.Policy.Tcp.{Segment, key_of, segment}
use kepos.Policy.Handshake.Steps.{IsOrdered}
use kepos.Policy.State.{Ports, Policy, grants, max_flows, remove, ungranted, forbidden}
use kepos.Policy.{evict, make_room, new_flow}
use kepos.Policy.Invariant.{IsSound, Inv, remove-Inv, put-ClosedIn}

-- The key of a segment is made of its ports, the local one first.
abbrev pub IsKeyOf : Segment → Direction → Type 0
IsKeyOf s d = (source : ℕ) × (s.key ≡ key_of d source s.destination_port)

pub segment-IsKeyOf :
    (packet : Packet) (d : Direction) (s : Segment) → segment packet d ≡ some s → IsKeyOf s d
unfolding segment
segment-IsKeyOf packet d s e = (u16 (drop packet.header packet.bytes) 0, ground arith)

pub seen-IsOrdered : (f : Flow) (now : ℕ) → IsOrdered f → IsOrdered (record f { last_seen = now })
seen-IsOrdered f now h = record { answered = h.answered; in_order = h.in_order; late = h.late }

pub find_removed : (q : Policy) (key : Text) → find key (remove q key).flows ≡ none
unfolding remove
find_removed q key = ground (arith, find-delete key key q.flows, text_eq_refl key)

module _ {ports : Ports} {allow : Bool} where
  -- A flow in the table is replaced by one that is as sound, and as closed.
  pub replace-Inv :
      {q : Policy} (key : Text) (f g : Flow)
      → Inv ports allow q
      → find key q.flows ≡ some f
      → g.initiator ≡ f.initiator
      → g.closed_at ≡ f.closed_at
      → IsOrdered g
      → Inv ports allow (record q { flows = put key g q.flows })
  replace-Inv {q} key f g v found i c o = record {
    same_ports = v.same_ports;
    same_allow = v.same_allow;
    sound =
        AllFlows-put (IsSound ports allow) key g q.flows
          (rw i (AllFlows-find (IsSound ports allow) key q.flows found v.sound).0, o) v.sound;
    closed = put-ClosedIn key g q.closed q.flows v.closed λ h.
        let (f', t, found', at) = v.closed key h in
        let same : f' ≡ f = cc in (t, c ∙ ap (λ x. x.closed_at) (sym same) ∙ at);
    bounded = rw (length-put_found key g q.flows f found) v.bounded;
  }

  -- A flow that is new under its key.
  pub insert-Inv :
      {q : Policy} (key : Text) (g : Flow)
      → Inv ports allow q
      → find key q.flows ≡ none
      → length q.flows < 4096
      → IsSound ports allow key g
      → Inv ports allow (record q { flows = put key g q.flows })
  insert-Inv {q} key g v absent room h = record {
    same_ports = v.same_ports;
    same_allow = v.same_allow;
    sound = AllFlows-put (IsSound ports allow) key g q.flows h v.sound;
    closed =
        put-ClosedIn key g q.closed q.flows v.closed
          λ b. let (f', t, found', at) = v.closed key b in absurd (cc);
    bounded = omega (arith, length-put key g q.flows);
  }

  -- Making room leaves less than 4096 flows, and removes none but a closed one.
  evict-Inv :
      {q q' : Policy} (key : Text) (closed : List Text)
      → Inv ports allow q
      → q.closed ≡ closed
      → find key q.flows ≡ none
      → evict q closed ≡ some q'
      → Inv ports allow q' × (find key q'.flows ≡ none) × (length q'.flows < 4096)
  unfolding evict remove
  evict-Inv key [] v c absent e = absurd (cc)
  evict-Inv {q} {q'} key (oldest ∷ rest) v c absent e =
      let (f, t, found, at) = v.closed oldest (rw c (ground (arith, text_eq_refl oldest))) in
      subst (λ x. Inv ports allow x × (find key x.flows ≡ none) × (length x.flows < 4096))
        (unsome e)
        (
          remove-Inv oldest v,
          ground (arith, find-delete oldest key q.flows),
          omega (arith, length-delete_found oldest q.flows f found, v.bounded),
        )

  pub make_room-Inv :
      {q q' : Policy} (key : Text)
      → Inv ports allow q
      → find key q.flows ≡ none
      → make_room q ≡ some q'
      → Inv ports allow q' × (find key q'.flows ≡ none) × (length q'.flows < 4096)
  unfolding make_room
  make_room-Inv {q} {q'} key v absent e = elim (Bool-cases (leb max_flows (length q.flows))) [
    | inr space ↦
        subst (λ x. Inv ports allow x × (find key x.flows ≡ none) × (length x.flows < 4096))
          (unsome (rw space at e)) (v, absent, ground arith)
    | inl full ↦ evict-Inv key q.closed v refl absent (rw full at e)
  ]

  pub new_flow-IsSound :
      (q : Policy) (s : Segment) (d : Direction) (now : ℕ)
      → Inv ports allow q
      → IsKeyOf s d
      → (forbidden q d ≡ false) × (ungranted q s d ≡ false)
      → IsSound ports allow s.key (new_flow s d now)
  new_flow-IsSound q s incoming now v k h = (
    (
      s.destination_port,
      k.0,
      k.1,
      let granted : grants q.ports s.destination_port ≡ true = ground arith in
          rw v.same_ports at granted,
    ),
    record { answered = λ r. absurd (cc); in_order = λ r. cc; late = λ r. refl },
  )
  new_flow-IsSound q s outgoing now v k h = (
    let may : q.allow_outbound ≡ true = ground arith in sym v.same_allow ∙ may,
    record { answered = λ r. absurd (cc); in_order = λ r. cc; late = λ r. refl },
  )
