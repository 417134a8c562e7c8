-- ===== src/Policy/Authority.antt =====
-- Who gets a packet through: what `admit` has established when it lets an incoming packet pass.
use kepos.Common.{
  ℕ, ◌≡◌, ◌⊎◌, refl, sym, ◌∙◌, inl, inr, Bool, true, false, some, List, [], ◌∷◌, arith, ◌==◌,
  if◌then◌else◌, Bool-cases, Option-cases,
}
use kepos.Common.Text.{
  Text, text_eq, eq_of_text_eq, decimal, decimal-IsDigit, decimal-injective, split_unique,
}
use kepos.Packet.{Packet, ipv4}
use kepos.Packet.Wellformed.{IsWellformed, ipv4-IsWellformed}
use kepos.Policy.Table.{Direction, incoming, outgoing, Flow, find}
use kepos.Policy.Table.Laws.{AllFlows-find}
use kepos.Policy.Tcp.{Segment, tuple, segment}
use kepos.Policy.State.{Ports, Policy, grants, create, clear, remove, sweep, ungranted}
use kepos.Policy.{open_flow, reopens, track, icmp_key, admit_icmp, admit_tcp, dispatch, admit}
use kepos.Policy.Invariant.{IsAllowed, IsSound, Inv, create-Inv, clear-Inv, remove-Inv, sweep-Inv}
use kepos.Policy.Preservation.{admit-Inv}
use kepos.Policy.Upkeep.{IsKeyOf, segment-IsKeyOf}

-- The calls that the owner of a policy object makes.
pub data Call : Type 0 where
  admits : (bytes : List ℕ) (d : Direction) (now : ℕ) → Call
  clears : Call

abbrev pub run : Policy → List Call → Policy
run q [] = q
run q (admits bytes d now ∷ rest) = run (admit q bytes d now).policy rest
run q (clears ∷ rest) = run (clear q) rest

run_from-Inv :
    {ports : Ports} {allow : Bool} (q : Policy) (calls : List Call)
    → Inv ports allow q
    → Inv ports allow (run q calls)
run_from-Inv q [] v = v
run_from-Inv q (admits bytes d now ∷ rest) v =
    run_from-Inv (admit q bytes d now).policy rest (admit-Inv bytes d now v)
run_from-Inv q (clears ∷ rest) v = run_from-Inv (clear q) rest (clear-Inv v)

-- After any history of calls on a new policy object: there are at most 4096 flows; each was begun
-- by the peer at a granted port, or by this side if that is allowed; a flow that was answered has
-- the sequence number of the answer, only an answered flow is established and only an established
-- one is closed; and the set `closed` names closed flows of the table only.
pub run-Inv :
    (local peer : Text) (ports : Ports) (allow : Bool) (calls : List Call)
    → Inv ports allow (run (create local peer ports allow) calls)
run-Inv local peer ports allow calls =
    run_from-Inv (create local peer ports allow) calls (create-Inv local peer ports allow)

-- The ports can be read off a key.
tuple-injective : (a b c d : ℕ) → tuple a b ≡ tuple c d → (a ≡ c) × (b ≡ d)
tuple-injective a b c d e =
    let (front, back) =
      split_unique b':' (decimal a) (decimal c) (decimal b) (decimal d) (λ h. omega arith)
        (decimal-IsDigit a) (decimal-IsDigit c) e in
    (decimal-injective a c front, decimal-injective b d back)

-- A segment is authorised if its port is granted, or if it belongs to a flow that this side began
-- and does not open a new one in its place.
abbrev pub IsAuthorised : Ports → Bool → Policy → Segment → Type 0
IsAuthorised ports allow q s =
    (grants ports s.destination_port ≡ true)
    ⊎ ((allow ≡ true)
        × ((f : Flow) × (find s.key q.flows ≡ some f)
            × (f.initiator ≡ outgoing)
            × (reopens f s ≡ false)))

-- What stands behind an incoming packet that passes: an authorised TCP segment, or an ICMP error
-- about a packet of a flow in the table.
abbrev pub Grounds : Ports → Bool → Policy → Packet → Type 0
Grounds ports allow q packet =
    ((packet.protocol ≡ 6)
      × ((s : Segment) × (segment packet incoming ≡ some s) × IsAuthorised ports allow q s))
    ⊎ ((packet.protocol ≡ 1)
        × ((key : Text) × (f : Flow) × (icmp_key q packet incoming ≡ some key)
            × (find key q.flows ≡ some f)))

admit_icmp-Grounds :
    (q : Policy) (packet : Packet) (now : ℕ)
    → (admit_icmp q packet incoming now).1 ≡ true
    → (key : Text) × (f : Flow) × (icmp_key q packet incoming ≡ some key)
      × (find key q.flows ≡ some f)
unfolding admit_icmp
admit_icmp-Grounds q packet now e = elim (Option-cases (icmp_key q packet incoming)) [
  | inl bad ↦ absurd (let e' = rw (bad, admit_icmp) at e in cc)
  | inr (key, is) ↦ elim (Option-cases (find key q.flows)) [
    | inr (f, found) ↦ (key, f, is, found)
    | inl absent ↦ absurd (let e' = rw (absent, admit_icmp) at (rw (is, admit_icmp) at e) in cc)
  ]
]

module _ {ports : Ports} {allow : Bool} where
  flow-IsAuthorised :
      (q : Policy) (s : Segment) (f : Flow)
      → Inv ports allow q
      → IsKeyOf s incoming
      → find s.key q.flows ≡ some f
      → reopens f s ≡ false
      → IsAuthorised ports allow q s
  flow-IsAuthorised q s f v k found old =
      by_initiator f.initiator refl
        (AllFlows-find (IsSound ports allow) s.key q.flows found v.sound).0
    where
      by_initiator :
          (d : Direction)
          → f.initiator ≡ d
          → IsAllowed ports allow s.key d
          → IsAuthorised ports allow q s
      by_initiator outgoing e h = inr (h, (f, found, e, old))
      by_initiator incoming e (port, remote, named, granted) =
          let same = (tuple-injective s.destination_port k.0 port remote (sym k.1 ∙ named)).0 in
          inl (rw same granted)

  open_flow-grants :
      (q : Policy) (s : Segment) (now : ℕ)
      → Inv ports allow q
      → (open_flow q s incoming now).1 ≡ true
      → grants ports s.destination_port ≡ true
  unfolding open_flow
  open_flow-grants q s now v e =
      let granted : grants q.ports s.destination_port ≡ true = ground arith in
      rw v.same_ports at granted

  track-IsAuthorised :
      (q : Policy) (s : Segment) (now : ℕ)
      → Inv ports allow q
      → IsKeyOf s incoming
      → (track q s incoming now).1 ≡ true
      → IsAuthorised ports allow q s
  unfolding track
  track-IsAuthorised q s now v k e = elim (Option-cases (find s.key q.flows)) [
    | inl absent ↦ inl (open_flow-grants q s now v (rw (absent, track) at e))
    | inr (f, found) ↦ elim (Bool-cases (reopens f s)) [
      | inr old ↦ flow-IsAuthorised q s f v k found old
      | inl fresh ↦ inl (
          open_flow-grants (remove q s.key) s now (remove-Inv s.key v)
            (reopened (ungranted q s incoming) (rw (fresh, track) at (rw (found, track) at e))))
    ]
  ]
    where
      reopened :
          (b : Bool)
          → (if b then (q, false) else open_flow (remove q s.key) s incoming now).1 ≡ true
          → (open_flow (remove q s.key) s incoming now).1 ≡ true
      reopened true e = absurd (cc)
      reopened false e = e

  admit_tcp-Grounds :
      (q : Policy) (packet : Packet) (now : ℕ)
      → Inv ports allow q
      → (admit_tcp q packet incoming now).1 ≡ true
      → (s : Segment) × (segment packet incoming ≡ some s) × IsAuthorised ports allow q s
  unfolding admit_tcp
  admit_tcp-Grounds q packet now v e = elim (Option-cases (segment packet incoming)) [
    | inl bad ↦ absurd (let e' = rw (bad, admit_tcp) at e in cc)
    | inr (s, is) ↦ (
      s,
      is,
      track-IsAuthorised q s now v (segment-IsKeyOf packet incoming s is) (rw (is, admit_tcp) at e),
    )
  ]

  dispatch-Grounds :
      (q : Policy) (packet : Packet) (now : ℕ)
      → Inv ports allow q
      → (dispatch q packet incoming now).1 ≡ true
      → Grounds ports allow q packet
  unfolding dispatch
  dispatch-Grounds q packet now v e = elim (Bool-cases (packet.protocol == 1)) [
    | inl icmp ↦ inr (ground arith, admit_icmp-Grounds q packet now (ground arith))
    | inr other ↦ elim (Bool-cases (packet.protocol == 6)) [
      | inl tcp ↦ inl (ground arith, admit_tcp-Grounds q packet now v (ground arith))
      | inr none' ↦ absurd (ground arith)
    ]
  ]

  -- Under the invariant, an incoming packet that passes is read as an IPv4 packet and is well-formed: of
  -- 20 to 1400 bytes, with a header of version 4 without options, the length of the whole packet, a time
  -- to live, no fragment and the right checksum. It is from the peer's address to the local one, and is TCP to a granted port, TCP of a flow that this side began, or an ICMP error about
  -- a flow of the table, as the sweep leaves it.
  pub admit-Grounds :
      (q : Policy) (bytes : List ℕ) (now : ℕ)
      → Inv ports allow q
      → (admit q bytes incoming now).admitted ≡ true
      → (packet : Packet) × (ipv4 bytes ≡ some packet)
        × IsWellformed bytes packet
        × (packet.source ≡ q.peer_address)
        × (packet.destination ≡ q.local_address)
        × Grounds ports allow (sweep q now) packet
  unfolding admit
  admit-Grounds q bytes now v e = elim (Option-cases (ipv4 bytes)) [
    | inl bad ↦ absurd (let e' = rw (bad, admit) at e in cc)
    | inr (packet, is) ↦ elim (Bool-cases (text_eq packet.source q.peer_address)) [
      | inr far ↦ absurd (let e' = rw (is, admit) at e in ground arith)
      | inl near ↦ elim (Bool-cases (text_eq packet.destination q.local_address)) [
        | inr lost ↦ absurd (let e' = rw (is, admit) at e in ground arith)
        | inl home ↦ (
          packet,
          is,
          ipv4-IsWellformed bytes packet is,
          eq_of_text_eq _ _ near,
          eq_of_text_eq _ _ home,
          dispatch-Grounds (sweep q now) packet now (sweep-Inv now v)
              (let e' = rw (is, admit) at e in ground arith),
        )
      ]
    ]
  ]
