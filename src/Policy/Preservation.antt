-- ===== src/Policy/Preservation.antt =====
-- Every call on a policy object keeps its invariant.
use kepos.Common.{
  ℕ, ◌≡◌, refl, ◌∙◌, inl, inr, Bool, true, false, not, ◌||◌, none, some, List, arith, if◌then◌else◌,
  Bool-cases, Option-cases, if_cases, ◌==◌,
}
use kepos.Common.Text.{Text}
use kepos.Packet.{Packet, ipv4}
use kepos.Policy.Table.{Direction, Flow, find, put, add_key}
use kepos.Policy.Table.Laws.{AllFlows-put, AllFlows-find, length-put_found}
use kepos.Policy.Tcp.{Segment, segment}
use kepos.Policy.Handshake.{Advance, refuse, forget, touch, proceed, advance, account}
use kepos.Policy.Handshake.Steps.{
  IsOrdered, Keeps, advance-Progress, Progress-Keeps, Accounted, account-Accounted,
}
use kepos.Policy.State.{Ports, Policy, ungranted, forbidden}
use kepos.Policy.{
  make_room, new_flow, open_flow, keep_flow, follow, reopens, track, icmp_key, admit_icmp,
  admit_tcp, dispatch, admit, Verdict,
}
use kepos.Policy.Invariant.{
  IsSound, ClosedIn, Inv, remove-Inv, sweep-Inv, put-ClosedIn, add-ClosedIn,
}
use kepos.Policy.Upkeep.{
  IsKeyOf, segment-IsKeyOf, seen-IsOrdered, find_removed, replace-Inv, insert-Inv, make_room-Inv,
  new_flow-IsSound,
}

module _ {ports : Ports} {allow : Bool} where
  open_flow-Inv :
      {q : Policy} (s : Segment) (d : Direction) (now : ℕ)
      → Inv ports allow q
      → IsKeyOf s d
      → find s.key q.flows ≡ none
      → Inv ports allow (open_flow q s d now).0
  unfolding open_flow
  open_flow-Inv {q} s d now v k absent =
      elim (Bool-cases (not s.syn || s.ack || s.rst || forbidden q d || ungranted q s d)) [
        | inl stop ↦ rw stop v
        | inr go ↦ rw go (elim (Option-cases (make_room q)) [
          | inl full ↦ rw full v
          | inr (q', e) ↦
              let (v', absent', room) = make_room-Inv s.key v absent e in
              rw e (
                insert-Inv s.key (new_flow s d now) v' absent' room
                  (new_flow-IsSound q s d now v k (ground arith)))
        ])
      ]

  -- A flow in the table that has just been closed.
  close-Inv :
      {q : Policy} (key : Text) (f g : Flow) (t : ℕ)
      → Inv ports allow q
      → find key q.flows ≡ some f
      → g.initiator ≡ f.initiator
      → g.closed_at ≡ some t
      → IsOrdered g
      → (b : Bool)
      → Inv ports allow (record q {
        flows = put key g q.flows;
        closed = if b then add_key key q.closed else q.closed;
      })
  close-Inv {q} key f g t v found i c o b = record {
    same_ports = v.same_ports;
    same_allow = v.same_allow;
    sound =
        AllFlows-put (IsSound ports allow) key g q.flows
          (rw i (AllFlows-find (IsSound ports allow) key q.flows found v.sound).0, o) v.sound;
    closed = closed-In b;
    bounded = rw (length-put_found key g q.flows f found) v.bounded;
  }
    where
      closed-In :
          (b : Bool) → ClosedIn (if b then add_key key q.closed else q.closed) (put key g q.flows)
      closed-In true = add-ClosedIn key g t q.closed q.flows v.closed c
      closed-In false = put-ClosedIn key g q.closed q.flows v.closed λ _. (t, c)

  found-IsOrdered :
      {q : Policy} (key : Text) (f : Flow)
      → Inv ports allow q
      → find key q.flows ≡ some f
      → IsOrdered f
  found-IsOrdered {q} key f v found =
      (AllFlows-find (IsSound ports allow) key q.flows found v.sound).1

  account-Inv :
      {q : Policy} (key : Text) (f g : Flow) (now : ℕ) (r : Flow × Bool)
      → Inv ports allow q
      → find key q.flows ≡ some f
      → Keeps f g
      → Accounted (record g { last_seen = now }) now r
      → Inv ports allow (record q {
        flows = put key r.0 q.flows;
        closed = if r.1 then add_key key q.closed else q.closed;
      })
  account-Inv {q} key f g now (h, b) v found k a = elim a.closing [
    | inl c ↦ close-Inv key f h now v found (a.initiator ∙ k.initiator) c a.ordered b
    | inr (open', c) ↦
        if_cases
          (λ closed. Inv ports allow (record q { flows = put key h q.flows; closed = closed })) b _
          _ (λ shut. absurd (cc))
          (λ _. replace-Inv key f h v found (a.initiator ∙ k.initiator) (c ∙ k.closed_at) a.ordered)
  ]

  keep_flow-Inv :
      {q : Policy} (f g : Flow) (s : Segment) (d : Direction) (now : ℕ)
      → Inv ports allow q
      → find s.key q.flows ≡ some f
      → Keeps f g
      → Inv ports allow (keep_flow q g s d now).0
  unfolding keep_flow
  keep_flow-Inv {q} f g s d now v found k =
      let seen = record g { last_seen = now } in
      let ordered = seen-IsOrdered g now k.ordered in
      let kept : Policy × Bool → Type 0 = λ r. Inv ports allow r.0 in
      if_cases kept s.rst _ _ (λ _. remove-Inv s.key v)
        λ _.
          if_cases kept g.established _ _
            (λ yes'.
              account-Inv s.key f g now (account seen s d now) v found k
                (account-Accounted seen s d now ordered yes'))
            (λ _. replace-Inv s.key f seen v found k.initiator k.closed_at ordered)

  follow-Inv :
      {q : Policy} (f : Flow) (s : Segment) (d : Direction) (now : ℕ)
      → Inv ports allow q
      → find s.key q.flows ≡ some f
      → Inv ports allow (follow q f s d now).0
  unfolding follow
  follow-Inv {q} f s d now v found = go (advance f s d) refl
    where
      go : (a : Advance) → advance f s d ≡ a → Inv ports allow (follow q f s d now).0
      go refuse e = rw (e, follow) v
      go forget e = rw (e, follow) (remove-Inv s.key v)
      go touch e =
          rw (e, follow)
            (replace-Inv s.key f (record f { last_seen = now }) v found refl refl
              (seen-IsOrdered f now (found-IsOrdered s.key f v found)))
      go (proceed g) e =
          rw (e, follow)
            (keep_flow-Inv f g s d now v found
              (Progress-Keeps (found-IsOrdered s.key f v found) (advance-Progress f g s d e)))

  track-Inv :
      {q : Policy} (s : Segment) (d : Direction) (now : ℕ)
      → Inv ports allow q
      → IsKeyOf s d
      → Inv ports allow (track q s d now).0
  unfolding track
  track-Inv {q} s d now v k = elim (Option-cases (find s.key q.flows)) [
    | inl absent ↦ rw (absent, track) (open_flow-Inv s d now v k absent)
    | inr (f, found) ↦
        let kept : Policy × Bool → Type 0 = λ r. Inv ports allow r.0 in
        rw (found, track)
          (if_cases kept (reopens f s) _ _
            (λ _.
              if_cases kept (ungranted q s d) _ _ (λ _. v)
                (λ _. open_flow-Inv s d now (remove-Inv s.key v) k (find_removed q s.key)))
            (λ _. follow-Inv f s d now v found))
  ]

  admit_icmp-Inv :
      {q : Policy} (packet : Packet) (d : Direction) (now : ℕ)
      → Inv ports allow q
      → Inv ports allow (admit_icmp q packet d now).0
  unfolding admit_icmp
  admit_icmp-Inv {q} packet d now v = elim (Option-cases (icmp_key q packet d)) [
    | inl bad ↦ rw (bad, admit_icmp) v
    | inr (key, e) ↦
        rw (e, admit_icmp)
          (elim (Option-cases (find key q.flows)) [
            | inl absent ↦ rw absent v
            | inr (f, found) ↦ rw found (
                replace-Inv key f (record f { last_seen = now }) v found refl refl
                  (seen-IsOrdered f now (found-IsOrdered key f v found)))
          ])
  ]

  admit_tcp-Inv :
      {q : Policy} (packet : Packet) (d : Direction) (now : ℕ)
      → Inv ports allow q
      → Inv ports allow (admit_tcp q packet d now).0
  unfolding admit_tcp
  admit_tcp-Inv {q} packet d now v = elim (Option-cases (segment packet d)) [
    | inl bad ↦ rw (bad, admit_tcp) v
    | inr (s, e) ↦ rw (e, admit_tcp) (track-Inv s d now v (segment-IsKeyOf packet d s e))
  ]

  dispatch-Inv :
      {q : Policy} (packet : Packet) (d : Direction) (now : ℕ)
      → Inv ports allow q
      → Inv ports allow (dispatch q packet d now).0
  unfolding dispatch
  dispatch-Inv {q} packet d now v =
      let kept : Policy × Bool → Type 0 = λ r. Inv ports allow r.0 in
      if_cases kept (packet.protocol == 1) _ _ (λ _. admit_icmp-Inv packet d now v)
        λ _. if_cases kept (packet.protocol == 6) _ _ (λ _. admit_tcp-Inv packet d now v) (λ _. v)

  -- Whatever packet is handed to it, `admit` keeps the invariant.
  pub admit-Inv :
      {q : Policy} (bytes : List ℕ) (d : Direction) (now : ℕ)
      → Inv ports allow q
      → Inv ports allow (admit q bytes d now).policy
  unfolding admit
  admit-Inv {q} bytes d now v = elim (Option-cases (ipv4 bytes)) [
    | inl bad ↦ rw (bad, admit) v
    | inr (packet, e) ↦
        rw (e, admit)
          (if_cases (λ (r : Verdict). Inv ports allow r.policy) _ _ _ (λ _. v)
            (λ _. dispatch-Inv packet d now (sweep-Inv now v)))
  ]
