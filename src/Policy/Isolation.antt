-- ===== src/Policy/Isolation.antt =====
-- A packet leaves the other connections alone, even where the table is full.
use kepos.Common.{
  ℕ, ◌≡◌, ◌≢◌, ◌⊎◌, refl, sym, ◌∙◌, ap, inl, inr, Bool, false, not, ◌||◌, none, some, List, [], ◌∷◌,
  arith, leb, ◌==◌, if_cases, Bool-cases, Option-cases, length, unsome,
}
use kepos.Common.Text.{Text, text_eq_iff, text_eq_refl}
use mathlib.Core.Path.{subst}
use kepos.Packet.{Packet, ipv4}
use kepos.Policy.Table.{Direction, Flow, Flows, find, put, stale}
use kepos.Policy.Table.Laws.{find-put, find-delete}
use kepos.Policy.Tcp.{Segment, segment}
use kepos.Policy.Handshake.{Advance, refuse, forget, touch, proceed, advance}
use kepos.Policy.State.{Ports, Policy, remove, sweep, sweep_flows, max_flows, ungranted, forbidden}
use kepos.Policy.{
  evict, make_room, new_flow, open_flow, keep_flow, follow, reopens, track, icmp_key, admit_icmp,
  admit_tcp, dispatch, admit, Verdict,
}
use kepos.Policy.Invariant.{Inv, sweep-Inv, remove-Inv}

module _ (k : Text) (f : Flow) where
  -- The flow `f` is in the table, under `k`.
  abbrev pub Has : Policy → Type 0
  Has q = find k q.flows ≡ some f

  put-Has :
      (key : Text) (g : Flow) (m : Flows)
      → key ≢ k
      → find k m ≡ some f
      → find k (put key g m) ≡ some f
  put-Has key g m n h = ground (arith, find-put key k g m, text_eq_iff key k)

  remove-Has : (q : Policy) (key : Text) → key ≢ k → Has q → Has (remove q key)
  unfolding remove
  remove-Has q key n h = ground (arith, find-delete key k q.flows, text_eq_iff key k)

  sweep_flows-Has :
      (now : ℕ) (m : Flows)
      → stale now f ≡ false
      → find k m ≡ some f
      → find k (sweep_flows now m) ≡ some f
  unfolding sweep_flows find
  sweep_flows-Has now [] a h = h
  sweep_flows-Has now ((i, g) ∷ m) a h = ground (arith, sweep_flows-Has now m a)

  pub sweep-Has : (q : Policy) (now : ℕ) → stale now f ≡ false → Has q → Has (sweep q now)
  unfolding sweep
  sweep-Has q now a h =
      if_cases Has (leb q.next_sweep now) _ _ (λ _. sweep_flows-Has now q.flows a h) (λ _. h)

  keep_flow-Has :
      (q : Policy) (g : Flow) (s : Segment) (d : Direction) (now : ℕ)
      → s.key ≢ k
      → Has q
      → Has (keep_flow q g s d now).0
  unfolding keep_flow
  keep_flow-Has q g s d now n h =
      let kept : Policy × Bool → Type 0 = λ r. Has r.0 in
      if_cases kept s.rst _ _ (λ _. remove-Has q s.key n h)
        λ _.
          if_cases kept g.established _ _ (λ _. put-Has s.key _ q.flows n h)
            (λ _. put-Has s.key _ q.flows n h)

  follow-Has :
      (q : Policy) (g : Flow) (s : Segment) (d : Direction) (now : ℕ)
      → s.key ≢ k
      → Has q
      → Has (follow q g s d now).0
  unfolding follow
  follow-Has q g s d now n h = go (advance g s d) refl
    where
      go : (a : Advance) → advance g s d ≡ a → Has (follow q g s d now).0
      go refuse e = rw (e, follow) h
      go forget e = rw (e, follow) (remove-Has q s.key n h)
      go touch e = rw (e, follow) (put-Has s.key _ q.flows n h)
      go (proceed g') e = rw (e, follow) (keep_flow-Has q g' s d now n h)

  module _ {ports : Ports} {allow : Bool} (open' : f.closed_at ≡ none) where
    -- An open flow is not evicted.
    evict-Has :
        (q q' : Policy) (closed : List Text)
        → Inv ports allow q
        → q.closed ≡ closed
        → Has q
        → evict q closed ≡ some q'
        → Has q'
    unfolding evict
    evict-Has q q' [] v c h e = absurd (cc)
    evict-Has q q' (oldest ∷ rest) v c h e =
        let (g, t, found, at) = v.closed oldest (rw c (ground (arith, text_eq_refl oldest))) in
        let other : oldest ≢ k = λ same.
          let twice : some g ≡ some f = sym found ∙ ap (λ x. find x q.flows) same ∙ h in
          let eq : g ≡ f = unsome twice in absurd (cc) in
        subst Has (unsome e) (remove-Has q oldest other h)

    make_room-Has : (q q' : Policy) → Inv ports allow q → Has q → make_room q ≡ some q' → Has q'
    unfolding make_room
    make_room-Has q q' v h e = elim (Bool-cases (leb max_flows (length q.flows))) [
      | inr space ↦ subst Has (unsome (rw space at e)) h
      | inl full ↦ evict-Has q q' q.closed v refl h (rw full at e)
    ]

    open_flow-Has :
        (q : Policy) (s : Segment) (d : Direction) (now : ℕ)
        → Inv ports allow q
        → s.key ≢ k
        → Has q
        → Has (open_flow q s d now).0
    unfolding open_flow
    open_flow-Has q s d now v n h =
        if_cases (λ (r : Policy × Bool). Has r.0)
          (not s.syn || s.ack || s.rst || forbidden q d || ungranted q s d) _ _ (λ _. h)
          (λ _. elim (Option-cases (make_room q)) [
            | inl full ↦ rw full h
            | inr (q', e) ↦
                rw e (put-Has s.key (new_flow s d now) q'.flows n (make_room-Has q q' v h e))
          ])

    track-Has :
        (q : Policy) (s : Segment) (d : Direction) (now : ℕ)
        → Inv ports allow q
        → s.key ≢ k
        → Has q
        → Has (track q s d now).0
    unfolding track
    track-Has q s d now v n h = elim (Option-cases (find s.key q.flows)) [
      | inl absent ↦ rw (absent, track) (open_flow-Has q s d now v n h)
      | inr (g, found) ↦
          let kept : Policy × Bool → Type 0 = λ r. Has r.0 in
          rw (found, track)
            (if_cases kept (reopens g s) _ _
              (λ _.
                if_cases kept (ungranted q s d) _ _ (λ _. h)
                  (λ _.
                    open_flow-Has (remove q s.key) s d now (remove-Inv s.key v) n
                      (remove-Has q s.key n h)))
              (λ _. follow-Has q g s d now n h))
    ]

-- What a packet is about: the flow of its TCP segment, or the flow that an ICMP error quotes.
abbrev pub IsAbout : Policy → List ℕ → Direction → Text → Type 0
IsAbout q bytes d k =
    (packet : Packet) × (ipv4 bytes ≡ some packet)
    × (((s : Segment) × (segment packet d ≡ some s) × (s.key ≡ k)) ⊎ (icmp_key q packet d ≡ some k))

module _ {ports : Ports} {allow : Bool} where
  dispatch-Has :
      (k : Text) (f : Flow) (q : Policy) (packet : Packet) (d : Direction) (now : ℕ)
      → f.closed_at ≡ none
      → Inv ports allow q
      → Has k f q
      → ((s : Segment) → segment packet d ≡ some s → s.key ≢ k)
      → icmp_key q packet d ≢ some k
      → Has k f (dispatch q packet d now).0
  unfolding dispatch admit_tcp admit_icmp
  dispatch-Has k f q packet d now open' v h ns ni =
      let kept : Policy × Bool → Type 0 = λ r. Has k f r.0 in
      if_cases kept (packet.protocol == 1) _ _
        (λ _. elim (Option-cases (icmp_key q packet d)) [
          | inl bad ↦ rw (bad, admit_icmp) h
          | inr (key, is) ↦
              rw (is, admit_icmp)
                (elim (Option-cases (find key q.flows)) [
                  | inl absent ↦ rw absent h
                  | inr (g, found) ↦
                      rw found (put-Has k f key _ q.flows (λ e. ni (is ∙ ap some e)) h)
                ])
        ])
        λ _.
          if_cases kept (packet.protocol == 6) _ _
            (λ _. elim (Option-cases (segment packet d)) [
              | inl bad ↦ rw (bad, admit_tcp) h
              | inr (s, is) ↦ rw (is, admit_tcp) (track-Has k f open' q s d now v (ns s is) h)
            ])
            (λ _. h)

  -- A flow that is open and not over is still in the table, unchanged, after any packet that is not
  -- about it, also when the packet makes room for a new flow in a full table.
  pub admit_isolates :
      (k : Text) (f : Flow) (q : Policy) (bytes : List ℕ) (d : Direction) (now : ℕ)
      → Inv ports allow q
      → find k q.flows ≡ some f
      → f.closed_at ≡ none
      → stale now f ≡ false
      → ¬ IsAbout (sweep q now) bytes d k
      → find k (admit q bytes d now).policy.flows ≡ some f
  unfolding admit
  admit_isolates k f q bytes d now v h open' alive other = elim (Option-cases (ipv4 bytes)) [
    | inl bad ↦ rw (bad, admit) h
    | inr (packet, is) ↦
        rw (is, admit)
          (if_cases (λ (r : Verdict). find k r.policy.flows ≡ some f) _ _ _ (λ _. h)
            (λ _.
              dispatch-Has k f (sweep q now) packet d now open' (sweep-Inv now v)
                (sweep-Has k f q now alive h) (λ s e same. other (packet, is, inl (s, e, same)))
                (λ e. other (packet, is, inr e))))
  ]
