-- ===== src/Policy/Ends.antt =====
-- The two addresses of a policy object never change.
use kepos.Common.{
  ℕ, ◌≡◌, Bool, true, false, not, ◌&&◌, ◌||◌, Option, none, some, List, [], ◌∷◌, leb, if◌then◌else◌,
  ◌==◌, if_cases, Option-cases, inl, inr, length,
}
use kepos.Common.Text.{Text, text_eq}
use kepos.Packet.{Packet, ipv4}
use kepos.Policy.Table.{Direction, Flow, find, put, incoming, direction_eq}
use kepos.Policy.Tcp.{Segment, segment}
use kepos.Policy.Handshake.{Advance, refuse, forget, touch, proceed, advance}
use kepos.Policy.State.{Policy, clear, remove, sweep, max_flows, source_of, opposite}
use kepos.Policy.{
  new_flow, evict, make_room, open_flow, keep_flow, follow, reopens, track, icmp_key, admit_icmp,
  admit_tcp, dispatch, admit, Verdict, plain,
}

module _ (here there : Text) where
  abbrev pub Between : Policy → Type 0
  Between q = (q.local_address ≡ here) × (q.peer_address ≡ there)

  pub clear-Between : (q : Policy) → Between q → Between (clear q)
  unfolding clear
  clear-Between q h = h

  remove-Between : (q : Policy) (key : Text) → Between q → Between (remove q key)
  unfolding remove
  remove-Between q key h = h

  sweep-Between : (q : Policy) (now : ℕ) → Between q → Between (sweep q now)
  unfolding sweep
  sweep-Between q now h = if_cases Between (leb q.next_sweep now) _ _ (λ e. h) (λ e. h)

  abbrev Room : Option Policy → Type 0
  Room none = Unit
  Room (some q) = Between q

  make_room-Between : (q : Policy) → Between q → Room (make_room q)
  unfolding make_room evict
  make_room-Between q h =
      if_cases Room (leb max_flows (length q.flows)) _ _ (λ e. evicted q.closed) (λ e. h)
    where
      evicted : (closed : List Text) → Room (evict q closed)
      evicted [] = tt
      evicted (oldest ∷ rest) = remove-Between q oldest h

  open_flow-Between :
      (q : Policy) (s : Segment) (d : Direction) (now : ℕ)
      → Between q
      → Between (open_flow q s d now).0
  unfolding open_flow
  open_flow-Between q s d now h =
      if_cases (λ (r : Policy × Bool). Between r.0) _ _ _ (λ e. h)
        (λ e. made (make_room q) (make_room-Between q h))
    where
      made :
          (o : Option Policy)
          → Room o
          → Between
              (elim o as (λ x. Policy × Bool) [
                | none ↦ (q, false)
                | some q' ↦ (record q' { flows = put s.key (new_flow s d now) q'.flows }, true)
              ]).0
      made none r = h
      made (some q') r = r

  keep_flow-Between :
      (q : Policy) (f : Flow) (s : Segment) (d : Direction) (now : ℕ)
      → Between q
      → Between (keep_flow q f s d now).0
  unfolding keep_flow
  keep_flow-Between q f s d now h =
      if_cases (λ (r : Policy × Bool). Between r.0) s.rst _ _ (λ e. remove-Between q s.key h)
        (λ e. if_cases (λ (r : Policy × Bool). Between r.0) f.established _ _ (λ e. h) (λ e. h))

  follow-Between :
      (q : Policy) (f : Flow) (s : Segment) (d : Direction) (now : ℕ)
      → Between q
      → Between (follow q f s d now).0
  unfolding follow
  follow-Between q f s d now h = go (advance f s d)
    where
      go :
          (a : Advance)
          → Between
              (elim a as (λ x. Policy × Bool) [
                | refuse ↦ (q, false)
                | forget ↦ (remove q s.key, true)
                | touch ↦
                    (record q { flows = put s.key (record f { last_seen = now }) q.flows }, true)
                | proceed flow' ↦ keep_flow q flow' s d now
              ]).0
      go refuse = h
      go forget = remove-Between q s.key h
      go touch = h
      go (proceed f') = keep_flow-Between q f' s d now h

  track-Between :
      (q : Policy) (s : Segment) (d : Direction) (now : ℕ) → Between q → Between (track q s d now).0
  unfolding track
  track-Between q s d now h = elim (Option-cases (find s.key q.flows)) [
    | inl absent ↦ rw (absent, track) (open_flow-Between q s d now h)
    | inr (f, found) ↦
        rw (found, track)
          (if_cases (λ (r : Policy × Bool). Between r.0) (reopens f s) _ _
            (λ e.
              if_cases (λ (r : Policy × Bool). Between r.0) _ _ _ (λ e'. h)
                (λ e'. open_flow-Between (remove q s.key) s d now (remove-Between q s.key h)))
            (λ e. follow-Between q f s d now h))
  ]

  admit_tcp-Between :
      (q : Policy) (p : Packet) (d : Direction) (now : ℕ)
      → Between q
      → Between (admit_tcp q p d now).0
  unfolding admit_tcp
  admit_tcp-Between q p d now h = elim (Option-cases (segment p d)) [
    | inl bad ↦ rw (bad, admit_tcp) h
    | inr (s, is) ↦ rw (is, admit_tcp) (track-Between q s d now h)
  ]

  admit_icmp-Between :
      (q : Policy) (p : Packet) (d : Direction) (now : ℕ)
      → Between q
      → Between (admit_icmp q p d now).0
  unfolding admit_icmp
  admit_icmp-Between q p d now h = elim (Option-cases (icmp_key q p d)) [
    | inl bad ↦ rw (bad, admit_icmp) h
    | inr (key, is) ↦ elim (Option-cases (find key q.flows)) [
      | inl absent ↦ rw (is, admit_icmp) (rw (absent, admit_icmp) h)
      | inr (f, found) ↦ rw (is, admit_icmp) (rw (found, admit_icmp) h)
    ]
  ]

  dispatch-Between :
      (q : Policy) (p : Packet) (d : Direction) (now : ℕ)
      → Between q
      → Between (dispatch q p d now).0
  unfolding dispatch
  dispatch-Between q p d now h =
      if_cases (λ (r : Policy × Bool). Between r.0) (p.protocol == 1) (admit_icmp q p d now)
        (if p.protocol == 6 then admit_tcp q p d now else (q, false))
        (λ icmp. admit_icmp-Between q p d now h)
        (λ other.
          if_cases (λ (r : Policy × Bool). Between r.0) (p.protocol == 6) (admit_tcp q p d now)
            (q, false) (λ tcp. admit_tcp-Between q p d now h) (λ e'. h))

  pub admit-Between :
      (q : Policy) (bytes : List ℕ) (d : Direction) (now : ℕ)
      → Between q
      → Between (admit q bytes d now).policy
  unfolding admit
  admit-Between q bytes d now h = elim (Option-cases (ipv4 bytes)) [
    | inl bad ↦ rw (bad, admit) h
    | inr (p, is) ↦
        let wrong_source = not (text_eq p.source (source_of q d)) in
        rw (is, admit)
          (if_cases (λ (v : Verdict). Between v.policy)
            (wrong_source || not (text_eq p.destination (source_of q (opposite d))))
            (record {
              policy = q;
              admitted = false;
              mismatch = direction_eq d incoming && wrong_source;
            })
            (plain (dispatch (sweep q now) p d now)) (λ e. h)
            (λ e. dispatch-Between (sweep q now) p d now (sweep-Between q now h)))
  ]
