-- ===== src/Engine/Histories.antt =====
-- What the engine's handlers can reach: the bounds of its tables, in every history.
use mathlib.Core.Path.{subst}
use kepos.Common.{
  ℕ, ◌+◌, ◌≤◌, true, not, ◌&&◌, ◌||◌, none, some, List, leb, ◌==◌, length, ◌≡◌, ◌≢◌, arith,
  if_cases, Option-cases, inl, inr,
}
use kepos.Common.Text.{Text, text_eq, eq_of_text_eq}
use kepos.Common.Maps.{get, del, has_key, length-del, del_present, All-set, All-del}
use kepos.Engine.{
  Peer, Setup, Engine, new_engine, by_key, firewall, on_connection, on_dial, on_dialled, on_close,
  on_enrolled, stop, attach, attach_enrollment, accepts,
}
use kepos.Engine.Admission.{
  Bounded, length-add_stream, length-delete_stream, by_key-key, noted-Bounded, destroyed-Bounded,
  firewall-Bounded,
}

-- A peer that was looked up is found under its own key.
known_peer :
    (ps : List Peer) (key : Text) (p : Peer) → by_key ps key ≡ some p → by_key ps p.key ≢ none
known_peer ps key p e missing =
    let same = eq_of_text_eq p.key key (by_key-key ps key p e) in
    let missing' : by_key ps key ≡ none = subst (λ k. by_key ps k ≡ none) same missing in cc

-- The states of the engine: the server's two handlers, the steps of a dial, the ends of streams and
-- the stop, in any order. A dial is to a peer of the configuration.
pub data Reachable (setup : Setup) : Engine → Type 0 where
  begin : Reachable setup new_engine
  after_firewall :
      {q : Engine} (key : Text) (now : ℕ)
      → Reachable setup q
      → Reachable setup (firewall setup q key now).0
  after_connection :
      {q : Engine} (key : Text) (stream : ℕ)
      → Reachable setup q
      → Reachable setup (on_connection setup q key stream)
  after_dial : {q : Engine} (stream : ℕ) → Reachable setup q → Reachable setup (on_dial q stream)
  after_dialled :
      {q : Engine} (peer : Peer) (remote : Text) (stream : ℕ)
      → by_key setup.peers peer.key ≢ none
      → Reachable setup q
      → Reachable setup (on_dialled q peer remote stream)
  after_close :
      {q : Engine} (peer : Peer) (stream : ℕ)
      → Reachable setup q
      → Reachable setup (on_close q peer stream)
  after_enrolled :
      {q : Engine} (stream : ℕ) → Reachable setup q → Reachable setup (on_enrolled q stream)
  after_stop : {q : Engine} → Reachable setup q → Reachable setup (stop q)

module _ (setup : Setup) where
  attach-Bounded :
      (q : Engine) (p : Peer) (stream : ℕ)
      → by_key setup.peers p.key ≢ none
      → Bounded setup q
      → Bounded setup (attach q p stream)
  unfolding attach
  attach-Bounded q p stream known h =
      if_cases (Bounded setup) (q.stopping || has_key q.sessions p.key) _ _
        (λ e. destroyed-Bounded setup q _ h)
        (λ e. record {
          enrolling = h.enrolling;
          attempts = h.attempts;
          strangers = h.strangers;
          members =
              All-set (λ k. by_key setup.peers k ≢ none) q.sessions p.key stream known h.members;
        })

  -- An enrolment stream takes the place of a reservation.
  attach_enrollment-Bounded :
      (q : Engine) (stream : ℕ)
      → length q.enrollment_streams + length q.reservations + 1 ≤ 8
      → Bounded setup q
      → Bounded setup (attach_enrollment q stream)
  unfolding attach_enrollment
  attach_enrollment-Bounded q stream room h =
      let grown = length-add_stream stream q.enrollment_streams in
      if_cases (Bounded setup) (q.stopping || leb 8 (length q.enrollment_streams)) _ _
        (λ e. destroyed-Bounded setup q _ h)
        (λ e. record {
          enrolling = omega arith;
          attempts = h.attempts;
          strangers = h.strangers;
          members = h.members;
        })

  released-Bounded :
      (q : Engine) (key : Text)
      → Bounded setup q
      → Bounded setup (record q { reservations = del q.reservations key })
  released-Bounded q key h =
      let fewer = length-del q.reservations key in
      let old = h.enrolling in
      record {
        enrolling = omega arith;
        attempts = h.attempts;
        strangers = All-del (λ k. by_key setup.peers k ≡ none) q.reservations key h.strangers;
        members = h.members;
      }

  on_connection-Bounded :
      (q : Engine) (key : Text) (stream : ℕ)
      → Bounded setup q
      → Bounded setup (on_connection setup q key stream)
  unfolding on_connection
  on_connection-Bounded q key stream h = elim (Option-cases (by_key setup.peers key)) [
    | inl unknown ↦
        rw (unknown, on_connection)
          (if_cases (Bounded setup)
            (setup.enrollment && has_key q.reservations key && not q.stopping) _ _
            (λ e.
              let reserved : has_key q.reservations key ≡ true = ground arith in
              let fewer = del_present q.reservations key reserved in
              let old = h.enrolling in
              attach_enrollment-Bounded _ stream (omega arith) (released-Bounded q key h))
            (λ e. destroyed-Bounded setup _ _ (released-Bounded q key h)))
    | inr (peer, known) ↦
        rw (known, on_connection)
          (if_cases (Bounded setup) (not (accepts peer) || q.stopping) _ _
            (λ e. destroyed-Bounded setup _ _ (released-Bounded q key h))
            (λ e.
              attach-Bounded _ peer stream (known_peer setup.peers key peer known)
                (noted-Bounded setup _ _ (released-Bounded q key h))))
  ]

  streams-Bounded :
      (q : Engine) (xs : List ℕ) → Bounded setup q → Bounded setup (record q { streams = xs })
  streams-Bounded q xs h = record {
    enrolling = h.enrolling;
    attempts = h.attempts;
    strangers = h.strangers;
    members = h.members;
  }

  on_dialled-Bounded :
      (q : Engine) (p : Peer) (remote : Text) (stream : ℕ)
      → by_key setup.peers p.key ≢ none
      → Bounded setup q
      → Bounded setup (on_dialled q p remote stream)
  unfolding on_dialled
  on_dialled-Bounded q p remote stream known h =
      if_cases (Bounded setup) q.stopping _ _
        (λ e. destroyed-Bounded setup _ stream (streams-Bounded q _ h))
        (λ e.
          if_cases (Bounded setup) (not (text_eq remote p.key)) _ _
            (λ e.
              destroyed-Bounded setup _ stream (streams-Bounded _ _ (noted-Bounded setup q _ h)))
            (λ e. attach-Bounded _ p stream known (noted-Bounded setup q _ h)))

  on_close-Bounded :
      (q : Engine) (p : Peer) (stream : ℕ) → Bounded setup q → Bounded setup (on_close q p stream)
  unfolding on_close
  on_close-Bounded q p stream h = elim (Option-cases (get q.sessions p.key)) [
    | inl absent ↦ rw (absent, on_close) (streams-Bounded q _ h)
    | inr (s, present) ↦
        rw (present, on_close)
          (if_cases (Bounded setup) (s == stream) _ _
            (λ e. record {
              enrolling = h.enrolling;
              attempts = h.attempts;
              strangers = h.strangers;
              members = All-del (λ k. by_key setup.peers k ≢ none) q.sessions p.key h.members;
            })
            (λ e. streams-Bounded q _ h))
  ]

  on_enrolled-Bounded :
      (q : Engine) (stream : ℕ) → Bounded setup q → Bounded setup (on_enrolled q stream)
  unfolding on_enrolled
  on_enrolled-Bounded q stream h =
      let fewer = length-delete_stream stream q.enrollment_streams in
      let old = h.enrolling in
      record {
        enrolling = omega arith;
        attempts = h.attempts;
        strangers = h.strangers;
        members = h.members;
      }

  stop-Bounded : (q : Engine) → Bounded setup q → Bounded setup (stop q)
  unfolding stop
  stop-Bounded q h =
      if_cases (Bounded setup) q.stopping _ _ (λ e. h)
        (λ e. record {
          enrolling = h.enrolling;
          attempts = h.attempts;
          strangers = h.strangers;
          members = tt;
        })

-- In every state that the engine can reach: the keys with a reservation and the enrolment streams are
-- at most eight together, at most 32 attempts are remembered, only keys of no configured peer have a
-- reservation, and only keys of configured peers have a session.
pub Reachable-Bounded : (setup : Setup) (q : Engine) → Reachable setup q → Bounded setup q
unfolding on_dial
Reachable-Bounded setup _ begin = record {
  enrolling = omega arith;
  attempts = omega arith;
  strangers = tt;
  members = tt;
}
Reachable-Bounded setup _ (after_firewall {q} key now r) =
    firewall-Bounded setup q key now (Reachable-Bounded setup q r)
Reachable-Bounded setup _ (after_connection {q} key stream r) =
    on_connection-Bounded setup q key stream (Reachable-Bounded setup q r)
Reachable-Bounded setup _ (after_dial {q} stream r) =
    streams-Bounded setup q _ (Reachable-Bounded setup q r)
Reachable-Bounded setup _ (after_dialled {q} peer remote stream known r) =
    on_dialled-Bounded setup q peer remote stream known (Reachable-Bounded setup q r)
Reachable-Bounded setup _ (after_close {q} peer stream r) =
    on_close-Bounded setup q peer stream (Reachable-Bounded setup q r)
Reachable-Bounded setup _ (after_enrolled {q} stream r) =
    on_enrolled-Bounded setup q stream (Reachable-Bounded setup q r)
Reachable-Bounded setup _ (after_stop {q} r) = stop-Bounded setup q (Reachable-Bounded setup q r)
