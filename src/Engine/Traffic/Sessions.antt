-- ===== src/Engine/Traffic/Sessions.antt =====
-- The ends of streams, the packets of the device and `stop` keep what is known of the sessions.
use kepos.Common.{
  ℕ, ◌≡◌, refl, Bool, true, false, not, List, [], ◌∷◌, ◌∙◌, if◌then◌else◌, ◌==◌, if_cases,
  Option-cases, inl, inr,
}
use kepos.Common.Text.{Text}
use kepos.Common.Maps.{get, AllEntries-del}
use kepos.Packet.{address}
use kepos.Policy.Table.{outgoing}
use kepos.Policy.{admit}
use kepos.Engine.Traffic.{
  on_failure, on_end, on_timeout, on_close, send_out, route, on_packet, by_address, part, stop,
}
use kepos.Engine.Traffic.State.{Member, Network, Session, Traffic, status, emit, destroy}
use kepos.Engine.Traffic.Known.{IsSession, Sound, P, put-Sound, session_of, moved-IsSession}

module _ (n : Network) where
  pub on_failure-Sound :
      (q : Traffic) (m : Member) (stream : ℕ) → Sound n q → Sound n (on_failure q m stream)
  unfolding on_failure
  on_failure-Sound q m stream h =
      if_cases (λ (r : Traffic). Sound n (destroy r stream)) q.stopping _ _
        (λ e. record { sessions = h.sessions; delivered = h.delivered })
        (λ e. record { sessions = h.sessions; delivered = h.delivered })

  pub on_end-Sound :
      (q : Traffic) (m : Member) (stream : ℕ) (first : Bool)
      → Sound n q
      → Sound n (on_end q m stream first)
  unfolding on_end
  on_end-Sound q m stream true h = on_failure-Sound q m stream h
  on_end-Sound q m stream false h = record { sessions = h.sessions; delivered = h.delivered }

  pub on_timeout-Sound :
      (q : Traffic) (m : Member) (stream : ℕ) → Sound n q → Sound n (on_timeout q m stream)
  unfolding on_timeout
  on_timeout-Sound q m stream h = elim (Option-cases (get q.sessions m.key)) [
    | inl absent ↦ rw (absent, on_timeout) h
    | inr (s, found) ↦
        rw (found, on_timeout)
          (if_cases (Sound n) _ _ _ (λ e. h)
            (λ e. record { sessions = h.sessions; delivered = h.delivered }))
  ]

  pub on_close-Sound :
      (q : Traffic) (m : Member) (stream : ℕ) → Sound n q → Sound n (on_close q m stream)
  unfolding on_close
  on_close-Sound q m stream h =
      let fewer = AllEntries-del (P n) q.sessions m.key h.sessions in
      elim (Option-cases (get q.sessions m.key)) [
        | inl absent ↦ rw (absent, on_close) h
        | inr (s, found) ↦
            rw (found, on_close)
              (if_cases (Sound n) (not (s.stream == stream)) _ _ (λ e. h)
                (λ e.
                  if_cases (Sound n) s.ready _ _
                    (λ e'. record { sessions = fewer; delivered = h.delivered })
                    (λ e'. record { sessions = fewer; delivered = h.delivered })))
      ]

  send_out-Sound :
      (q : Traffic) (m : Member) (s : Session) (packet : List ℕ) (sent : Bool) (now : ℕ)
      → Sound n q
      → IsSession n m.key s
      → Sound n (send_out q m s packet sent now)
  unfolding send_out
  send_out-Sound q m s packet sent now h p =
      let v = admit s.policy packet outgoing now in
      let moved = record s { policy = v.policy } in
      let next = put-Sound n q m.key moved h (moved-IsSession n m.key s packet outgoing now p) in
      if_cases (Sound n) (not v.admitted) _ _ (λ e. next)
        (λ e.
          if_cases (Sound n) sent _ _
            (λ e'. record { sessions = next.sessions; delivered = next.delivered })
            (λ e'. record { sessions = next.sessions; delivered = next.delivered }))

  route-Sound :
      (q : Traffic) (packet : List ℕ) (sent : Bool) (now : ℕ)
      → Sound n q
      → Sound n (route n q packet sent now)
  unfolding route
  route-Sound q packet sent now h = elim (Option-cases (by_address n.members (address packet 16))) [
    | inl absent ↦ rw (absent, route) h
    | inr (m, known) ↦ elim (Option-cases (get q.sessions m.key)) [
      | inl absent ↦ rw (known, route) (rw (absent, route) h)
      | inr (s, found) ↦
          rw (known, route)
            (rw (found, route)
              (if_cases (Sound n) (not s.ready) _ _ (λ e'. h)
                (λ e'. send_out-Sound q m s packet sent now h (session_of n q m.key s found h))))
    ]
  ]

  pub on_packet-Sound :
      (q : Traffic) (packet : List ℕ) (sent : Bool) (now : ℕ)
      → Sound n q
      → Sound n (on_packet n q packet sent now)
  unfolding on_packet
  on_packet-Sound q packet sent now h =
      if_cases (Sound n) _ q (route n q packet sent now) (λ e. h)
        (λ e. route-Sound q packet sent now h)

  part-to_device : (ss : List (Text × Session)) (q : Traffic) → (part ss q).to_device ≡ q.to_device
  unfolding part
  part-to_device [] q = refl
  part-to_device ((key, s) ∷ ss) q =
      part-to_device ss (if s.ready then emit q (status key false) else q)
      ∙ if_cases (λ (r : Traffic). r.to_device ≡ q.to_device) s.ready _ _ (λ e. refl) (λ e. refl)

  pub stop-Sound : (q : Traffic) → Sound n q → Sound n (stop q)
  unfolding stop
  stop-Sound q h =
      if_cases (Sound n) q.stopping _ _ (λ e. h)
        (λ e. record { sessions = tt; delivered = rw (part-to_device q.sessions q) h.delivered })
