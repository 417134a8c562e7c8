-- ===== src/Engine/Traffic/Frames.antt =====
-- The frames of a session keep what is known of the sessions and of the device.
use kepos.Common.{
  ℕ, ◌≡◌, ◌⊎◌, refl, Bool, true, false, not, ◌&&◌, ◌||◌, List, ◌∙◌, ◌==◌, if_cases, Option-cases,
  inl, inr, unnot, take,
}
use kepos.Common.Text.{Text, text_eq}
use kepos.Common.Maps.{get}
use kepos.Invitation.{ascii, enrollment_prefix}
use kepos.Packet.{Packet}
use kepos.Policy.Table.{incoming}
use kepos.Policy.State.{Ports, sweep}
use kepos.Policy.{admit}
use kepos.Policy.Authority.{Grounds, admit-Grounds}
use kepos.Engine.Enrolling.{Enrolled}
use kepos.Engine.Traffic.{
  Handled, enroll_known, greet, mismatch_event, deliver, take_frame, on_frame,
}
use kepos.Engine.Traffic.State.{Member, Network, Session, Traffic, put, hello}
use kepos.Engine.Traffic.Known.{
  IsSession, IsGenuine, Sound, All-append, put-Sound, session_of, moved-IsSession,
}

module _ (n : Network) where
  greet-Sound :
      (q : Traffic) (m : Member) (s : Session) (packet : List ℕ)
      → Sound n q
      → IsSession n m.key s
      → Sound n (greet q m s packet).0
  unfolding greet
  greet-Sound q m s packet h p =
      if_cases (λ (r : Handled). Sound n r.0) (not (text_eq packet hello)) _ _
        (λ e.
          put-Sound n q m.key (record s { first = false }) h
            (record {
              member = p.member;
              known = p.known;
              ends = p.ends;
              sound = p.sound;
              greeted = λ r. refl;
            }))
        (λ e.
          let next =
            put-Sound n q m.key (record s { first = false; ready = true }) h
              (record {
                member = p.member;
                known = p.known;
                ends = p.ends;
                sound = p.sound;
                greeted = λ r. refl;
              }) in
          record { sessions = next.sessions; delivered = next.delivered })

  -- A packet that is let through is genuine.
  admitted-IsGenuine :
      (key : Text) (s : Session) (packet : List ℕ) (now : ℕ)
      → IsSession n key s
      → (admit s.policy packet incoming now).admitted ≡ true
      → IsGenuine n key packet
  admitted-IsGenuine key s bytes now p e =
      let (packet, is, formed, from, to, grounds) = admit-Grounds s.policy bytes now p.sound e in
      record {
        member = p.member;
        known = p.known;
        packet = packet;
        read = is;
        wellformed = formed;
        source = from ∙ p.ends.1;
        destination = to ∙ p.ends.0;
        protocol = kind p.member.ports (not n.enrollment) packet grounds;
      }
    where
      kind :
          (ports : Ports) (allow : Bool) (packet : Packet)
          → Grounds ports allow (sweep s.policy now) packet
          → (packet.protocol ≡ 6) ⊎ (packet.protocol ≡ 1)
      kind ports allow packet (inl tcp) = inl tcp.0
      kind ports allow packet (inr icmp) = inr icmp.0

  mismatch-Sound : (b : Bool) (q : Traffic) → Sound n q → Sound n (mismatch_event b q)
  unfolding mismatch_event
  mismatch-Sound true q h = record { sessions = h.sessions; delivered = h.delivered }
  mismatch-Sound false q h = h

  deliver-Sound :
      (q : Traffic) (m : Member) (s : Session) (packet : List ℕ) (now : ℕ)
      → Sound n q
      → IsSession n m.key s
      → Sound n (deliver q m s packet now).0
  unfolding deliver
  deliver-Sound q m s packet now h p =
      let v = admit s.policy packet incoming now in
      let moved = record s { policy = v.policy } in
      let next =
        mismatch-Sound v.mismatch (put q m.key moved)
          (put-Sound n q m.key moved h (moved-IsSession n m.key s packet incoming now p)) in
      if_cases (λ (r : Handled). Sound n r.0) (q.tun_writing || not q.device) _ _
        (λ e. record { sessions = h.sessions; delivered = h.delivered })
        (λ e.
          if_cases (λ (r : Handled). Sound n r.0) (not v.admitted) _ _
            (λ e'. record { sessions = next.sessions; delivered = next.delivered })
            (λ e'. record {
              sessions = next.sessions;
              delivered =
                  All-append (λ (e : Text × List ℕ). IsGenuine n e.0 e.1) _ (m.key, packet)
                    next.delivered (admitted-IsGenuine m.key s packet now p (unnot v.admitted e'));
            }))

  take_frame-Sound :
      (q : Traffic) (m : Member) (s : Session) (packet : List ℕ) (ask : Text → Enrolled)
      (sent : Bool) (now : ℕ)
      → Sound n q
      → IsSession n m.key s
      → Sound n (take_frame n q m s packet ask sent now).0
  unfolding take_frame enroll_known
  take_frame-Sound q m s packet ask sent now h p =
      if_cases (λ (r : Handled). Sound n r.0) s.first _ _
        (λ e.
          if_cases (λ (r : Handled). Sound n r.0)
            (n.enrollment && text_eq (ascii (take 20 packet)) enrollment_prefix)
            (enroll_known n q m s packet ask sent now) (greet q m s packet)
            (λ e'.
              let next =
                put-Sound n q m.key (record s { first = false }) h
                  (record {
                    member = p.member;
                    known = p.known;
                    ends = p.ends;
                    sound = p.sound;
                    greeted = λ r. refl;
                  }) in
              record { sessions = next.sessions; delivered = next.delivered })
            (λ e'. greet-Sound q m s packet h p))
        (λ e.
          if_cases (λ (r : Handled). Sound n r.0) (not s.ready) (q, true) (deliver q m s packet now)
            (λ e'. h) (λ e'. deliver-Sound q m s packet now h p))

  pub on_frame-Sound :
      (q : Traffic) (m : Member) (stream : ℕ) (packet : List ℕ) (ask : Text → Enrolled)
      (sent : Bool) (now : ℕ)
      → Sound n q
      → Sound n (on_frame n q m stream packet ask sent now).0
  unfolding on_frame
  on_frame-Sound q m stream packet ask sent now h = elim (Option-cases (get q.sessions m.key)) [
    | inl absent ↦ rw (absent, on_frame) h
    | inr (s, found) ↦
        rw (found, on_frame)
          (if_cases (λ (r : Handled). Sound n r.0) (not (s.stream == stream) || q.stopping)
            (q, false) (take_frame n q m s packet ask sent now) (λ e. h)
            (λ e. take_frame-Sound q m s packet ask sent now h (session_of n q m.key s found h)))
  ]
