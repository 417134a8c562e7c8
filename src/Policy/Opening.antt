-- ===== src/Policy/Opening.antt =====
-- The three packets that open a connection pass, and establish the flow.
use kepos.Common.{
  ℕ, ◌+◌, ◌≡◌, ◌<◌, refl, sym, ◌∙◌, ap, not, ◌||◌, true, false, none, some, List, arith, length,
  if_false,
}
use kepos.Common.Text.{text_eq, text_eq_iff}
use kepos.Packet.{Packet, ipv4}
use kepos.Policy.Table.{Direction, incoming, outgoing, Flow, Flows, find, put, stale}
use kepos.Policy.Tcp.{Segment, segment}
use kepos.Policy.State.{Policy, sweep, source_of, opposite, ungranted, forbidden}
use kepos.Policy.State.Sweep.{
  sweep-source, sweep-ungranted, sweep-forbidden, sweep-room, sweep-absent,
}
use kepos.Policy.{track, admit, dispatch, admit_tcp, plain}
use kepos.Policy.Isolation.{sweep-Has}
use kepos.Policy.Tracking.{
  IsSyn, IsSynAck, IsAck, track-open, find_written, began, answered, track-answer, track-finish,
}

-- The bytes are a packet between the two addresses, in this direction, that holds the segment.
abbrev pub Reads : Policy → List ℕ → Direction → Segment → Type 0
Reads q bytes d s =
    (packet : Packet) × (ipv4 bytes ≡ some packet)
    × (packet.source ≡ source_of q d)
    × (packet.destination ≡ source_of q (opposite d))
    × (packet.protocol ≡ 6)
    × (segment packet d ≡ some s)

admit-track :
    (q : Policy) (bytes : List ℕ) (d : Direction) (s : Segment) (now : ℕ)
    → Reads q bytes d s
    → admit q bytes d now ≡ plain (track (sweep q now) s d now)
unfolding admit dispatch admit_tcp
admit-track q bytes d s now (packet, is, from, to, tcp, reads) =
    let source : text_eq packet.source (source_of q d) ≡ true =
      (text_eq_iff packet.source (source_of q d)).1 from in
    let destination : text_eq packet.destination (source_of q (opposite d)) ≡ true =
      (text_eq_iff packet.destination (source_of q (opposite d))).1 to in
    rw (is, admit)
      (if_false
          (not (text_eq packet.source (source_of q d))
            || not (text_eq packet.destination (source_of q (opposite d))))
          _ _ (ground arith)
        ∙ ap plain (read (sweep q now)))
  where
    tcp_read : (p : Policy) → admit_tcp p packet d now ≡ track p s d now
    tcp_read p = rw (reads, admit_tcp) refl

    read : (p : Policy) → dispatch p packet d now ≡ track p s d now
    read p = ground (arith, tcp_read p)

written-source :
    (q : Policy) (m : Flows) (d : Direction) → source_of (record q { flows = m }) d ≡ source_of q d
written-source q m incoming = refl
written-source q m outgoing = refl

-- A policy with the same addresses reads the same.
moved :
    (q q' : Policy) (bytes : List ℕ) (d : Direction) (s : Segment)
    → ((e : Direction) → source_of q' e ≡ source_of q e)
    → Reads q bytes d s
    → Reads q' bytes d s
moved q q' bytes d s same (packet, is, from, to, tcp, reads) =
    (packet, is, from ∙ sym (same d), to ∙ sym (same (opposite d)), tcp, reads)

-- A policy lets in a SYN, for a key with no flow and with room in the table. If the next packets are the
-- answer with SYN and ACK and the final ACK, their numbers fit, and each comes less than five minutes
-- after the one before, then `admit` lets all three through, and they leave an established flow under
-- the key.
pub handshake_establishes :
    (q : Policy) (b₁ b₂ b₃ : List ℕ) (first second third : Segment) (d : Direction) (t₁ t₂ t₃ : ℕ)
    → Reads q b₁ d first
    → Reads q b₂ (opposite d) second
    → Reads q b₃ d third
    → find first.key q.flows ≡ none
    → forbidden q d ≡ false
    → ungranted q first d ≡ false
    → length q.flows < 4096
    → IsSyn first
    → IsSynAck first second
    → IsAck first second third
    → t₂ < t₁ + 300_000
    → t₃ < t₂ + 300_000
    → let r₁ = admit q b₁ d t₁ in
      let r₂ = admit r₁.policy b₂ (opposite d) t₂ in
      let r₃ = admit r₂.policy b₃ d t₃ in
      (r₁.admitted ≡ true)
      × (r₂.admitted ≡ true)
      × (r₃.admitted ≡ true)
      × ((f : Flow) × (find first.key r₃.policy.flows ≡ some f) × (f.established ≡ true))
unfolding stale
handshake_establishes q b₁ b₂ b₃ first second third d t₁ t₂ t₃ c₁ c₂ c₃ absent may granted room h₁
      h₂ h₃ soon₂ soon₃ =
    let q₀ = sweep q t₁ in
    let f₁ = began first second third d t₁ t₂ t₃ in
    let q₁ = record q₀ { flows = put first.key f₁ q₀.flows } in
    let smaller = sweep-room q t₁ in
    let e₁ : admit q b₁ d t₁ ≡ plain (q₁, true) =
      admit-track q b₁ d first t₁ c₁
      ∙ ap plain (
          track-open q₀ first d t₁ (sweep-absent q t₁ first.key absent) h₁
            (sweep-forbidden q t₁ d ∙ may) (sweep-ungranted q t₁ first d ∙ granted)
            (omega arith)) in
    let same₁ : (e : Direction) → source_of q₁ e ≡ source_of q e =
      λ e. written-source q₀ (put first.key f₁ q₀.flows) e ∙ sweep-source q t₁ e in
    let p₁ = sweep q₁ t₂ in
    let f₂ = answered first second third d t₁ t₂ t₃ in
    let q₂ = record p₁ { flows = put first.key f₂ p₁.flows } in
    let e₂ : admit q₁ b₂ (opposite d) t₂ ≡ plain (q₂, true) =
      admit-track q₁ b₂ (opposite d) second t₂ (moved q q₁ b₂ (opposite d) second same₁ c₂)
      ∙ ap plain (
          track-answer first second third d t₁ t₂ t₃ p₁
            (sweep-Has first.key f₁ q₁ t₂ (ground arith) (find_written first.key f₁ q₀.flows))
            h₂) in
    let same₂ : (e : Direction) → source_of q₂ e ≡ source_of q e =
      λ e. written-source p₁ (put first.key f₂ p₁.flows) e ∙ sweep-source q₁ t₂ e ∙ same₁ e in
    let p₂ = sweep q₂ t₃ in
    let e₃ : admit q₂ b₃ d t₃ ≡ plain (track p₂ third d t₃) =
      admit-track q₂ b₃ d third t₃ (moved q q₂ b₃ d third same₂ c₃) in
    let (passed, kept) =
      track-finish first second third d t₁ t₂ t₃ p₂
        (sweep-Has first.key f₂ q₂ t₃ (ground arith) (find_written first.key f₂ p₁.flows)) h₃ in
    rw e₁ (rw e₂ (rw e₃ (refl, refl, passed, kept)))
