-- ===== src/Policy/Runs.antt =====
-- Tests and instances of the policy at concrete packets.
use kepos.Common.{
  ℕ, ◌≡◌, ◌↔◌, ◌<◌, ◌+◌, ◌%◌, sym, ap, ◌∙◌, unsome, refl, inl, inr, true, false, none, some, List,
  [], ◌∷◌, arith,
}
use kepos.Common.Text.{Text, codes, decimal, join_dots, text_eq, text_eq_iff}
use mathlib.Core.Bool.{false≢true}
use kepos.Policy.Preservation.{admit-Inv}
use kepos.Packet.{Packet, ipv4, address, checksum}
use kepos.Packet.Checksum.{words, checksum_iff}
use kepos.Policy.Table.{incoming, outgoing, Flow, find, put, stale}
use kepos.Policy.Tcp.{Segment, segment, tuple}
use kepos.Policy.Handshake.{await_reply, await_ack, advance, account, note_ack, note_fin, closes}
use kepos.Policy.State.{only, Policy, create, sweep}
use kepos.Policy.{
  make_room, evict, new_flow, open_flow, keep_flow, follow, track, icmp_key, admit_tcp, dispatch,
  admit,
}
use kepos.Policy.Invariant.{Inv, create-Inv}
use kepos.Packet.Wellformed.{IsWellformed}
use kepos.Policy.Authority.{admits, clears, run, run-Inv, Grounds, admit-Grounds}
use kepos.Policy.Opening.{Reads, handshake_establishes}
use kepos.Policy.Isolation.{IsAbout, admit_isolates}

-- From 10.0.0.2, the peer, to 10.0.0.1: a SYN from port 5000 to port 22; the answer; and the ACK.
abbrev pub syn : List ℕ
syn =
    69 ∷ 0 ∷ 0 ∷ 40 ∷ 0 ∷ 0 ∷ 64 ∷ 0 ∷ 64 ∷ 6 ∷ 38 ∷ 206 ∷ 10 ∷ 0 ∷ 0 ∷ 2 ∷ 10 ∷ 0 ∷ 0 ∷ 1 ∷ 19
    ∷ 136 ∷ 0 ∷ 22 ∷ 0 ∷ 0 ∷ 0 ∷ 7 ∷ 0 ∷ 0 ∷ 0 ∷ 0 ∷ 80 ∷ 2 ∷ 1 ∷ 0 ∷ 135 ∷ 59 ∷ 0 ∷ 0 ∷ []

abbrev syn_ack : List ℕ
syn_ack =
    69 ∷ 0 ∷ 0 ∷ 40 ∷ 0 ∷ 0 ∷ 64 ∷ 0 ∷ 64 ∷ 6 ∷ 38 ∷ 206 ∷ 10 ∷ 0 ∷ 0 ∷ 1 ∷ 10 ∷ 0 ∷ 0 ∷ 2 ∷ 0 ∷ 22
    ∷ 19 ∷ 136 ∷ 0 ∷ 0 ∷ 0 ∷ 9 ∷ 0 ∷ 0 ∷ 0 ∷ 8 ∷ 80 ∷ 18 ∷ 1 ∷ 0 ∷ 135 ∷ 33 ∷ 0 ∷ 0 ∷ []

abbrev ack : List ℕ
ack =
    69 ∷ 0 ∷ 0 ∷ 40 ∷ 0 ∷ 0 ∷ 64 ∷ 0 ∷ 64 ∷ 6 ∷ 38 ∷ 206 ∷ 10 ∷ 0 ∷ 0 ∷ 2 ∷ 10 ∷ 0 ∷ 0 ∷ 1 ∷ 19
    ∷ 136 ∷ 0 ∷ 22 ∷ 0 ∷ 0 ∷ 0 ∷ 8 ∷ 0 ∷ 0 ∷ 0 ∷ 10 ∷ 80 ∷ 16 ∷ 1 ∷ 0 ∷ 135 ∷ 34 ∷ 0 ∷ 0 ∷ []

-- The same SYN from 10.0.0.3, and a SYN from this side to port 80.
abbrev spoofed : List ℕ
spoofed =
    69 ∷ 0 ∷ 0 ∷ 40 ∷ 0 ∷ 0 ∷ 64 ∷ 0 ∷ 64 ∷ 6 ∷ 38 ∷ 205 ∷ 10 ∷ 0 ∷ 0 ∷ 3 ∷ 10 ∷ 0 ∷ 0 ∷ 1 ∷ 19
    ∷ 136 ∷ 0 ∷ 22 ∷ 0 ∷ 0 ∷ 0 ∷ 7 ∷ 0 ∷ 0 ∷ 0 ∷ 0 ∷ 80 ∷ 2 ∷ 1 ∷ 0 ∷ 135 ∷ 58 ∷ 0 ∷ 0 ∷ []

abbrev outbound : List ℕ
outbound =
    69 ∷ 0 ∷ 0 ∷ 40 ∷ 0 ∷ 0 ∷ 64 ∷ 0 ∷ 64 ∷ 6 ∷ 38 ∷ 206 ∷ 10 ∷ 0 ∷ 0 ∷ 1 ∷ 10 ∷ 0 ∷ 0 ∷ 2 ∷ 15
    ∷ 160 ∷ 0 ∷ 80 ∷ 0 ∷ 0 ∷ 0 ∷ 7 ∷ 0 ∷ 0 ∷ 0 ∷ 0 ∷ 80 ∷ 2 ∷ 1 ∷ 0 ∷ 138 ∷ 233 ∷ 0 ∷ 0 ∷ []

abbrev ssh_only : Policy
ssh_only = create (codes "10.0.0.1") (codes "10.0.0.2") (only (22 ∷ [])) true

unfoldable pub running : Unit {0}
unfolding decimal join_dots admit dispatch admit_tcp segment ipv4 checksum address track open_flow
    make_room evict follow keep_flow advance await_reply await_ack account note_ack note_fin closes
    sweep create find put
running = tt

handshake_passes :
    (let r₁ = admit ssh_only syn incoming 5 in
      let r₂ = admit r₁.policy syn_ack outgoing 6 in
      let r₃ = admit r₂.policy ack incoming 7 in
      (r₁.admitted ≡ true) × (r₂.admitted ≡ true) × (r₃.admitted ≡ true))
unfolding running
handshake_passes = (refl, refl, refl)

spoof_is_reported :
    ((admit ssh_only spoofed incoming 5).admitted ≡ false)
    × ((admit ssh_only spoofed incoming 5).mismatch ≡ true)
unfolding running
spoof_is_reported = (refl, refl)

checksum_iff_example : (checksum (0x12 ∷ 0x34 ∷ 0xed ∷ []) 0xcb ≡ 0xffff) ↔ (
    (0 < 0xcb + words (0x12 ∷ 0x34 ∷ 0xed ∷ []))
    × ((0xcb + words (0x12 ∷ 0x34 ∷ 0xed ∷ [])) % 65535 ≡ 0))
checksum_iff_example =
    checksum_iff (0x12 ∷ 0x34 ∷ 0xed ∷ []) 0xcb (omega arith) (omega arith) (omega arith)

run-Inv_example :
    Inv
      (only (22 ∷ []))
      true
      (run ssh_only (admits syn incoming 5 ∷ clears ∷ admits outbound outgoing 9 ∷ []))
run-Inv_example =
    run-Inv (codes "10.0.0.1") (codes "10.0.0.2") (only (22 ∷ [])) true
      (admits syn incoming 5 ∷ clears ∷ admits outbound outgoing 9 ∷ [])

ssh_only-Inv : Inv (only (22 ∷ [])) true ssh_only
ssh_only-Inv = create-Inv (codes "10.0.0.1") (codes "10.0.0.2") (only (22 ∷ [])) true

admit-Grounds_example :
    (packet : Packet) × (ipv4 syn ≡ some packet)
    × IsWellformed syn packet
    × (packet.source ≡ codes "10.0.0.2")
    × (packet.destination ≡ codes "10.0.0.1")
    × Grounds (only (22 ∷ [])) true (sweep ssh_only 5) packet
unfolding running
admit-Grounds_example = admit-Grounds ssh_only syn 5 ssh_only-Inv refl

abbrev a_segment : Segment
a_segment = record {
  key = tuple 22 5000;
  destination_port = 22;
  syn = true;
  ack = false;
  rst = false;
  fin = false;
  sequence = 7;
  acknowledged = 0;
  length = 20;
  offset = 20;
}

-- The packets of the three segments.
abbrev tcp_packet : List ℕ → Text → Text → Packet
tcp_packet bytes source destination = record {
  source = source;
  destination = destination;
  protocol = 6;
  header = 20;
  bytes = bytes;
}

abbrev answer_segment : Segment
answer_segment = record a_segment {
  destination_port = 5000;
  ack = true;
  sequence = 9;
  acknowledged = 8;
}

abbrev last_segment : Segment
last_segment = record a_segment { syn = false; ack = true; sequence = 8; acknowledged = 10 }

syn-Reads : Reads ssh_only syn incoming a_segment
unfolding running
syn-Reads = (tcp_packet syn (codes "10.0.0.2") (codes "10.0.0.1"), refl, refl, refl, refl, refl)

syn_ack-Reads : Reads ssh_only syn_ack outgoing answer_segment
unfolding running
syn_ack-Reads =
    (tcp_packet syn_ack (codes "10.0.0.1") (codes "10.0.0.2"), refl, refl, refl, refl, refl)

ack-Reads : Reads ssh_only ack incoming last_segment
unfolding running
ack-Reads = (tcp_packet ack (codes "10.0.0.2") (codes "10.0.0.1"), refl, refl, refl, refl, refl)

handshake_establishes_example :
    let r₁ = admit ssh_only syn incoming 5 in
    let r₂ = admit r₁.policy syn_ack outgoing 299_000 in
    let r₃ = admit r₂.policy ack incoming 598_000 in
    (r₁.admitted ≡ true)
    × (r₂.admitted ≡ true)
    × (r₃.admitted ≡ true)
    × ((f : Flow) × (find (tuple 22 5000) r₃.policy.flows ≡ some f) × (f.established ≡ true))
unfolding create find
handshake_establishes_example =
    handshake_establishes ssh_only syn syn_ack ack a_segment answer_segment last_segment incoming 5
      299_000 598_000 syn-Reads syn_ack-Reads ack-Reads refl refl refl (omega arith)
      (refl, refl, refl) (refl, refl, refl, refl, refl) (refl, refl, refl, refl, refl, refl)
      (omega arith) (omega arith)

-- An answer that comes after five minutes is refused.
late_answer :
    (admit (admit ssh_only syn incoming 5).policy syn_ack outgoing 300_005).admitted ≡ false
unfolding running stale
late_answer = refl

-- A table with one flow, and a packet that opens another.
abbrev one_flow : Policy
one_flow = (admit ssh_only syn incoming 5).policy

abbrev its_flow : Flow
its_flow = new_flow a_segment incoming 5

abbrev its_packet : Packet
its_packet = record {
  source = codes "10.0.0.1";
  destination = codes "10.0.0.2";
  protocol = 6;
  header = 20;
  bytes = outbound;
}

its_segment : Segment
its_segment = record a_segment { key = tuple 4000 80; destination_port = 80 }

outbound_read :
    (ipv4 outbound ≡ some its_packet)
    × (segment its_packet outgoing ≡ some its_segment)
    × (icmp_key (sweep one_flow 9) its_packet outgoing ≡ none)
    × (text_eq its_segment.key (tuple 22 5000) ≡ false)
unfolding running its_segment icmp_key
outbound_read = (refl, refl, refl, refl)

outbound_elsewhere : ¬ IsAbout (sweep one_flow 9) outbound outgoing (tuple 22 5000)
outbound_elsewhere (packet, is, about) =
    let same : its_packet ≡ packet = unsome (sym outbound_read.0 ∙ is) in
    elim about [
      | inl (s, e, named) ↦
          let its : its_segment ≡ s =
            unsome (sym outbound_read.1 ∙ ap (λ p. segment p outgoing) same ∙ e) in
          let hit : text_eq its_segment.key (tuple 22 5000) ≡ true =
            (text_eq_iff its_segment.key (tuple 22 5000)).1 (ap (λ x. x.key) its ∙ named) in
          false≢true (sym outbound_read.3 ∙ hit)
      | inr e ↦
          let hit : none ≡ some (tuple 22 5000) =
            sym outbound_read.2 ∙ ap (λ p. icmp_key (sweep one_flow 9) p outgoing) same ∙ e in
          absurd (cc)
    ]

admit_isolates_example :
    find (tuple 22 5000) (admit one_flow outbound outgoing 9).policy.flows ≡ some its_flow
unfolding running stale
admit_isolates_example =
    admit_isolates (tuple 22 5000) its_flow one_flow outbound outgoing 9
      (admit-Inv syn incoming 5 ssh_only-Inv) refl refl refl outbound_elsewhere
