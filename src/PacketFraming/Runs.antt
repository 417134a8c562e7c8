-- ===== src/PacketFraming/Runs.antt =====
-- Tests and instances of the framing at concrete streams.
use kepos.Common.{ℕ, suc, zero, ◌≡◌, refl, true, false, none, List, [], ◌∷◌, ◌++◌, arith, All}
use kepos.Common.Outcome.{done, thrown, Run}
use kepos.Framing.{receive_frames}
use kepos.Framing.Stream.{stream}
use kepos.Framing.Chunks.{receive_frames-stream}
use kepos.PacketFraming.{
  VpnError, truncated_frame, invalid_frame_length, packet_protocol, receive, encode, fresh, send,
  after_write, drain, close, settle,
}
use kepos.PacketFraming.Receiving.{IsPacket, receive_truncated}
use kepos.PacketFraming.Bounds.{Leaves, receive-Leaves}
use kepos.PacketFraming.Sending.{call, event, receive-run, one_at_a_time, send_iff, reached}

-- `deliver` that keeps the packets, oldest first.
abbrev keep : List ℕ → Run VpnError (List (List ℕ)) (Unit {0})
keep packet seen = done tt (seen ++ packet ∷ [])

abbrev repeat : ℕ → ℕ → List ℕ
repeat zero b = []
repeat (suc n) b = b ∷ repeat n b

abbrev first : List ℕ
first = repeat 20 7

abbrev second : List ℕ
second = repeat 21 9

-- A header that is cut in two, and two frames in one chunk.
abbrev pieces : List (List ℕ)
pieces = (0 ∷ []) ∷ (20 ∷ 7 ∷ []) ∷ (repeat 19 7 ++ 0 ∷ 21 ∷ 9 ∷ []) ∷ repeat 20 9 ∷ []

loop : Unit {0}
unfolding receive receive_frames
loop = tt

receive-pieces :
    receive keep pieces none []
    ≡ record { outcome = done tt (first ∷ second ∷ []); destroyed = false }
unfolding loop
receive-pieces = refl

receive-short :
    receive keep ((0 ∷ 20 ∷ 7 ∷ []) ∷ []) none []
    ≡ record { outcome = thrown truncated_frame []; destroyed = true }
unfolding loop
receive-short = refl

receive-bad :
    receive keep ((0 ∷ 19 ∷ []) ∷ []) none []
    ≡ record { outcome = thrown invalid_frame_length []; destroyed = true }
unfolding loop
receive-bad = refl

receive_frames-stream_example :
    receive_frames (packet_protocol keep) pieces none []
    ≡ stream (packet_protocol keep) none (encode first ++ encode second) []
receive_frames-stream_example = receive_frames-stream (packet_protocol keep) none pieces []

receive_truncated_example :
    receive keep ((encode first ++ 0 ∷ 21 ∷ []) ∷ []) none []
    ≡ record { outcome = thrown truncated_frame (first ∷ []); destroyed = true }
receive_truncated_example =
    receive_truncated keep (first ∷ []) ((encode first ++ 0 ∷ 21 ∷ []) ∷ []) second (0 ∷ 21 ∷ [])
      (repeat 20 9) 9 [] (omega arith) (omega arith) (λ e. cc) refl refl

receive-Leaves_example : Leaves (All IsPacket) (receive keep pieces none []).outcome
receive-Leaves_example = receive-Leaves keep (All IsPacket) keeps pieces none [] tt
  where
    keeps :
        (packet : List ℕ) (s : List (List ℕ))
        → IsPacket packet
        → All IsPacket s
        → All IsPacket (s ++ packet ∷ [])
    keeps packet [] h k = (h, tt)
    keeps packet (x ∷ xs) h k = (k.0, keeps packet xs h k.1)

send_iff_example : reached (send fresh first false false).1 ≡ true
send_iff_example = (send_iff fresh first false false).0.1 (omega arith, refl, refl)

receive-run_example :
    receive keep pieces none []
    ≡ record { outcome = done tt (first ∷ second ∷ []); destroyed = false }
unfolding send after_write settle
receive-run_example =
    receive-run keep
      (call first false false ∷ call first true false ∷ event drain ∷ call second true false ∷ [])
      pieces [] refl

one_at_a_time_example : (settle (send fresh first false false).0 close).0.writing ≡ false
unfolding send after_write
one_at_a_time_example = (one_at_a_time fresh first false false close refl).1
