-- ===== src/PacketFraming/Receiving.antt =====
-- What `receive` makes of a stream of frames, and of any stream.
use kepos.Common.{
  ℕ, ◌+◌, ◌*◌, ◌/◌, ◌%◌, ◌≤◌, ◌≡◌, ◌≢◌, refl, sym, ap, ◌∙◌, true, false, Option, none, List, [],
  ◌∷◌, ◌++◌, map, append_assoc, append-nil, arith, ltb, lt→ltb, length, length-append, concat, All,
}
use kepos.Common.Outcome.{
  Run, ◌>>=◌, return, throw, and_then, and_then_assoc, and_then_congr, Ensures-true,
  and_then-return,
}
use kepos.Framing.Stream.{stream, cut, stream_header, payload_full}
use kepos.Framing.Chunks.{receive_frames-stream}
use kepos.PacketFraming.{
  VpnError, truncated_frame, bad_length, packet_protocol, receive, encode, close_on_error,
}

abbrev pub IsPacket : List ℕ → Type 0
IsPacket packet = (20 ≤ length packet) × (length packet ≤ 1400)

-- Handing packets to `deliver` one by one, until it throws.
abbrev pub deliver_all :
    {S : Type 0} → (List ℕ → Run VpnError S (Unit {0})) → List (List ℕ) → Run VpnError S (Unit {0})
deliver_all deliver [] = return tt
deliver_all deliver (x ∷ xs) = deliver x >>= λ _. deliver_all deliver xs

module _ {S : Type 0} (deliver : List ℕ → Run VpnError S (Unit {0}))
    (failure : Option VpnError) where
  abbrev pub packet_stream : List ℕ → Run VpnError S (Unit {0})
  packet_stream = stream (packet_protocol deliver) failure

  stream-encode :
      (packet rest : List ℕ) (s : S)
      → IsPacket packet
      → packet_stream (encode packet ++ rest) s ≡ (deliver packet >>= λ _. packet_stream rest) s
  stream-encode packet rest s h =
      let n = length packet in
      let joined : n / 256 * 256 + n % 256 ≡ n = omega arith in
      let good : bad_length n ≡ false = ground arith in
      stream_header (packet_protocol deliver) failure (n / 256 ∷ n % 256 ∷ []) (packet ++ rest) s
        refl
      ∙ rw joined (
          rw good
            (payload_full (packet_protocol deliver) failure packet_stream packet rest n s refl))

  -- A stream that begins with whole frames.
  pub stream-encode-All :
      (packets : List (List ℕ)) (rest : List ℕ) (s : S)
      → All IsPacket packets
      → packet_stream (concat (map encode packets) ++ rest) s
        ≡ (deliver_all deliver packets >>= λ _. packet_stream rest) s
  stream-encode-All [] rest s h = refl
  stream-encode-All (x ∷ xs) rest s (h, hs) =
      ap (λ b. packet_stream b s) (append_assoc (encode x) (concat (map encode xs)) rest)
      ∙ stream-encode x (concat (map encode xs) ++ rest) s h
      ∙ and_then_congr (λ _. Unit {0}) (deliver x s) _ _ (Ensures-true (deliver x s))
          (λ _ t _. stream-encode-All xs rest t hs)
      ∙ sym (and_then_assoc (deliver x s) (λ _. deliver_all deliver xs) _)

  -- A frame that lacks its last bytes.
  stream_cut :
      (packet front back : List ℕ) (b : ℕ) (s : S)
      → IsPacket packet
      → front ≢ []
      → encode packet ≡ front ++ (b ∷ back)
      → packet_stream front s ≡ cut (packet_protocol deliver) failure s
  unfolding stream
  stream_cut packet [] back b s h n e = absurd (n refl)
  stream_cut packet (x ∷ []) back b s h n e = refl
  stream_cut packet (x ∷ y ∷ front) back b s h n e =
      let size = length packet in
      let high : x ≡ size / 256 = cc in
      let low : y ≡ size % 256 = cc in
      let tail : packet ≡ front ++ (b ∷ back) = cc in
      let joined : x * 256 + y ≡ size = omega arith in
      let good : bad_length size ≡ false = ground arith in
      let short : ltb (length front) size ≡ true =
        lt→ltb _ _ (omega (arith, ap length tail, length-append front (b ∷ back))) in
      stream_header (packet_protocol deliver) failure (x ∷ y ∷ []) front s refl
      ∙ rw joined (rw good (rw short))

module _ {S : Type 0} (deliver : List ℕ → Run VpnError S (Unit {0})) where
  -- A stream of whole frames, cut into chunks in any way, is delivered packet by packet; the
  -- streams are destroyed exactly if `deliver` threw.
  pub receive-encode-All :
      (packets chunks : List (List ℕ)) (s : S)
      → All IsPacket packets
      → concat chunks ≡ concat (map encode packets)
      → receive deliver chunks none s ≡ close_on_error (deliver_all deliver packets s)
  unfolding receive stream
  receive-encode-All packets chunks s h e = ap close_on_error (
      receive_frames-stream (packet_protocol deliver) none chunks s
      ∙ ap (λ b. packet_stream deliver none b s) (e ∙ sym (append-nil _))
      ∙ stream-encode-All deliver none packets [] s h
      ∙ and_then-return (deliver_all deliver packets s))

  -- A stream that ends inside a frame: the packets before it are delivered, then `receive` throws.
  pub receive_truncated :
      (packets chunks : List (List ℕ)) (packet front back : List ℕ) (b : ℕ) (s : S)
      → All IsPacket packets
      → IsPacket packet
      → front ≢ []
      → encode packet ≡ front ++ (b ∷ back)
      → concat chunks ≡ concat (map encode packets) ++ front
      → receive deliver chunks none s
        ≡ close_on_error (and_then (deliver_all deliver packets s) (λ _. throw truncated_frame))
  unfolding receive
  receive_truncated packets chunks packet front back b s h k n e c = ap close_on_error (
      receive_frames-stream (packet_protocol deliver) none chunks s
      ∙ ap (λ b. packet_stream deliver none b s) c
      ∙ stream-encode-All deliver none packets front s h
      ∙ and_then_congr (λ _. Unit {0}) (deliver_all deliver packets s) _ _
          (Ensures-true (deliver_all deliver packets s))
          (λ _ t _. stream_cut deliver none packet front back b t k n e))
