-- ===== src/WorkletFraming/Messages.antt =====
-- What `receive` makes of a stream of frames.
use kepos.Common.{
  ℕ, ◌+◌, ◌*◌, ◌/◌, ◌%◌, ◌≤◌, ◌≡◌, refl, ap, ◌∙◌, false, none, List, [], ◌∷◌, ◌++◌, arith, length,
  concat, All,
}
use kepos.Common.Outcome.{Run, ◌>>=◌, return, and_then_congr, Ensures-true}
use kepos.Framing.Stream.{stream, stream_header, payload_full}
use kepos.Framing.Chunks.{receive_frames-stream}
use kepos.WorkletFraming.{
  IpcError, bad_kind, bad_length, ipc_protocol, hand_over, receive, encode, ipc_max_frame,
}

-- A kind and a payload that `send` accepts.
unfoldable pub IsMessage : ℕ × List ℕ → Type 0
IsMessage (kind, payload) = (bad_kind kind ≡ false) × (length payload + 1 ≤ ipc_max_frame)

abbrev pub frames : List (ℕ × List ℕ) → List ℕ
frames [] = []
frames ((kind, payload) ∷ later) = encode kind payload ++ frames later

abbrev pub deliver_all :
    {S : Type 0}
    → (ℕ → List ℕ → Run IpcError S (Unit {0}))
    → List (ℕ × List ℕ)
    → Run IpcError S (Unit {0})
deliver_all deliver [] = return tt
deliver_all deliver ((kind, payload) ∷ later) =
    deliver kind payload >>= λ _. deliver_all deliver later

module _ {S : Type 0} (deliver : ℕ → List ℕ → Run IpcError S (Unit {0})) where
  stream-encode :
      (kind : ℕ) (payload rest : List ℕ) (s : S)
      → IsMessage (kind, payload)
      → stream (ipc_protocol deliver) none (encode kind payload ++ rest) s
        ≡ (deliver kind payload >>= λ _. stream (ipc_protocol deliver) none rest) s
  unfolding hand_over IsMessage
  stream-encode kind payload rest s (known, short) =
      let n = length payload + 1 in
      let joined : n / 256 * 256 + n % 256 ≡ n = omega arith in
      let good : bad_length n ≡ false = ground arith in
      stream_header (ipc_protocol deliver) none (n / 256 ∷ n % 256 ∷ []) (kind ∷ payload ++ rest) s
        refl
      ∙ rw joined (
          rw good (
            payload_full (ipc_protocol deliver) none (stream (ipc_protocol deliver) none)
              (kind ∷ payload) rest n s (omega arith)
            ∙ rw known refl))

  stream-frames :
      (messages : List (ℕ × List ℕ)) (s : S)
      → All IsMessage messages
      → stream (ipc_protocol deliver) none (frames messages) s ≡ deliver_all deliver messages s
  unfolding stream
  stream-frames [] s h = refl
  stream-frames ((kind, payload) ∷ later) s (h, hs) =
      stream-encode kind payload (frames later) s h
      ∙ and_then_congr (λ _. Unit {0}) (deliver kind payload s) _ _
          (Ensures-true (deliver kind payload s)) (λ _ t _. stream-frames later t hs)

-- A stream of frames that `send` builds, cut into chunks in any way, is handed to `deliver` message by
-- message, with the kinds and payloads of the calls, until `deliver` throws.
pub receive-frames :
    {S : Type 0} (deliver : ℕ → List ℕ → Run IpcError S (Unit {0})) (messages : List (ℕ × List ℕ))
    (chunks : List (List ℕ)) (s : S)
    → All IsMessage messages
    → concat chunks ≡ frames messages
    → receive deliver chunks none s ≡ deliver_all deliver messages s
unfolding receive
receive-frames deliver messages chunks s h e =
    receive_frames-stream (ipc_protocol deliver) none chunks s
    ∙ ap (λ b. stream (ipc_protocol deliver) none b s) e
    ∙ stream-frames deliver messages s h
