-- ===== src/WorkletFraming/Actions.antt =====
-- The calls and events of a writer, and what is not yet written.
use kepos.Common.{
  ℕ, ◌≡◌, Bool, true, false, Option, none, some, List, [], ◌∷◌, ◌++◌, map, if◌then◌else◌,
}
use kepos.WorkletFraming.{
  IpcError, Job, Writer, send, send_diagnostic, refuses_diagnostic, turn, settle, StreamEvent,
  encode, ipc_control,
}

pub data Action : Type 0 where
  sends : ℕ → List ℕ → Action
  reports : List ℕ → Action
  turns : (room gone : Bool) → Action
  settles : StreamEvent → Action

abbrev pub act : Writer → Action → Writer
act q (sends kind payload) = (send q kind payload).0
act q (reports payload) = send_diagnostic q payload
act q (turns room gone) = turn q room gone
act q (settles event) = settle q event

-- The frame that an action adds: that of a call of `send` without a rejection, or of a diagnostic.
abbrev pub accepted_of : Option IpcError → List ℕ → List (List ℕ)
accepted_of none frame = frame ∷ []
accepted_of (some e) frame = []

abbrev pub accepted : Writer → Action → List (List ℕ)
accepted q (sends kind payload) = accepted_of (send q kind payload).1 (encode kind payload)
accepted q (reports payload) =
    if refuses_diagnostic q payload then [] else encode ipc_control payload ∷ []
accepted q _ = []

abbrev pub run : Writer → List Action → Writer
run q [] = q
run q (a ∷ as') = run (act q a) as'

abbrev pub all_accepted : Writer → List Action → List (List ℕ)
all_accepted q [] = []
all_accepted q (a ∷ as') = accepted q a ++ all_accepted (act q a) as'

abbrev pub frames_of : List Job → List (List ℕ)
frames_of js = map (λ (j : Job). j.frame) js

abbrev pub rest_of : List Job → List Job
rest_of [] = []
rest_of (j ∷ js) = js

-- The frames of the jobs that are not yet handed to the stream.
abbrev pub unsent : Bool → List Job → List (List ℕ)
unsent true js = frames_of (rest_of js)
unsent false js = frames_of js

-- A job that waits is at the head of the queue.
abbrev pub Heads : Bool → List Job → Type 0
Heads true [] = ⊥
Heads true (j ∷ js) = Unit
Heads false js = Unit

pub record Ordered (q : Writer) (calls : List (List ℕ)) : Type 0 where
  pub rest : List (List ℕ)
  pub prefix : calls ≡ q.written ++ rest
  pub live : q.destroyed ≡ false → rest ≡ unsent q.waiting q.jobs
  pub heads : Heads q.waiting q.jobs
