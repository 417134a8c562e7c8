-- ===== src/WorkletFraming.antt =====
-- src/vpn/worklet-framing.ts: the class WorkletFraming. A frame is its length in two bytes, a byte of
-- kind, and the payload. The chain of writes is a queue of jobs: the job at its head runs when the one
-- before it has ended, and then its counter goes back.
pub mod Messages
pub mod Queue
pub mod Actions
pub mod Order
mod Runs
use kepos.Common.{
  ℕ, ◌+◌, ◌-◌, ◌/◌, ◌%◌, Bool, true, false, not, ◌||◌, Option, none, some, List, [], ◌∷◌, ◌++◌, ltb,
  leb, ◌==◌, if◌then◌else◌, length, get_or, drop,
}
use kepos.Common.Outcome.{Run, throw}
use kepos.Framing.{Protocol, receive_frames}

abbrev pub ipc_control : ℕ
ipc_control = 1

abbrev pub ipc_packet : ℕ
ipc_packet = 2

abbrev pub ipc_max_frame : ℕ
ipc_max_frame = 32768

pub data IpcError : Type 0 where
  invalid_frame congested closed invalid_length unknown_kind truncated : IpcError
  foreign : ℕ → IpcError

-- `kind !== IPC_CONTROL && kind !== IPC_PACKET`
abbrev pub bad_kind : ℕ → Bool
bad_kind kind = not (kind == ipc_control || kind == ipc_packet)

abbrev pub bad_length : ℕ → Bool
bad_length n = ltb n 1 || ltb ipc_max_frame n

-- The check of the kind of a complete frame, and the call of `deliver`.
pub hand_over :
    {S : Type 0} → (ℕ → List ℕ → Run IpcError S (Unit {0})) → List ℕ → Run IpcError S (Unit {0})
hand_over deliver complete =
    if bad_kind (get_or complete 0 0)
    then throw unknown_kind
    else deliver (get_or complete 0 0) (drop 1 complete)

abbrev pub ipc_protocol :
    {S : Type 0} → (ℕ → List ℕ → Run IpcError S (Unit {0})) → Protocol IpcError S
ipc_protocol deliver = record {
  invalid = bad_length;
  invalid_length = invalid_length;
  truncated = truncated;
  deliver = hand_over deliver;
}

pub receive :
    {S : Type 0}
    → (ℕ → List ℕ → Run IpcError S (Unit {0}))
    → List (List ℕ)
    → Option IpcError
    → Run IpcError S (Unit {0})
receive deliver chunks failure = receive_frames (ipc_protocol deliver) chunks failure

abbrev pub encode : ℕ → List ℕ → List ℕ
encode kind payload = ((length payload + 1) / 256) ∷ ((length payload + 1) % 256) ∷ kind ∷ payload

pub record Job : Type 0 where
  pub frame : List ℕ
  pub diagnostic : Bool

-- `answers` has how the promises of `send` were settled, in order: a diagnostic has no answer.
-- `waiting` says that the frame at the head has been handed to `write` and waits for the stream.
pub record Writer : Type 0 where
  pub pending : ℕ
  pub diagnostic_pending : Bool
  pub jobs : List Job
  pub waiting : Bool
  pub written : List (List ℕ)
  pub destroyed : Bool
  pub answers : List (Option IpcError)

abbrev pub new_writer : Writer
new_writer = record {
  pending = 0;
  diagnostic_pending = false;
  jobs = [];
  waiting = false;
  written = [];
  destroyed = false;
  answers = [];
}

abbrev pub enqueue : Writer → Job → Writer
enqueue q job = record q { jobs = q.jobs ++ job ∷ [] }

-- The error is that of an immediate rejection.
pub send : Writer → ℕ → List ℕ → Writer × Option IpcError
send q kind payload =
    if bad_kind kind || ltb ipc_max_frame (length payload + 1)
    then (q, some invalid_frame)
    else if leb 32 q.pending
    then (q, some congested)
    else (
      enqueue (record q { pending = q.pending + 1 })
          (record { frame = encode kind payload; diagnostic = false }),
      none,
    )

abbrev pub refuses_diagnostic : Writer → List ℕ → Bool
refuses_diagnostic q payload =
    not (q.pending == 0)
    || q.diagnostic_pending
    || q.destroyed
    || ltb ipc_max_frame (length payload + 1)

pub send_diagnostic : Writer → List ℕ → Writer
send_diagnostic q payload =
    if refuses_diagnostic q payload
    then q
    else enqueue (record q { diagnostic_pending = true })
        (record { frame = encode ipc_control payload; diagnostic = true })

-- The job at the head has ended.
pub finish : Writer → Job → List Job → Option IpcError → Writer
finish q job rest answer =
    if job.diagnostic
    then record q { jobs = rest; waiting = false; diagnostic_pending = false }
    else record q {
      jobs = rest;
      waiting = false;
      pending = q.pending - 1;
      answers = q.answers ++ answer ∷ [];
    }

-- `write`: on a destroyed stream the job is rejected; else the frame goes out, and without room the
-- job waits, unless the stream is gone by then.
pub write_head : Writer → Job → List Job → (room gone : Bool) → Writer
unfolding finish
write_head q job rest room gone =
    if q.destroyed
    then finish q job rest (some closed)
    else let sent = record q { written = q.written ++ job.frame ∷ []; destroyed = gone } in
      if room
      then finish sent job rest none
      else if gone
      then finish sent job rest (some closed)
      else record sent { waiting = true }

-- The turn of the job at the head.
pub turn : Writer → (room gone : Bool) → Writer
unfolding write_head
turn q room gone = elim q.jobs [
  | [] ↦ q
  | job ∷ rest ↦ if q.waiting then q else write_head q job rest room gone
]

pub data StreamEvent : Type 0 where
  drain close : StreamEvent
  error : ℕ → StreamEvent

abbrev pub answer_of : StreamEvent → Option IpcError
answer_of drain = none
answer_of close = some closed
answer_of (error n) = some (foreign n)

abbrev pub destroys : StreamEvent → Bool
destroys drain = false
destroys _ = true

-- The handlers of the job that waits, if one does.
pub settle : Writer → StreamEvent → Writer
unfolding finish
settle q event =
    let q' = record q { destroyed = q.destroyed || destroys event } in
    elim q.jobs [
      | [] ↦ q'
      | job ∷ rest ↦ if q.waiting then finish q' job rest (answer_of event) else q'
    ]
