-- ===== src/Engine/Traffic.antt =====
-- src/vpn/engine.ts: the sessions and their packets. Handlers of different streams interleave, so each
-- event is a step, and a write to the device has a second step for its end. An enrolment and the write
-- of its answer are one step. A stream is a number, and
-- the clock of the policies is an argument. The handler of a stream knows its peer and its session; a
-- session that is not, or no longer, in the map has nothing to do.
pub mod Known
pub mod Frames
pub mod State
pub mod Sessions
pub mod Genuine
mod Runs
use kepos.Common.{
  ℕ, suc, ◌/◌, Bool, true, false, not, ◌&&◌, ◌||◌, Option, none, some, List, [], ◌∷◌, ◌++◌, map,
  ltb, ◌==◌, if◌then◌else◌, length, take, drop,
}
use kepos.Common.Text.{Text, codes, text_eq}
use kepos.Common.Maps.{get, set, del, has_key}
use kepos.Invitation.{ascii, enrollment_prefix}
use kepos.Packet.{address}
use kepos.Policy.Table.{incoming, outgoing}
use kepos.Policy.State.{Ports, Policy, create, clear}
use kepos.Policy.{Verdict, admit}
use kepos.Engine.Enrolling.{Enrolled, Answer, Exchange, enroll}
use kepos.Engine.Traffic.State.{
  hello, Member, Network, Session, Traffic, emit, destroy, put, status, connected, timed_out,
  failed, packet_busy, source_mismatch, policy_rejected, policy_admitted,
}

-- The outcome of a handler: the state, and whether it threw.
abbrev pub Handled : Type 0
Handled = Traffic × Bool

-- A first frame that asks for an enrolment, of a peer that is known; `sent` says how the write of the
-- answer ends. A failed write leaves the stream to the end of the task.
pub enroll_known :
    Network → Traffic → Member → Session → List ℕ → (Text → Enrolled) → Bool → ℕ → Handled
enroll_known n q m s packet ask sent now =
    let x = enroll n.enrollment n.local_address n.local_key packet ask now q.rejection_logs in
    (
      record q {
        sessions = set q.sessions m.key (record s { first = false });
        answers = q.answers ++ (s.stream, x.answer) ∷ [];
        committed = if x.committed then suc q.committed else q.committed;
        rejection_logs = x.logs;
        ended = if sent then q.ended ++ s.stream ∷ [] else q.ended;
      },
      not sent,
    )

pub greet : Traffic → Member → Session → List ℕ → Handled
greet q m s packet =
    if not (text_eq packet hello) then (put q m.key (record s { first = false }), true) else (
      emit (emit (put q m.key (record s { first = false; ready = true })) (status m.key true))
          (connected m.label),
      false,
    )

pub mismatch_event : Bool → Traffic → Traffic
mismatch_event true q = emit q source_mismatch
mismatch_event false q = q

-- A packet of a session that is ready. The write to the device begins.
pub deliver : Traffic → Member → Session → List ℕ → ℕ → Handled
unfolding mismatch_event
deliver q m s packet now =
    if q.tun_writing || not q.device
    then (emit q packet_busy, false)
    else (let v = admit s.policy packet incoming now in
        let q' = mismatch_event v.mismatch (put q m.key (record s { policy = v.policy })) in
        if not v.admitted then (emit q' policy_rejected, false) else (
          record (emit q' policy_admitted) {
            tun_writing = true;
            to_device = q'.to_device ++ (m.key, packet) ∷ [];
          },
          false,
        ))

pub take_frame :
    Network → Traffic → Member → Session → List ℕ → (Text → Enrolled) → Bool → ℕ → Handled
unfolding enroll_known greet deliver
take_frame n q m s packet ask sent now =
    if s.first
    then (if n.enrollment && text_eq (ascii (take 20 packet)) enrollment_prefix
        then enroll_known n q m s packet ask sent now
        else greet q m s packet)
    else if not s.ready
    then (q, true)
    else deliver q m s packet now

-- The handler of a frame; `sent` is of the write that it may wait for.
unfoldable pub on_frame :
    Network → Traffic → Member → ℕ → List ℕ → (Text → Enrolled) → Bool → ℕ → Handled
unfolding take_frame
on_frame n q m stream packet ask sent now = elim (get q.sessions m.key) [
  | none ↦ (q, false)
  | some s ↦
      if not (s.stream == stream) || q.stopping
      then (q, false)
      else take_frame n q m s packet ask sent now
]

-- The write to the device ends, well or badly.
unfoldable pub on_written : Traffic → Traffic
on_written q = record q { tun_writing = false }

-- `session.ready`, of the session with this stream; one that has been let go is not ready.
abbrev pub is_ready : ℕ → Option Session → Bool
is_ready stream none = false
is_ready stream (some s) = s.stream == stream && s.ready

-- The end of a session's task with an error: the log, and the stream.
unfoldable pub on_failure : Traffic → Member → ℕ → Traffic
on_failure q m stream =
    let ready = is_ready stream (get q.sessions m.key) in
    destroy (if q.stopping then q else emit q (failed m.label ready)) stream

-- The end of a session's task at the end of its stream; `first` is the variable of its closure.
unfoldable pub on_end : Traffic → Member → ℕ → Bool → Traffic
unfolding on_failure
on_end q m stream first = if first then on_failure q m stream else destroy q stream

-- The timer of ten seconds, which a greeting or a close clears.
unfoldable pub on_timeout : Traffic → Member → ℕ → Traffic
on_timeout q m stream = elim (get q.sessions m.key) [
  | none ↦ q
  | some s ↦
      if not (s.stream == stream) || s.ready then q else destroy (emit q (timed_out m.label)) stream
]

-- The `close` event of a stream. Its session is the one in the map, or has been let go by `stop`.
unfoldable pub on_close : Traffic → Member → ℕ → Traffic
on_close q m stream = elim (get q.sessions m.key) [
  | none ↦ q
  | some s ↦
      if not (s.stream == stream)
      then q
      else (let q' = record q { sessions = del q.sessions m.key } in
          if s.ready then emit q' (status m.key false) else q')
]

-- `byAddress`: of members with one address, the last.
pub by_address : List Member → Text → Option Member
by_address [] a = none
by_address (m ∷ ms) a =
    let later = by_address ms a in
    elim later [ some k ↦ some k | none ↦ if text_eq m.address a then some m else none ]

abbrev pub head_or_zero : List ℕ → ℕ
head_or_zero [] = 0
head_or_zero (b ∷ bs) = b

pub send_out : Traffic → Member → Session → List ℕ → Bool → ℕ → Traffic
send_out q m s packet sent now =
    let v = admit s.policy packet outgoing now in
    let q' = put q m.key (record s { policy = v.policy }) in
    if not v.admitted
    then q'
    else if sent
    then record q' { to_peers = q'.to_peers ++ (s.stream, packet) ∷ [] }
    else record q' { destroyed = q'.destroyed ++ s.stream ∷ [] }

-- From the destination on.
pub route : Network → Traffic → List ℕ → Bool → ℕ → Traffic
unfolding by_address send_out
route n q packet sent now = elim (by_address n.members (address packet 16)) [
  | none ↦ q
  | some m ↦ elim (get q.sessions m.key) [
    | none ↦ q
    | some s ↦ if not s.ready then q else send_out q m s packet sent now
  ]
]

-- A packet of the device; `sent` says how the write to the peer ends.
unfoldable pub on_packet : Network → Traffic → List ℕ → Bool → ℕ → Traffic
unfolding route
on_packet n q packet sent now =
    if ltb (length packet) 20 || not (head_or_zero packet / 16 == 4)
    then q
    else route n q packet sent now

-- The loop of `stop` over the sessions.
pub part : List (Text × Session) → Traffic → Traffic
part [] q = q
part ((key, s) ∷ rest) q = part rest (if s.ready then emit q (status key false) else q)

unfoldable pub stop : Traffic → Traffic
unfolding part
stop q = if q.stopping then q else record (part q.sessions q) { stopping = true; sessions = [] }
