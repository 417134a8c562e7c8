-- ===== src/WorkletFraming/Queue.antt =====
-- The bounds of the queue, and the order of what is written.
use kepos.Common.{
  ℕ, ◌+◌, ◌≤◌, ◌≡◌, refl, ap, ◌∙◌, Bool, true, false, not, ◌||◌, Option, none, some, List, [], ◌∷◌,
  ◌++◌, arith, ltb, leb, ◌==◌, length, if◌then◌else◌, if_cases,
}
use kepos.WorkletFraming.{
  IpcError, Job, Writer, send, send_diagnostic, turn, settle, write_head, finish, StreamEvent,
  encode, ipc_control, ipc_max_frame, bad_kind, destroys, answer_of, closed,
}

abbrev pub weight : Job → ℕ
weight job = if job.diagnostic then 0 else 1

-- The calls of `send` that have not ended, and the diagnostics.
abbrev pub normal : List Job → ℕ
normal [] = 0
normal (j ∷ js) = weight j + normal js

abbrev pub diagnostics : List Job → ℕ
diagnostics [] = 0
diagnostics (j ∷ js) = (if j.diagnostic then 1 else 0) + diagnostics js

abbrev pub one : Bool → ℕ
one b = if b then 1 else 0

pub record Counted (q : Writer) : Type 0 where
  pub pending : q.pending ≡ normal q.jobs
  pub few : q.pending ≤ 32
  pub diagnostic : one q.diagnostic_pending ≡ diagnostics q.jobs

normal-append : (xs ys : List Job) → normal (xs ++ ys) ≡ normal xs + normal ys
normal-append [] ys = omega arith
normal-append (j ∷ xs) ys = let rest = normal-append xs ys in omega arith

diagnostics-append : (xs ys : List Job) → diagnostics (xs ++ ys) ≡ diagnostics xs + diagnostics ys
diagnostics-append [] ys = omega arith
diagnostics-append (j ∷ xs) ys = let rest = diagnostics-append xs ys in omega arith

pub send-Counted :
    (q : Writer) (kind : ℕ) (payload : List ℕ) → Counted q → Counted (send q kind payload).0
unfolding send
send-Counted q kind payload h =
    let job : Job = record { frame = encode kind payload; diagnostic = false } in
    let more = normal-append q.jobs (job ∷ []) in
    let same = diagnostics-append q.jobs (job ∷ []) in
    let count = h.pending in
    let diagnostic = h.diagnostic in
    if_cases (λ (r : Writer × Option IpcError). Counted r.0)
      (bad_kind kind || ltb ipc_max_frame (length payload + 1)) _ _ (λ e. h)
      (λ e.
        if_cases (λ (r : Writer × Option IpcError). Counted r.0) (leb 32 q.pending) _ _ (λ e. h)
          (λ e. record { pending = omega arith; few = ground arith; diagnostic = omega arith }))

pub send_diagnostic-Counted :
    (q : Writer) (payload : List ℕ) → Counted q → Counted (send_diagnostic q payload)
unfolding send_diagnostic
send_diagnostic-Counted q payload h =
    let job : Job = record { frame = encode ipc_control payload; diagnostic = true } in
    let more = normal-append q.jobs (job ∷ []) in
    let same = diagnostics-append q.jobs (job ∷ []) in
    let count = h.pending in
    let old = h.diagnostic in
    if_cases Counted
      (not (q.pending == 0)
        || q.diagnostic_pending
        || q.destroyed
        || ltb ipc_max_frame (length payload + 1))
      _ _ (λ e. h)
      (λ e.
        let none_yet : q.diagnostic_pending ≡ false = ground arith in
        record {
          pending = omega arith;
          few = h.few;
          diagnostic = let before : 0 ≡ diagnostics q.jobs = rw none_yet at old in omega arith;
        })

one_bound : (b : Bool) → one b ≤ 1
one_bound true = omega arith
one_bound false = omega arith

finish-Counted :
    (q : Writer) (job : Job) (rest : List Job) (answer : Option IpcError)
    → q.pending ≡ weight job + normal rest
    → q.pending ≤ 32
    → one q.diagnostic_pending ≡ one job.diagnostic + diagnostics rest
    → Counted (finish q job rest answer)
unfolding finish
finish-Counted q job rest answer p few d =
    let at_most = one_bound q.diagnostic_pending in
    if_cases Counted job.diagnostic _ _
      (λ e.
        let p' : q.pending ≡ 0 + normal rest = rw e at p in
        let d' : one q.diagnostic_pending ≡ 1 + diagnostics rest = rw e at d in
        record { pending = omega arith; few = few; diagnostic = omega arith })
      (λ e.
        let p' : q.pending ≡ 1 + normal rest = rw e at p in
        let d' : one q.diagnostic_pending ≡ 0 + diagnostics rest = rw e at d in
        record { pending = omega arith; few = omega arith; diagnostic = omega arith })

pub turn-Counted : (q : Writer) (room gone : Bool) → Counted q → Counted (turn q room gone)
unfolding turn write_head
turn-Counted q room gone h = go q.jobs refl
  where
    go : (js : List Job) → q.jobs ≡ js → Counted (turn q room gone)
    go [] e = rw (e, turn) h
    go (job ∷ rest) e =
        let p : q.pending ≡ weight job + normal rest = h.pending ∙ ap normal e in
        let d : one q.diagnostic_pending ≡ one job.diagnostic + diagnostics rest =
          h.diagnostic ∙ ap diagnostics e in
        let sent : Writer = record q { written = q.written ++ job.frame ∷ []; destroyed = gone } in
        rw (e, turn)
          (if_cases Counted q.waiting q _ (λ w. h)
            (λ w.
              if_cases Counted q.destroyed (finish q job rest (some closed)) _
                (λ x. finish-Counted q job rest (some closed) p h.few d)
                (λ x.
                  if_cases Counted room (finish sent job rest none) _
                    (λ r. finish-Counted sent job rest none p h.few d)
                    (λ r.
                      if_cases Counted gone (finish sent job rest (some closed)) _
                        (λ g. finish-Counted sent job rest (some closed) p h.few d)
                        (λ g. record {
                          pending = h.pending;
                          few = h.few;
                          diagnostic = h.diagnostic;
                        })))))

pub settle-Counted : (q : Writer) (event : StreamEvent) → Counted q → Counted (settle q event)
unfolding settle
settle-Counted q event h = go q.jobs refl
  where
    go : (js : List Job) → q.jobs ≡ js → Counted (settle q event)
    go [] e =
        rw (e, settle) (record { pending = h.pending; few = h.few; diagnostic = h.diagnostic })
    go (job ∷ rest) e =
        let p : q.pending ≡ weight job + normal rest = h.pending ∙ ap normal e in
        let d : one q.diagnostic_pending ≡ one job.diagnostic + diagnostics rest =
          h.diagnostic ∙ ap diagnostics e in
        let q' : Writer = record q { destroyed = q.destroyed || destroys event } in
        rw (e, settle)
          (if_cases Counted q.waiting (finish q' job rest (answer_of event)) q'
            (λ w. finish-Counted q' job rest (answer_of event) p h.few d)
            (λ w. record { pending = h.pending; few = h.few; diagnostic = h.diagnostic }))
