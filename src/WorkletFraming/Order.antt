-- ===== src/WorkletFraming/Order.antt =====
-- The frames that are written are those of the calls that were accepted, in the order of the calls.
use mathlib.Core.Path.{subst}
use kepos.Common.{
  ℕ, ◌+◌, ◌≡◌, refl, sym, ap, ◌∙◌, Bool, true, false, ◌||◌, Option, none, some, List, [], ◌∷◌, ◌++◌,
  append_assoc, append-nil, arith, ltb, leb, length, if_cases, Bool-cases, inl, inr,
}
use kepos.WorkletFraming.{
  IpcError, Job, Writer, new_writer, send, send_diagnostic, refuses_diagnostic, turn, settle,
  write_head, finish, StreamEvent, encode, ipc_control, ipc_max_frame, bad_kind, destroys,
  answer_of, closed, invalid_frame, congested,
}
use kepos.WorkletFraming.Queue.{
  Counted, send-Counted, send_diagnostic-Counted, turn-Counted, settle-Counted,
}
use kepos.WorkletFraming.Actions.{
  Action, act, accepted_of, accepted, run, all_accepted, frames_of, rest_of, unsent, Heads, Ordered,
  sends, reports, turns, settles,
}

unsent-append :
    (w : Bool) (js : List Job) (j : Job)
    → Heads w js
    → unsent w (js ++ j ∷ []) ≡ unsent w js ++ j.frame ∷ []
unsent-append false [] j h = refl
unsent-append false (x ∷ js) j h = ap (◌∷◌ x.frame) (unsent-append false js j tt)
unsent-append true [] j h = absurd h
unsent-append true (x ∷ js) j h = unsent-append false js j tt

Heads-append : (w : Bool) (js : List Job) (j : Job) → Heads w js → Heads w (js ++ j ∷ [])
Heads-append false js j h = tt
Heads-append true [] j h = absurd h
Heads-append true (x ∷ js) j h = tt

-- A job that is put at the end of the queue.
enqueue-Ordered :
    (q q' : Writer) (calls : List (List ℕ)) (j : Job)
    → q'.written ≡ q.written
    → q'.destroyed ≡ q.destroyed
    → q'.waiting ≡ q.waiting
    → q'.jobs ≡ q.jobs ++ j ∷ []
    → Ordered q calls
    → Ordered q' (calls ++ j.frame ∷ [])
enqueue-Ordered q q' calls j w d p js h = record {
  rest = h.rest ++ j.frame ∷ [];
  prefix =
      ap (λ c. c ++ j.frame ∷ []) h.prefix
      ∙ append_assoc q.written h.rest (j.frame ∷ [])
      ∙ ap (λ c. c ++ (h.rest ++ j.frame ∷ [])) (sym w);
  live = λ e.
      ap (λ c. c ++ j.frame ∷ []) (h.live (sym d ∙ e))
      ∙ sym (unsent-append q.waiting q.jobs j h.heads)
      ∙ ap (λ b. unsent b (q.jobs ++ j ∷ [])) (sym p)
      ∙ ap (unsent q'.waiting) (sym js);
  heads =
      subst (λ b. Heads b q'.jobs) (sym p)
        (subst (Heads q.waiting) (sym js) (Heads-append q.waiting q.jobs j h.heads));
}

-- The end of the job at the head, once its frame is out or the stream is gone.
finish-Ordered :
    (q : Writer) (calls : List (List ℕ)) (job : Job) (rest : List Job) (answer : Option IpcError)
    (left : List (List ℕ))
    → calls ≡ q.written ++ left
    → (q.destroyed ≡ false → left ≡ frames_of rest)
    → Ordered (finish q job rest answer) calls
unfolding finish
finish-Ordered q calls job rest answer left prefix live =
    if_cases (λ (x : Writer). Ordered x calls) job.diagnostic _ _
      (λ e. record { rest = left; prefix = prefix; live = live; heads = tt })
      (λ e. record { rest = left; prefix = prefix; live = live; heads = tt })

turn-Ordered :
    (q : Writer) (calls : List (List ℕ)) (room gone : Bool)
    → Ordered q calls
    → Ordered (turn q room gone) calls
unfolding turn write_head
turn-Ordered q calls room gone h = go q.jobs refl
  where
    go : (js : List Job) → q.jobs ≡ js → Ordered (turn q room gone) calls
    go [] e = rw (e, turn) h
    go (job ∷ rest) e =
        let sent : Writer = record q { written = q.written ++ job.frame ∷ []; destroyed = gone } in
        rw (e, turn)
          (if_cases (λ (x : Writer). Ordered x calls) q.waiting q _ (λ w. h)
            (λ w.
              if_cases (λ (x : Writer). Ordered x calls) q.destroyed
                (finish q job rest (some closed)) _
                (λ x.
                  finish-Ordered q calls job rest (some closed) h.rest h.prefix
                    (λ y. absurd (let no_way : true ≡ false = sym x ∙ y in cc)))
                (λ x.
                  let all : h.rest ≡ job.frame ∷ frames_of rest =
                    h.live x ∙ ap (λ b. unsent b q.jobs) w ∙ ap frames_of e in
                  let out : calls ≡ (q.written ++ job.frame ∷ []) ++ frames_of rest =
                    h.prefix
                    ∙ ap (◌++◌ q.written) all
                    ∙ sym (append_assoc q.written (job.frame ∷ []) (frames_of rest)) in
                  if_cases (λ (x : Writer). Ordered x calls) room (finish sent job rest none) _
                    (λ r. finish-Ordered sent calls job rest none (frames_of rest) out (λ y. refl))
                    (λ r.
                      if_cases (λ (x : Writer). Ordered x calls) gone
                        (finish sent job rest (some closed)) _
                        (λ g.
                          finish-Ordered sent calls job rest (some closed) (frames_of rest) out
                            (λ y. refl))
                        (λ g. record {
                          rest = frames_of rest;
                          prefix = out;
                          live = λ y. ap (λ js. frames_of (rest_of js)) (sym e);
                          heads = subst (Heads true) (sym e) tt;
                        })))))

before : (a b : Bool) → (a || b) ≡ false → a ≡ false
before false b e = refl
before true b e = cc

settle-Ordered :
    (q : Writer) (calls : List (List ℕ)) (event : StreamEvent)
    → Ordered q calls
    → Ordered (settle q event) calls
unfolding settle
settle-Ordered q calls event h = go q.jobs refl
  where
    still : (q.destroyed || destroys event) ≡ false → q.destroyed ≡ false
    still = before q.destroyed (destroys event)

    idle : Ordered (record q { destroyed = q.destroyed || destroys event }) calls
    idle = record {
      rest = h.rest;
      prefix = h.prefix;
      live = λ y. h.live (still y);
      heads = h.heads;
    }

    go : (js : List Job) → q.jobs ≡ js → Ordered (settle q event) calls
    go [] e = rw (e, settle) idle
    go (job ∷ rest) e =
        let q' : Writer = record q { destroyed = q.destroyed || destroys event } in
        rw (e, settle)
          (if_cases (λ (x : Writer). Ordered x calls) q.waiting
            (finish q' job rest (answer_of event)) q'
            (λ w. finish-Ordered q' calls job rest (answer_of event) h.rest h.prefix (λ y.
              h.live (still y) ∙ ap (λ b. unsent b q.jobs) w ∙ ap (λ js. frames_of (rest_of js)) e))
            (λ w. idle))

-- Each action adds what it accepts to the calls.
act-Ordered :
    (q : Writer) (calls : List (List ℕ)) (a : Action)
    → Ordered q calls
    → Ordered (act q a) (calls ++ accepted q a)
unfolding send send_diagnostic
act-Ordered q calls (sends kind payload) h =
    let P : Writer × Option IpcError → Type 0 =
      λ r. Ordered r.0 (calls ++ accepted_of r.1 (encode kind payload)) in
    if_cases P (bad_kind kind || ltb ipc_max_frame (length payload + 1)) (q, some invalid_frame) _
      (λ e. subst (Ordered q) (sym (append-nil calls)) h)
      (λ e.
        if_cases P (leb 32 q.pending) (q, some congested) _
          (λ e. subst (Ordered q) (sym (append-nil calls)) h)
          (λ e.
            enqueue-Ordered q _ calls (record { frame = encode kind payload; diagnostic = false })
              refl refl refl refl h))
act-Ordered q calls (reports payload) h = elim (Bool-cases (refuses_diagnostic q payload)) [
  | inl no_room ↦ rw no_room (subst (Ordered q) (sym (append-nil calls)) h)
  | inr room ↦ rw room (
      enqueue-Ordered q _ calls (record { frame = encode ipc_control payload; diagnostic = true })
        refl refl refl refl h)
]
act-Ordered q calls (turns room gone) h =
    subst (Ordered (turn q room gone)) (sym (append-nil calls)) (turn-Ordered q calls room gone h)
act-Ordered q calls (settles event) h =
    subst (Ordered (settle q event)) (sym (append-nil calls)) (settle-Ordered q calls event h)

act-Counted : (q : Writer) (a : Action) → Counted q → Counted (act q a)
act-Counted q (sends kind payload) h = send-Counted q kind payload h
act-Counted q (reports payload) h = send_diagnostic-Counted q payload h
act-Counted q (turns room gone) h = turn-Counted q room gone h
act-Counted q (settles event) h = settle-Counted q event h

run_from-Ordered :
    (q : Writer) (calls : List (List ℕ)) (actions : List Action)
    → Counted q
    → Ordered q calls
    → Counted (run q actions) × Ordered (run q actions) (calls ++ all_accepted q actions)
run_from-Ordered q calls [] c h = (c, subst (Ordered q) (sym (append-nil calls)) h)
run_from-Ordered q calls (a ∷ actions) c h =
    let (counted, ordered) =
      run_from-Ordered (act q a) (calls ++ accepted q a) actions (act-Counted q a c)
        (act-Ordered q calls a h) in
    (
      counted,
      subst (Ordered (run (act q a) actions))
          (append_assoc calls (accepted q a) (all_accepted (act q a) actions)) ordered,
    )

-- After any history of calls, turns of the queue and events of the stream: `pending` is the number of
-- calls of `send` that have not ended, at most 32; at most one diagnostic is in the queue, and the
-- flag says whether; what was written is the beginning of the accepted frames, in the order of the
-- calls, and while the stream is open the queue holds exactly the frames that are missing.
pub run-Ordered :
    (actions : List Action)
    → Counted (run new_writer actions)
      × Ordered (run new_writer actions) (all_accepted new_writer actions)
run-Ordered actions =
    run_from-Ordered new_writer [] actions
      (record { pending = refl; few = omega arith; diagnostic = refl })
      (record { rest = []; prefix = refl; live = λ e. refl; heads = tt })
