-- ===== src/WorkletFraming/Runs.antt =====
-- Runs of the local framing.
use kepos.Common.{ℕ, true, false, none, List, [], ◌∷◌, ◌++◌, ◌≡◌, refl, arith}
use kepos.Common.Outcome.{Run, done, thrown}
use kepos.Framing.{receive_frames}
use kepos.WorkletFraming.{
  IpcError, new_writer, receive, hand_over, send, send_diagnostic, turn, settle, drain,
  unknown_kind,
}
use kepos.WorkletFraming.Messages.{IsMessage, deliver_all, receive-frames}
use kepos.WorkletFraming.Queue.{Counted}
use kepos.WorkletFraming.Order.{run-Ordered}
use kepos.WorkletFraming.Actions.{
  sends, reports, turns, settles, run, all_accepted, Ordered, Action,
}

abbrev keep : ℕ → List ℕ → Run IpcError (List (ℕ × List ℕ)) (Unit {0})
keep kind payload seen = done tt (seen ++ (kind, payload) ∷ [])

abbrev messages : List (ℕ × List ℕ)
messages = (1, 5 ∷ []) ∷ (2, 6 ∷ 7 ∷ []) ∷ []

abbrev pieces : List (List ℕ)
pieces = (0 ∷ []) ∷ (2 ∷ 1 ∷ 5 ∷ 0 ∷ 3 ∷ []) ∷ (2 ∷ 6 ∷ []) ∷ (7 ∷ []) ∷ []

loop : Unit {0}
unfolding receive receive_frames hand_over send send_diagnostic turn settle IsMessage
loop = tt

bad_kind_run : receive keep ((0 ∷ 1 ∷ 9 ∷ []) ∷ []) none [] ≡ thrown unknown_kind []
unfolding loop
bad_kind_run = refl

receive-frames_example : receive keep pieces none [] ≡ deliver_all keep messages []
unfolding loop
receive-frames_example =
    receive-frames keep messages pieces [] ((refl, omega arith), ((refl, omega arith), tt)) refl

abbrev actions : List Action
actions =
    sends 1 (5 ∷ [])
    ∷ reports (8 ∷ [])
    ∷ turns false false
    ∷ sends 2 (6 ∷ [])
    ∷ settles drain
    ∷ turns true false
    ∷ []

both_frames_written :
    (run new_writer actions).written ≡ (0 ∷ 2 ∷ 1 ∷ 5 ∷ []) ∷ (0 ∷ 2 ∷ 2 ∷ 6 ∷ []) ∷ []
unfolding loop
both_frames_written = refl

run-Ordered_example :
    Counted (run new_writer actions)
    × Ordered (run new_writer actions) (all_accepted new_writer actions)
run-Ordered_example = run-Ordered actions
