-- ===== src/Pair/Runs.antt =====
-- A device pairs and is told an address; and one whose receiver is gone.
use kepos.Common.{ℕ, none, some, Option, List, [], ◌∷◌, ◌++◌, ◌≡◌, refl, inl, if◌then◌else◌}
use kepos.Common.Json.{Json}
use kepos.Common.Split.{split}
use kepos.Common.Text.{Text, codes, text_eq}
use kepos.Invitation.{Invitation, is_key, parse_invitation, enrollment_prefix, enrollment_secret}
use kepos.Config.Runs.{repeat}
use kepos.Config.Values.{parse_address}
use kepos.ReceiverState.Addresses.{some_bad, reserved}
use kepos.Engine.Enrolling.{Enrolled, device, accepted, answer_json, enroll}
use kepos.Pair.{Options, Pairing, start, run, connected, written, frame, closed}
use kepos.Pair.Answers.{heard, fresh, pairing_agrees}
use kepos.Pair.Once.{run-AsksOnce}
use kepos.Pair.Outcomes.{AsksOnce}

abbrev receiver : Text
receiver = repeat 64 b'a'

abbrev invitation : Invitation
invitation = record { receiver_key = receiver; secret = repeat 64 b'b' }

abbrev options : Options
options = record {
  invitation = codes "kepos1:" ++ receiver ++ b':' ∷ repeat 64 b'b';
  network = none;
}

abbrev tells : Text → Enrolled
tells secret = device (codes "10.7.0.2")

-- A reader of one message.
abbrev reads : List ℕ → Option Json
reads bytes =
    if text_eq bytes (b'x' ∷ [])
    then some (answer_json (accepted (codes "10.7.0.2") (codes "10.7.0.1") receiver))
    else none

pairing_agrees_example :
    (q : Pairing) × (start options ≡ inl q)
    × (let r = run reads q (connected receiver ∷ written ∷ frame (b'x' ∷ []) ∷ []) in
        (r.outcome ≡ some (heard receiver (codes "10.7.0.1") (tells invitation.secret)))
        × (r.sent ≡ (enrollment_prefix ++ invitation.secret) ∷ []))
unfolding parse_invitation is_key enrollment_secret enroll parse_address split some_bad reserved
pairing_agrees_example =
    pairing_agrees reads options invitation (codes "10.7.0.1") tells 0 [] (b'x' ∷ []) refl refl refl
      refl (refl, (refl, refl))

run-AsksOnce_example :
    AsksOnce (run reads (fresh invitation) (connected receiver ∷ closed ∷ written ∷ []))
unfolding start parse_invitation is_key
run-AsksOnce_example =
    run-AsksOnce reads options (fresh invitation) (connected receiver ∷ closed ∷ written ∷ []) refl
