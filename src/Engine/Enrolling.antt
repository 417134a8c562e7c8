-- ===== src/Engine/Enrolling.antt =====
-- src/vpn/engine.ts: the answer to an enrolment request (`enroll`), and the names that a log line may
-- hold (`diagnosticError`). What `options.enrollment.enroll` does is an argument. A message is a value
-- that `JSON.stringify` writes.
use kepos.Common.{
  ℕ, Bool, true, false, not, Option, none, some, List, [], ◌∷◌, ◌++◌, if◌then◌else◌, ◌≡◌, refl,
}
use kepos.Common.Json.{Json, text, object, field, last}
use kepos.Common.Maps.{get, set}
use kepos.Common.Text.{Text, codes, has_text}
use kepos.Invitation.{other, unusable, enrollment, enrollment_secret}
use kepos.Engine.{recent}

-- src/vpn/enrollment-errors.ts
pub data Rejection : Type 0 where
  capacity pool route excluded : Rejection

abbrev pub reason_text : Rejection → Text
reason_text capacity = codes "capacity"
reason_text pool = codes "pool"
reason_text route = codes "route"
reason_text excluded = codes "excluded"

-- How `options.enrollment.enroll` ends: with the address of the device, with a rejection, with the
-- error "unusable invitation", or with another error.
pub data Enrolled : Type 0 where
  device : Text → Enrolled
  rejected : Rejection → Enrolled
  unusable_error other_error : Enrolled

pub data Answer : Type 0 where
  accepted : (address receiver_address receiver_key : Text) → Answer
  refused : Rejection → Answer
  unusable_answer unknown_answer : Answer

-- `result`, as an object.
unfoldable pub answer_json : Answer → Json
answer_json (accepted a ra rk) = object (
    field (codes "type") (text (codes "accepted")) (
      field (codes "address") (text a)
        (field (codes "receiverAddress") (text ra) (field (codes "receiverKey") (text rk) last))))
answer_json (refused r) = object (
    field (codes "type") (text (codes "rejected")) (
      field (codes "reason") (text (reason_text r))
        (field (codes "version") (text (codes "1")) last)))
answer_json unusable_answer = object (
    field (codes "type") (text (codes "unusable"))
      (field (codes "version") (text (codes "1")) last))
answer_json unknown_answer = object (
    field (codes "type") (text (codes "unknown")) (field (codes "version") (text (codes "1")) last))

-- The answer, whether the device was committed, and the times of the last log line of each reason.
pub record Exchange : Type 0 where
  pub answer : Answer
  pub committed : Bool
  pub logged : Bool
  pub logs : List (Text × ℕ)

abbrev plainly : Answer → List (Text × ℕ) → Exchange
plainly answer logs = record { answer = answer; committed = false; logged = false; logs = logs }

unfoldable pub refuse : Rejection → ℕ → List (Text × ℕ) → Exchange
refuse reason now logs =
    if recent (get logs (reason_text reason)) now 5000
    then plainly (refused reason) logs
    else record {
      answer = refused reason;
      committed = false;
      logged = true;
      logs = set logs (reason_text reason) now;
    }

module _ (enabled : Bool) (receiver_address receiver_key : Text) where
  -- How the call of `enrollment.enroll` is answered.
  unfoldable pub answered : List (Text × ℕ) → ℕ → Enrolled → Exchange
  answered logs now (device address) = record {
    answer = accepted address receiver_address receiver_key;
    committed = true;
    logged = false;
    logs = logs;
  }
  answered logs now (rejected reason) = refuse reason now logs
  answered logs now unusable_error = plainly unusable_answer logs
  answered logs now other_error = plainly unknown_answer logs

  -- `enroll`, up to the message that is sent; then, if committed, `changed` is called.
  unfoldable pub enroll : List ℕ → (Text → Enrolled) → ℕ → List (Text × ℕ) → Exchange
  unfolding refuse answered
  enroll packet ask now logs = elim (enrollment_secret packet) [
    | other ↦ plainly unusable_answer logs
    | unusable ↦ plainly unusable_answer logs
    | enrollment secret ↦
        if not enabled then plainly unusable_answer logs else answered logs now (ask secret)
  ]

pub enroll_request :
    (receiver_address receiver_key : Text) (packet : List ℕ) (secret : Text) (ask : Text → Enrolled)
    (now : ℕ) (logs : List (Text × ℕ))
    → enrollment_secret packet ≡ enrollment secret
    → enroll true receiver_address receiver_key packet ask now logs
      ≡ answered true receiver_address receiver_key logs now (ask secret)
unfolding enroll
enroll_request ra rk packet secret ask now logs e = rw (e, enroll) refl

-- What `diagnosticError` looks at: the message of an `Error`, and a `code` that is a string.
pub record Failure : Type 0 where
  pub message : Option Text
  pub code : Option Text

abbrev pub known : List Text
known =
    codes "Stream was destroyed"
    ∷ codes "VPN stream is closed"
    ∷ codes "VPN stream closed during write"
    ∷ codes "VPN protocol mismatch"
    ∷ codes "VPN protocol handshake missing"
    ∷ codes "VPN protocol handshake timed out after 10000ms"
    ∷ codes "invalid VPN frame length"
    ∷ codes "truncated VPN frame"
    ∷ codes "VPN connection timed out"
    ∷ codes "VPN connection closed"
    ∷ codes "VPN peer identity mismatch"
    ∷ codes "PEER_CONNECTION_FAILED: Could not connect to peer"
    ∷ []

abbrev pub allowed_codes : List Text
allowed_codes =
    codes "BAD_HANDSHAKE_REPLY"
    ∷ codes "BAD_HOLEPUNCH_REPLY"
    ∷ codes "HOLEPUNCH_ABORTED"
    ∷ codes "HOLEPUNCH_INVALID"
    ∷ codes "HOLEPUNCH_PROBE_TIMEOUT"
    ∷ codes "HOLEPUNCH_DOUBLE_RANDOMIZED_NATS"
    ∷ codes "CANNOT_HOLEPUNCH"
    ∷ codes "REMOTE_NOT_HOLEPUNCHING"
    ∷ codes "REMOTE_NOT_HOLEPUNCHABLE"
    ∷ codes "REMOTE_ABORTED"
    ∷ codes "HANDSHAKE_UNFINISHED"
    ∷ codes "HANDSHAKE_INVALID"
    ∷ codes "NODE_DESTROYED"
    ∷ codes "PEER_CONNECTION_FAILED"
    ∷ codes "PEER_NOT_FOUND"
    ∷ codes "STREAM_NOT_CONNECTED"
    ∷ codes "SERVER_INCOMPATIBLE"
    ∷ codes "SERVER_ERROR"
    ∷ codes "DUPLICATE_CONNECTION"
    ∷ codes "RELAY_ABORTED"
    ∷ codes "SUSPENDED"
    ∷ codes "STREAM_DESTROYED"
    ∷ codes "PREMATURE_CLOSE"
    ∷ codes "ABORTED"
    ∷ codes "BAD_ARGUMENT"
    ∷ []

abbrev transport_error : Option Text → Text
transport_error none = codes "transport error"
transport_error (some code) =
    if has_text allowed_codes code
    then codes "transport error (" ++ code ++ codes ")"
    else codes "transport error"

unfoldable pub diagnostic_error : Failure → Text
diagnostic_error error = elim error.message [
  | none ↦ transport_error error.code
  | some message ↦ if has_text known message then message else transport_error error.code
]
