-- ===== src/Pair/Outcomes.antt =====
-- What a pairing has sent, and what the answers are read as.
use kepos.Common.{
  ℕ, ◌≡◌, ◌≢◌, Bool, true, false, Option, none, some, List, [], ◌∷◌, if◌then◌else◌, if_cases,
}
use kepos.Common.Json.{Json, Fields, object, lookup}
use kepos.Common.Text.{Text, codes}
use kepos.Invitation.{enrollment_request}
use kepos.Config.{PeerConfig, PeerNetworkConfig, parse_peer_config}
use kepos.Config.Values.{Parsed, ok, error}
use kepos.Engine.Enrolling.{Rejection}
use kepos.Pair.{
  unusable, unavailable, unknown, rejection, Outcome, failure, paired, Phase, waiting, sending,
  receiving, over, Pairing, read_json, read_object, read_accepted, read_reason, read_rejected,
  is_unusable, is_rejected, pairing_config,
}

-- The requests sent: none while the pairing waits, and then the one for the invitation's secret.
abbrev pub IsWaiting : Bool → List (List ℕ) → Type 0
IsWaiting submitted sent = (submitted ≡ false) × (sent ≡ [])

abbrev pub IsSubmitted : Text → Bool → List (List ℕ) → Type 0
IsSubmitted secret submitted sent =
    (submitted ≡ true)
    × ((request : List ℕ) × (enrollment_request secret ≡ some request) × (sent ≡ request ∷ []))

-- The outcome `unavailable` only if no request was sent, and any other only if it was.
abbrev pub Settles : Text → Bool → List (List ℕ) → Option Outcome → Type 0
Settles secret submitted sent none = Unit
Settles secret submitted sent (some (failure unavailable)) = IsWaiting submitted sent
Settles secret submitted sent (some (failure unknown)) = IsSubmitted secret submitted sent
Settles secret submitted sent (some (failure unusable)) = IsSubmitted secret submitted sent
Settles secret submitted sent (some (failure (rejection r))) = IsSubmitted secret submitted sent
Settles secret submitted sent (some (paired c)) = IsSubmitted secret submitted sent

abbrev pub HasSent : Phase → Text → Bool → List (List ℕ) → Type 0
HasSent waiting secret submitted sent = IsWaiting submitted sent
HasSent sending secret submitted sent = IsSubmitted secret submitted sent
HasSent receiving secret submitted sent = IsSubmitted secret submitted sent
HasSent over secret submitted sent = IsSubmitted secret submitted sent

pub record AsksOnce (q : Pairing) : Type 0 where
  pub requests : HasSent q.phase q.invitation.secret q.submitted q.sent
  pub settled : Settles q.invitation.secret q.submitted q.sent q.outcome

-- No answer is read as `unavailable`.
abbrev pub IsKnown : Outcome → Type 0
IsKnown o = o ≢ failure unavailable

pub unknown-IsKnown : IsKnown (failure unknown)
unknown-IsKnown = λ h. cc

unusable-IsKnown : IsKnown (failure unusable)
unusable-IsKnown = λ h. cc

accepted-IsKnown :
    (n : Option PeerNetworkConfig) (key : Text) (value : Fields)
    → IsKnown (read_accepted n key value)
unfolding read_accepted
accepted-IsKnown n key value =
    if_cases IsKnown _ _ _ (λ e. unknown-IsKnown)
      (λ e. parsed (
        parse_peer_config (
          pairing_config n key (lookup value (codes "address"))
            (lookup value (codes "receiverAddress")))))
  where
    parsed :
        (r : Parsed PeerConfig)
        → IsKnown (elim r as (λ x. Outcome) [ ok c ↦ paired c | error m ↦ failure unknown ])
    parsed (ok c) = λ h. cc
    parsed (error m) = λ h. cc

rejected-IsKnown :
    (n : Option PeerNetworkConfig) (key : Text) (value : Fields) (r : Option Rejection)
    → IsKnown (read_rejected n key value r)
unfolding read_rejected
rejected-IsKnown n key value none = accepted-IsKnown n key value
rejected-IsKnown n key value (some r) = λ h. cc

object-IsKnown :
    (n : Option PeerNetworkConfig) (key : Text) (value : Fields) → IsKnown (read_object n key value)
unfolding read_object
object-IsKnown n key value =
    let rejected = read_rejected n key value (read_reason (lookup value (codes "reason"))) in
    let other = read_accepted n key value in
    if_cases IsKnown (is_unusable value) (failure unusable)
      (if is_rejected value then rejected else other) (λ e. unusable-IsKnown)
      (λ e.
        if_cases IsKnown (is_rejected value) rejected other
          (λ e'. rejected-IsKnown n key value (read_reason (lookup value (codes "reason"))))
          (λ e'. accepted-IsKnown n key value))

pub json-IsKnown :
    (n : Option PeerNetworkConfig) (key : Text) (j : Option Json) → IsKnown (read_json n key j)
json-IsKnown n key (some (object value)) = object-IsKnown n key value
json-IsKnown n key none = λ h. cc
json-IsKnown n key (some Json.null) = λ h. cc
json-IsKnown n key (some (Json.boolean b)) = λ h. cc
json-IsKnown n key (some (Json.number i)) = λ h. cc
json-IsKnown n key (some (Json.fraction i)) = λ h. cc
json-IsKnown n key (some (Json.text t)) = λ h. cc
json-IsKnown n key (some (Json.array js)) = λ h. cc
