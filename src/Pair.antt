-- ===== src/Pair.antt =====
-- src/vpn/pair.ts: the pairing with a receiver. The connection's events are steps; `parse` is
-- `JSON.parse` of a frame read as UTF-8, and HyperDHT is outside.
pub mod Answers
pub mod Outcomes
pub mod Once
mod Runs
use kepos.Common.{
  ℕ, Bool, true, false, not, ◌&&◌, ◌||◌, Option, none, some, List, [], ◌∷◌, ◌++◌, if◌then◌else◌,
  ◌⊎◌, inl, inr,
}
use kepos.Common.Integers.{pos}
use kepos.Common.Json.{
  Json, text, object, array, number, Fields, field, last, Items, item, end, lookup, keys_are,
  is_text,
}
use kepos.Common.Text.{Text, codes, text_eq}
use kepos.Invitation.{Invitation, parse_invitation, enrollment_request}
use kepos.Config.{PeerConfig, PeerNetworkConfig, Route, auto, public, parse_peer_config}
use kepos.Config.Values.{Parsed, ok, error}
use kepos.Engine.Enrolling.{Rejection, capacity, pool, route, excluded}
use kepos.Engine.Traffic.State.{hello}

pub data PairFailure : Type 0 where
  unusable unavailable unknown : PairFailure
  rejection : Rejection → PairFailure

pub data Outcome : Type 0 where
  failure : PairFailure → Outcome
  paired : PeerConfig → Outcome

-- The values that `parsePeerConfig` is called with.
bootstrap_items : List (Text × ℕ) → Items
bootstrap_items [] = end
bootstrap_items ((host, port) ∷ rest) =
    item (object (field (codes "host") (text host) (field (codes "port") (number (pos port)) last)))
      (bootstrap_items rest)

bootstrap_fields : Option (List (Text × ℕ)) → Fields → Fields
bootstrap_fields none rest = rest
bootstrap_fields (some nodes) rest = field (codes "bootstrap") (array (bootstrap_items nodes)) rest

route_fields : Option Route → Fields
route_fields none = last
route_fields (some auto) = field (codes "route") (text (codes "auto")) last
route_fields (some public) = field (codes "route") (text (codes "public")) last

network_fields : Option PeerNetworkConfig → Fields → Fields
unfolding bootstrap_items bootstrap_fields route_fields
network_fields none rest = rest
network_fields (some n) rest =
    field (codes "network") (object (bootstrap_fields n.bootstrap (route_fields n.route))) rest

-- A field whose value may be `undefined`.
abbrev pub maybe_field : Text → Option Json → Fields → Fields
maybe_field name none rest = rest
maybe_field name (some value) rest = field name value rest

abbrev pub receiver_peer : Text → Json
receiver_peer key = object (
    field (codes "label") (text (codes "receiver")) (
      field (codes "publicKey") (text key) (field (codes "connection") (text (codes "dial")) last)))

abbrev pub receiver_entry : Option Json → Json
receiver_entry address = object (
    field (codes "peer") (text (codes "receiver"))
      (maybe_field (codes "address") address (field (codes "allowTcp") (array end) last)))

pub pairing_config : Option PeerNetworkConfig → Text → Option Json → Option Json → Json
unfolding network_fields
pairing_config network key address receiver_address = object (
    network_fields network (
      field (codes "peers") (array (item (receiver_peer key) end)) (
        field (codes "vpn")
          (object (
            maybe_field (codes "address") address
              (field (codes "peers") (array (item (receiver_entry receiver_address) end)) last)))
          last)))

pub read_reason : Option Json → Option Rejection
read_reason reason =
    if is_text reason (codes "capacity")
    then some capacity
    else if is_text reason (codes "pool")
    then some pool
    else if is_text reason (codes "route")
    then some route
    else if is_text reason (codes "excluded")
    then some excluded
    else none

-- The last part of the handler: an answer that should be `accepted`.
pub read_accepted : Option PeerNetworkConfig → Text → Fields → Outcome
unfolding pairing_config
read_accepted network key value =
    if not (is_text (lookup value (codes "type")) (codes "accepted"))
      || not (keys_are value (codes "address,receiverAddress,receiverKey,type"))
      || not (is_text (lookup value (codes "receiverKey")) key)
    then failure unknown
    else elim (parse_peer_config (
        pairing_config network key (lookup value (codes "address"))
          (lookup value (codes "receiverAddress")))) [
            | ok config ↦ paired config
            | error message ↦ failure unknown
          ]

abbrev pub has_version : Fields → Bool
has_version value = is_text (lookup value (codes "version")) (codes "1")

abbrev pub is_unusable : Fields → Bool
is_unusable value =
    is_text (lookup value (codes "type")) (codes "unusable")
    && has_version value
    && keys_are value (codes "type,version")

abbrev pub is_rejected : Fields → Bool
is_rejected value =
    is_text (lookup value (codes "type")) (codes "rejected")
    && has_version value
    && keys_are value (codes "reason,type,version")

-- A rejection for a reason that is not known is read on.
pub read_rejected : Option PeerNetworkConfig → Text → Fields → Option Rejection → Outcome
read_rejected network key value (some reason) = failure (rejection reason)
read_rejected network key value none = read_accepted network key value

pub read_object : Option PeerNetworkConfig → Text → Fields → Outcome
unfolding read_reason read_accepted read_rejected
read_object network key value =
    if is_unusable value
    then failure unusable
    else if is_rejected value
    then read_rejected network key value (read_reason (lookup value (codes "reason")))
    else read_accepted network key value

abbrev pub read_json : Option PeerNetworkConfig → Text → Option Json → Outcome
read_json network key (some (object value)) = read_object network key value
read_json network key _ = failure unknown

pub record Options : Type 0 where
  pub invitation : Text
  pub network : Option PeerNetworkConfig

pub data Phase : Type 0 where
  waiting sending receiving over : Phase

-- `sent` holds the requests that were given to the connection, and `outcome` what the promise is
-- settled with. A settled pairing has destroyed its connection.
pub record Pairing : Type 0 where
  pub invitation : Invitation
  pub network : Option PeerNetworkConfig
  pub phase : Phase
  pub submitted : Bool
  pub sent : List (List ℕ)
  pub outcome : Option Outcome

abbrev pub set_outcome : Option Outcome → Outcome → Option Outcome
set_outcome none o = some o
set_outcome (some settled) o = some settled

unfoldable pub finish : Pairing → Outcome → Pairing
finish q o = record q { outcome = set_outcome q.outcome o }

-- The timer, the connection's end or error, its opening with the key of the other side, the end of
-- `send`, a frame, the end of `receive`, and an error of `connect`, `send` or `receive`.
pub data Event : Type 0 where
  timeout closed : Event
  connected : Text → Event
  written : Event
  frame : List ℕ → Event
  ended broken : Event

abbrev pub is_settled : Option Outcome → Bool
is_settled none = false
is_settled (some o) = true

abbrev pub lost : Bool → PairFailure
lost submitted = if submitted then unknown else unavailable

-- `connected`. The secret is that of a parsed invitation, so there is a request.
pub connect : Pairing → Text → Pairing
unfolding finish
connect q remote =
    if is_settled q.outcome
    then q
    else if not (text_eq remote q.invitation.receiver_key)
    then finish q (failure unavailable)
    else elim (enrollment_request q.invitation.secret) [
      | none ↦ q
      | some request ↦ record q { submitted = true; phase = sending; sent = q.sent ++ request ∷ [] }
    ]

module _ (parse : List ℕ → Option Json) where
  pub take_frame : Pairing → List ℕ → Pairing
  unfolding finish read_object
  take_frame q bytes =
      if text_eq bytes hello
      then q
      else finish q (read_json q.network q.invitation.receiver_key (parse bytes))

  -- An event that the code does not listen for in this phase does nothing.
  abbrev dispatch : Phase → Event → Pairing → Pairing
  dispatch p timeout q = finish q (failure (lost q.submitted))
  dispatch p closed q = finish q (failure (lost q.submitted))
  dispatch waiting (connected remote) q = connect q remote
  dispatch sending written q = record q { phase = receiving }
  dispatch receiving (frame bytes) q = take_frame q bytes
  dispatch receiving ended q = record (finish q (failure unknown)) { phase = over }
  dispatch waiting broken q = finish q (failure (lost q.submitted))
  dispatch sending broken q = record (finish q (failure unknown)) { phase = over }
  dispatch receiving broken q = record (finish q (failure unknown)) { phase = over }
  dispatch _ _ q = q

  unfoldable pub step : Pairing → Event → Pairing
  unfolding finish connect take_frame
  step q e = dispatch q.phase e q

  unfoldable pub run : Pairing → List Event → Pairing
  unfolding step
  run q [] = q
  run q (e ∷ es) = run (step q e) es

-- Before the connection: an invitation that does not parse.
unfoldable pub start : Options → Pairing ⊎ PairFailure
start o = elim (parse_invitation o.invitation) [
  | none ↦ inr unusable
  | some invitation ↦ inl (record {
    invitation = invitation;
    network = o.network;
    phase = waiting;
    submitted = false;
    sent = [];
    outcome = none;
  })
]
