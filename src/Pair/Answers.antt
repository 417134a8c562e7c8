-- ===== src/Pair/Answers.antt =====
-- What the receiver's engine answers is what the pairing reports.
use kepos.Common.{
  ℕ, ◌≡◌, refl, sym, ap, ◌∙◌, Bool, true, false, Option, none, some, List, [], ◌∷◌, ◌++◌, if_cases,
  inl,
}
use mathlib.Core.Path.{subst}
use kepos.Common.Json.{Json, text, lookup, keys_are, is_text}
use kepos.Common.Text.{Text, text_eq, text_eq_refl, eq_of_text_eq, codes, decimal}
use kepos.Common.Maps.{get}
use kepos.Invitation.{
  Invitation, is_key, enrollment_request, enrollment_secret, enrollment, enrollment_prefix,
  parse_invitation,
}
use kepos.Invitation.Texts.{parsed_keys}
use kepos.Invitation.Requests.{secret-request}
use kepos.ReceiverState.Durable.{ports}
use kepos.ReceiverState.{repeated}
use kepos.Config.{dial, PeerConfig, PeerNetworkConfig, parse_peer_config}
use kepos.Config.Values.{ok, parse_address}
use kepos.Engine.Enrolling.{
  Enrolled, device, rejected, unusable_error, other_error, Rejection, capacity, pool, route,
  excluded, reason_text, accepted, refused, unusable_answer, unknown_answer, answer_json, Exchange,
  enroll, answered, refuse, enroll_request,
}
use kepos.Engine.{recent}
use kepos.Engine.Traffic.State.{hello}
use kepos.Pair.{
  Options, start, finish, step, run, connect, take_frame, dispatch, connected, written, frame,
  waiting, sending, receiving, unusable, unknown, rejection, Outcome, failure, paired, Pairing,
  read_json, read_object, read_accepted, read_rejected, read_reason, pairing_config,
}

-- The configuration of a device that was admitted.
abbrev pub receiver_config : Text → Text → Text → PeerConfig
receiver_config key address receiver_address = record {
  vpn = some (record {
    address = address;
    peers =
        record { peer = codes "receiver"; address = receiver_address; allow_tcp = ports [] } ∷ [];
  });
  network = none;
  peers = record { label = codes "receiver"; public_key = key; connection = dial } ∷ [];
}

label_is_no_key : is_key (codes "receiver") ≡ false
unfolding is_key
label_is_no_key = refl

config_read :
    (key address receiver_address : Text)
    → is_key key ≡ true
    → parse_address (some (text address)) (codes "vpn.address") ≡ ok address
    → parse_address (some (text receiver_address)) (codes "vpn.peers[0].address")
      ≡ ok receiver_address
    → text_eq address receiver_address ≡ false
    → parse_peer_config
        (pairing_config none key (some (text address)) (some (text receiver_address)))
      ≡ ok (receiver_config key address receiver_address)
unfolding parse_peer_config pairing_config lookup decimal repeated
config_read key a ra valid mine theirs differ = simp (valid, label_is_no_key, mine, theirs, differ)

-- What the device hears, by what the receiver's store did.
abbrev pub heard : Text → Text → Enrolled → Outcome
heard key receiver_address (device address) = paired (receiver_config key address receiver_address)
heard key receiver_address (rejected reason) = failure (rejection reason)
heard key receiver_address unusable_error = failure unusable
heard key receiver_address other_error = failure unknown

-- The addresses that a device is told are unicast and differ.
abbrev pub TellsGood : Text → Enrolled → Type 0
TellsGood receiver_address (device address) =
    (parse_address (some (text address)) (codes "vpn.address") ≡ ok address)
    × ((parse_address (some (text receiver_address)) (codes "vpn.peers[0].address")
          ≡ ok receiver_address)
        × (text_eq address receiver_address ≡ false))
TellsGood receiver_address (rejected reason) = Unit
TellsGood receiver_address unusable_error = Unit
TellsGood receiver_address other_error = Unit

accepted_read :
    (key address receiver_address : Text)
    → is_key key ≡ true
    → TellsGood receiver_address (device address)
    → read_json none key (some (answer_json (accepted address receiver_address key)))
      ≡ paired (receiver_config key address receiver_address)
unfolding read_object read_accepted answer_json lookup keys_are is_text
accepted_read key a ra valid (mine, (theirs, differ)) =
    simp (text_eq_refl key, config_read key a ra valid mine theirs differ)

refused_read :
    (key : Text) (r : Rejection)
    → read_json none key (some (answer_json (refused r))) ≡ failure (rejection r)
unfolding read_object read_rejected read_reason answer_json lookup keys_are is_text
refused_read key capacity = refl
refused_read key pool = refl
refused_read key route = refl
refused_read key excluded = refl

unusable_read :
    (key : Text) → read_json none key (some (answer_json unusable_answer)) ≡ failure unusable
unfolding read_object answer_json lookup keys_are is_text
unusable_read key = refl

unknown_read :
    (key : Text) → read_json none key (some (answer_json unknown_answer)) ≡ failure unknown
unfolding read_object read_accepted answer_json lookup keys_are is_text
unknown_read key = refl

module _ (key receiver_address : Text) (valid : is_key key ≡ true) where
  -- The answer to a request for a secret is heard as what came of it.
  enroll-heard :
      (secret : Text) (request : List ℕ) (ask : Text → Enrolled) (now : ℕ) (logs : List (Text × ℕ))
      → enrollment_secret request ≡ enrollment secret
      → TellsGood receiver_address (ask secret)
      → read_json none key
          (some (answer_json (enroll true receiver_address key request ask now logs).answer))
        ≡ heard key receiver_address (ask secret)
  unfolding answered refuse
  enroll-heard secret request ask now logs is good =
      let answer = enroll_request receiver_address key request secret ask now logs is in
      subst
        (λ (x : Exchange).
          read_json none key (some (answer_json x.answer))
          ≡ heard key receiver_address (ask secret))
        (sym answer) (told (ask secret) good)
    where
      told :
          (x : Enrolled)
          → TellsGood receiver_address x
          → read_json none key
              (some (answer_json (answered true receiver_address key logs now x).answer))
            ≡ heard key receiver_address x
      told (device a) good = accepted_read key a receiver_address valid good
      told (rejected r) good =
          if_cases
            (λ (x : Exchange).
              read_json none key (some (answer_json x.answer)) ≡ failure (rejection r))
            (recent (get logs (reason_text r)) now 5000) _ _ (λ e. refused_read key r)
            (λ e. refused_read key r)
      told unusable_error good = unusable_read key
      told other_error good = unknown_read key

request_of :
    (secret : Text)
    → is_key secret ≡ true
    → enrollment_request secret ≡ some (enrollment_prefix ++ secret)
unfolding enrollment_request
request_of secret h = rw (h, enrollment_request) refl

abbrev pub fresh : Invitation → Pairing
fresh i = record {
  invitation = i;
  network = none;
  phase = waiting;
  submitted = false;
  sent = [];
  outcome = none;
}

start_lem :
    (o : Options) (i : Invitation)
    → parse_invitation o.invitation ≡ some i
    → o.network ≡ none
    → start o ≡ inl (fresh i)
unfolding start
start_lem o i e n =
    rw (e, start) (ap (λ (m : Option PeerNetworkConfig). inl (record (fresh i) { network = m })) n)

-- The exchange, as the pairing sees it.
module _ (parse : List ℕ → Option Json) (i : Invitation) (secret : is_key i.secret ≡ true) where
  abbrev asked : Pairing
  asked = record (fresh i) {
    phase = sending;
    submitted = true;
    sent = (enrollment_prefix ++ i.secret) ∷ [];
  }

  connected_lem : step parse (fresh i) (connected i.receiver_key) ≡ asked
  unfolding step connect
  connected_lem =
      rw (text_eq_refl i.receiver_key, connect) (rw (request_of i.secret secret, connect) refl)

  frame_lem :
      (q : Pairing) (bytes : List ℕ)
      → q.phase ≡ receiving
      → text_eq bytes hello ≡ false
      → step parse q (frame bytes)
        ≡ finish q (read_json q.network q.invitation.receiver_key (parse bytes))
  unfolding step take_frame
  frame_lem q bytes p h = rw (p, dispatch) (rw (h, take_frame) refl)

  exchange_lem :
      (bytes : List ℕ)
      → text_eq bytes hello ≡ false
      → run parse (fresh i) (connected i.receiver_key ∷ written ∷ frame bytes ∷ [])
        ≡ finish (record asked { phase = receiving }) (read_json none i.receiver_key (parse bytes))
  unfolding run
  exchange_lem bytes h =
      let opened = ap (λ q. step parse (step parse q written) (frame bytes)) connected_lem in
      opened ∙ frame_lem (record asked { phase = receiving }) bytes refl h

-- A device that pairs by an invitation connects to the receiver of the invitation and sends one
-- request. If the receiver's engine answers that request, the device settles as the receiver's store
-- decided, and in no other way: paired, with the address that the store chose and the key of the
-- receiver; rejected, for the same reason; `unusable`, or `unknown`. Assumed are: the invitation parses;
-- no network section; a device is told unicast addresses that differ; and of `JSON.parse`, that it reads
-- the answer as it was written and does not read a greeting.
pub pairing_agrees :
    (parse : List ℕ → Option Json) (o : Options) (i : Invitation) (receiver_address : Text)
    (ask : Text → Enrolled) (now : ℕ) (logs : List (Text × ℕ)) (bytes : List ℕ)
    → parse_invitation o.invitation ≡ some i
    → o.network ≡ none
    → parse hello ≡ none
    → parse bytes
      ≡ some (
          answer_json
            (enroll true receiver_address i.receiver_key
              (enrollment_prefix ++ i.secret)
              ask
              now
              logs).answer)
    → TellsGood receiver_address (ask i.secret)
    → (q : Pairing) × (start o ≡ inl q)
      × (let r = run parse q (connected i.receiver_key ∷ written ∷ frame bytes ∷ []) in
          (r.outcome ≡ some (heard i.receiver_key receiver_address (ask i.secret)))
          × (r.sent ≡ (enrollment_prefix ++ i.secret) ∷ []))
unfolding finish
pairing_agrees parse o i ra ask now logs bytes e n greeting read good =
    let (key, secret) = parsed_keys o.invitation i e in
    let request = enrollment_prefix ++ i.secret in
    let understood = secret-request i.secret request secret (request_of i.secret secret) in
    let told =
      ap (read_json none i.receiver_key) read
      ∙ enroll-heard i.receiver_key ra key i.secret request ask now logs understood good in
    let whole = exchange_lem parse i secret bytes (no_greeting (text_eq bytes hello) refl) in
    (
      fresh i,
      start_lem o i e n,
      (ap (λ (r : Pairing). r.outcome) whole ∙ ap some told, ap (λ (r : Pairing). r.sent) whole),
    )
  where
    no_greeting : (b : Bool) → text_eq bytes hello ≡ b → b ≡ false
    no_greeting false h = refl
    no_greeting true h =
        let same = ap parse (eq_of_text_eq bytes hello h) in
        let nothing : parse bytes ≡ none = same ∙ greeting in absurd (cc)
