-- ===== src/Config/Runs.antt =====
-- A run of the parser on a small configuration.
use kepos.Common.{ℕ, zero, suc, some, none, List, [], ◌∷◌, ◌≡◌, refl}
use kepos.Common.Integers.{pos}
use kepos.Common.Json.{Json, object, array, text, field, last, item, end, lookup}
use kepos.Common.Text.{Text, codes}
use kepos.Common.Split.{split}
use kepos.Invitation.{is_key}
use kepos.ReceiverState.Addresses.{some_bad, reserved}
use kepos.ReceiverState.{repeated}
use kepos.ReceiverState.Durable.{ports}
use kepos.Config.{PeerConfig, accept, parse_peer_config}
use kepos.Config.Values.{ok, parse_address}
use kepos.Config.Vpn.{Accepted, parse_peer_config-Accepted}

abbrev pub repeat : ℕ → ℕ → List ℕ
repeat zero b = []
repeat (suc n) b = b ∷ repeat n b

abbrev pub key : Text
key = repeat 64 b'a'

abbrev pub phone : Json
phone = object (
    field (codes "label") (text (codes "phone")) (
      field (codes "publicKey") (text key)
        (field (codes "connection") (text (codes "accept")) last)))

abbrev pub entry : Json
entry = object (
    field (codes "peer") (text (codes "phone")) (
      field (codes "address") (text (codes "10.7.0.2"))
        (field (codes "allowTcp") (array (item (Json.number (pos 22)) end)) last)))

abbrev pub source : Json
source = object (
    field (codes "peers") (array (item phone end)) (
      field (codes "vpn")
        (object (
          field (codes "address") (text (codes "10.7.0.1"))
            (field (codes "peers") (array (item entry end)) last)))
        last))

abbrev pub config : PeerConfig
config = record {
  vpn = some (record {
    address = codes "10.7.0.1";
    peers =
        record { peer = codes "phone"; address = codes "10.7.0.2"; allow_tcp = ports (22 ∷ []) }
        ∷ [];
  });
  network = none;
  peers = record { label = codes "phone"; public_key = key; connection = accept } ∷ [];
}

unfoldable pub loop : Unit {0}
unfolding parse_peer_config parse_address lookup is_key split repeated some_bad reserved
loop = tt

pub parse_run : parse_peer_config source ≡ ok config
unfolding loop
parse_run = refl

parse_peer_config-Accepted_example : Accepted config
parse_peer_config-Accepted_example = parse_peer_config-Accepted source config parse_run
