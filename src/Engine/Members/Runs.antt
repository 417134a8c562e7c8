-- ===== src/Engine/Members/Runs.antt =====
-- References that are read alike, and one that is not.
use kepos.Common.{none, some, List, [], ◌∷◌, ◌≡◌, refl}
use kepos.Common.Json.{Json, object, array, text, field, last, item, end}
use kepos.Common.Text.{Text, codes}
use kepos.ReceiverState.Durable.{ports}
use kepos.Config.{accept, PeerConfig, PeerVpnConfig, parse_peer_config}
use kepos.Config.Runs.{key, config, source, parse_run, repeat, loop}
use kepos.Config.Values.{ok}
use kepos.Invitation.{is_key}
use kepos.Config.Vpn.{parse_peer_config-Accepted}
use kepos.Engine.Members.{Peer, members}
use kepos.Engine.Members.Resolution.{Resolved, members-Resolved}

abbrev section : PeerVpnConfig
section = record {
  address = codes "10.7.0.1";
  peers =
      record { peer = codes "phone"; address = codes "10.7.0.2"; allow_tcp = ports (22 ∷ []) } ∷ [];
}

members-Resolved_example :
    (ms : List Peer) × (members (codes "own") config.peers section.peers ≡ ok ms)
    × Resolved config.peers [] section.peers ms
unfolding is_key
members-Resolved_example =
    members-Resolved (codes "own") config section
      (parse_peer_config-Accepted source config parse_run) refl (refl, tt) refl

-- The label of the first peer is the key of the second.
abbrev other_key : Text
other_key = repeat 64 b'b'

abbrev peer_entry : Text → Text → Json
peer_entry label key = object (
    field (codes "label") (text label) (
      field (codes "publicKey") (text key)
        (field (codes "connection") (text (codes "accept")) last)))

abbrev vpn_entry : Text → Text → Json
vpn_entry peer address =
    object (field (codes "peer") (text peer) (field (codes "address") (text address) last))

abbrev shadowed : Json
shadowed = object (
    field (codes "peers")
      (array (item (peer_entry other_key key) (item (peer_entry (codes "tablet") other_key) end)))
      (field (codes "vpn")
        (object (
          field (codes "address") (text (codes "10.7.0.1")) (
            field (codes "peers")
              (array (
                item (vpn_entry other_key (codes "10.7.0.2"))
                  (item (vpn_entry key (codes "10.7.0.3")) end)))
              last)))
        last))

abbrev shadowed_section : PeerVpnConfig
shadowed_section = record {
  address = codes "10.7.0.1";
  peers =
      record { peer = other_key; address = codes "10.7.0.2"; allow_tcp = ports [] }
      ∷ record { peer = key; address = codes "10.7.0.3"; allow_tcp = ports [] }
      ∷ [];
}

abbrev shadowed_config : PeerConfig
shadowed_config = record {
  vpn = some shadowed_section;
  network = none;
  peers =
      record { label = other_key; public_key = key; connection = accept }
      ∷ record { label = codes "tablet"; public_key = other_key; connection = accept }
      ∷ [];
}

shadowed_is_accepted : parse_peer_config shadowed ≡ ok shadowed_config
unfolding loop
shadowed_is_accepted = refl

abbrev twice : Text → Text → Peer
twice label address = record {
  label = label;
  key = key;
  address = address;
  direction = accept;
  allow_tcp = ports [];
}

-- Both entries of the section become the peer with the first key.
shadowed_members :
    members (codes "own") shadowed_config.peers shadowed_section.peers
    ≡ ok (twice other_key (codes "10.7.0.2") ∷ twice other_key (codes "10.7.0.3") ∷ [])
unfolding members
shadowed_members = refl
