-- ===== src/Config.antt =====
-- src/config.ts: the parser of the configuration. The values are those of the TOML library.
pub mod Values
pub mod Accepted
pub mod Entries
pub mod Vpn
pub mod Toml
pub mod Runs
use kepos.Common.{
  ℕ, ◌+◌, Bool, true, false, not, ◌||◌, Option, none, some, List, [], ◌∷◌, ◌++◌, map, ltb, ◌==◌,
  if◌then◌else◌, length,
}
use kepos.Common.Json.{Json, text, Fields, lookup}
use kepos.Common.Text.{Text, codes, has, has_text, text_eq}
use kepos.Invitation.{is_key}
use kepos.ReceiverState.Durable.{Grant, all_ports, ports}
use kepos.ReceiverState.{repeated}
use kepos.Config.Values.{
  Parsed, ok, error, ◌>>=◌, parse_record, parse_array, parse_key_hex, reject_unknown, trimmable,
  byte_length, label_bytes, has_control, parse_reference, parse_port, parse_address, each, indexed,
}

pub data Connection : Type 0 where
  dial accept : Connection

pub record PeerDefinition : Type 0 where
  pub label : Text
  pub public_key : Text
  pub connection : Connection

pub record VpnPeer : Type 0 where
  pub peer : Text
  pub address : Text
  pub allow_tcp : Grant

pub record PeerVpnConfig : Type 0 where
  pub address : Text
  pub peers : List VpnPeer

pub data Route : Type 0 where
  auto public : Route

pub record PeerNetworkConfig : Type 0 where
  pub bootstrap : Option (List (Text × ℕ))
  pub route : Option Route

pub record PeerConfig : Type 0 where
  pub vpn : Option PeerVpnConfig
  pub network : Option PeerNetworkConfig
  pub peers : List PeerDefinition

abbrev pub get : Fields → Text → Option Json
get fields name = lookup fields name

abbrev pub parse_label : Option Json → Text → Parsed Text
parse_label (some (text s)) field =
    if length s == 0 || trimmable s || ltb label_bytes (byte_length s) || has_control s
    then error (field ++ codes ".label must be a non-empty bounded label")
    else ok s
parse_label _ field = error (field ++ codes ".label must be a non-empty bounded label")

abbrev pub parse_connection : Option Json → Text → Parsed Connection
parse_connection (some (text s)) field =
    if text_eq s (codes "dial")
    then ok dial
    else if text_eq s (codes "accept")
    then ok accept
    else error (field ++ codes ".connection must be dial or accept")
parse_connection _ field = error (field ++ codes ".connection must be dial or accept")

pub parse_definition : Json → Text → Parsed PeerDefinition
parse_definition value field =
    parse_record (some value) (field ++ codes " must be an object") >>= λ fields.
    reject_unknown fields (codes "label" ∷ codes "publicKey" ∷ codes "connection" ∷ []) field
    >>= λ _. parse_label (get fields (codes "label")) field >>= λ label.
        parse_key_hex (get fields (codes "publicKey")) (field ++ codes ".publicKey") >>= λ key.
        parse_connection (get fields (codes "connection")) field >>= λ connection.
        ok (record { label = label; public_key = key; connection = connection })

abbrev pub labels_of : List PeerDefinition → List Text
labels_of ps = map (λ (p : PeerDefinition). p.label) ps

abbrev pub keys_of : List PeerDefinition → List Text
keys_of ps = map (λ (p : PeerDefinition). p.public_key) ps

-- The loop over the peers with its two sets.
pub distinct_peers : List PeerDefinition → List Text → List Text → Parsed (Unit {0})
distinct_peers [] labels keys = ok tt
distinct_peers (p ∷ ps) labels keys =
    let rest = distinct_peers ps (p.label ∷ labels) (p.public_key ∷ keys) in
    if has_text labels p.label
    then error (codes "duplicate peer label: " ++ p.label)
    else if has_text keys p.public_key
    then error (codes "duplicate peer public key: " ++ p.public_key)
    else rest

-- The key of the first peer with a label.
abbrev pub key_of_label : List PeerDefinition → Text → Option Text
key_of_label [] label = none
key_of_label (p ∷ ps) label =
    let later = key_of_label ps label in if text_eq p.label label then some p.public_key else later

-- `resolvePeerReference`, and the key that the reference stands for.
pub resolve : Text → List PeerDefinition → Text → Parsed Text
resolve reference peers field =
    if is_key reference
    then (if has_text (keys_of peers) reference
        then ok reference
        else error (field ++ codes " references an unknown peer public key"))
    else elim (key_of_label peers reference) [
      | none ↦ error (field ++ codes " references an unknown peer label")
      | some key ↦ ok key
    ]

pub parse_allowed : Option Json → Text → Parsed Grant
parse_allowed none field = ok (ports [])
parse_allowed (some (text s)) field =
    if text_eq s (codes "all")
    then ok all_ports
    else error (field ++ codes ".allowTcp must be all or an array of TCP ports")
parse_allowed (some value) field =
    parse_array (some value) (field ++ codes ".allowTcp must be all or an array of TCP ports")
    >>= λ items.
        each (λ i port. parse_port (some port) (indexed (field ++ codes ".allowTcp") i)) 0 items
        >>= λ ns.
            if repeated ns
            then error (field ++ codes ".allowTcp contains a duplicate port")
            else ok (ports ns)

-- A peer of the VPN, with the key that it stands for.
pub parse_vpn_peer :
    Json → List PeerDefinition → List Text → List Text → Text → Parsed (VpnPeer × Text)
unfolding resolve parse_allowed
parse_vpn_peer value peers keys addresses field =
    parse_record (some value) (field ++ codes " must be an object") >>= λ fields.
    reject_unknown fields (codes "peer" ∷ codes "address" ∷ codes "allowTcp" ∷ []) field >>= λ _.
    parse_reference (get fields (codes "peer")) (field ++ codes ".peer") >>= λ peer.
    resolve peer peers (field ++ codes ".peer") >>= λ key.
    (if has_text keys key then error (field ++ codes " duplicates a VPN peer") else ok tt) >>= λ _.
    parse_address (get fields (codes "address")) (field ++ codes ".address") >>= λ address.
    (if has_text addresses address
      then error (field ++ codes " duplicates a VPN address")
      else ok tt)
    >>= λ _. parse_allowed (get fields (codes "allowTcp")) field >>= λ allowed.
        ok (record { peer = peer; address = address; allow_tcp = allowed }, key)

-- `value.peers.map` in `parsePeerVpn`, with its two sets.
pub parse_vpn_peers :
    List Json → List PeerDefinition → List Text → List Text → ℕ → Parsed (List VpnPeer)
unfolding parse_vpn_peer
parse_vpn_peers [] peers keys addresses index = ok []
parse_vpn_peers (j ∷ js) peers keys addresses index =
    parse_vpn_peer j peers keys addresses (indexed (codes "vpn.peers") index) >>= λ r.
    parse_vpn_peers js peers (r.1 ∷ keys) (r.0.address ∷ addresses) (index + 1) >>= λ rest.
    ok (r.0 ∷ rest)

pub parse_vpn : Json → List PeerDefinition → Parsed PeerVpnConfig
unfolding parse_vpn_peers
parse_vpn value peers = parse_record (some value) (codes "vpn must be an object") >>= λ fields.
    reject_unknown fields (codes "address" ∷ codes "peers" ∷ []) (codes "vpn") >>= λ _.
    parse_address (get fields (codes "address")) (codes "vpn.address") >>= λ address.
    parse_array (get fields (codes "peers")) (codes "vpn.peers must be an array") >>= λ items.
    (if ltb 16 (length items) then error (codes "vpn supports at most 16 peers") else ok tt)
    >>= λ _. parse_vpn_peers items peers [] (address ∷ []) 0 >>= λ entries.
        ok (record { address = address; peers = entries })

abbrev pub parse_host : Option Json → Text → Parsed Text
parse_host (some (text s)) field =
    if length s == 0 then error (field ++ codes ".host must be non-empty") else ok s
parse_host _ field = error (field ++ codes ".host must be non-empty")

pub parse_node : ℕ → Json → Parsed (Text × ℕ)
parse_node index value =
    let name = indexed (codes "network.bootstrap") index in
    parse_record (some value) (name ++ codes " must be an object") >>= λ fields.
    reject_unknown fields (codes "host" ∷ codes "port" ∷ []) name >>= λ _.
    parse_host (get fields (codes "host")) name >>= λ host.
    parse_port (get fields (codes "port")) (name ++ codes ".port") >>= λ port. ok (host, port)

abbrev some_nodes : List (Text × ℕ) → Option (List (Text × ℕ))
some_nodes [] = none
some_nodes (n ∷ ns) = some (n ∷ ns)

pub parse_bootstrap : Option Json → Parsed (Option (List (Text × ℕ)))
unfolding parse_node
parse_bootstrap none = ok none
parse_bootstrap (some value) =
    parse_array (some value) (codes "network.bootstrap must be an array") >>= λ items.
    each parse_node 0 items >>= λ nodes. ok (some_nodes nodes)

pub parse_route : Option Json → Parsed (Option Route)
parse_route none = ok none
parse_route (some (text s)) =
    if text_eq s (codes "auto")
    then ok (some auto)
    else if text_eq s (codes "public")
    then ok (some public)
    else error (codes "network.route must be auto or public")
parse_route (some _) = error (codes "network.route must be auto or public")

pub parse_network : Json → Parsed PeerNetworkConfig
unfolding parse_bootstrap parse_route
parse_network value = parse_record (some value) (codes "network must be an object") >>= λ fields.
    reject_unknown fields (codes "bootstrap" ∷ codes "route" ∷ []) (codes "network") >>= λ _.
    parse_bootstrap (get fields (codes "bootstrap")) >>= λ bootstrap.
    parse_route (get fields (codes "route")) >>= λ route.
    ok (record { bootstrap = bootstrap; route = route })

-- A section that may be missing.
abbrev pub optional : {A : Type 0} → (Json → Parsed A) → Option Json → Parsed (Option A)
optional parse none = ok none
optional parse (some value) = parse value >>= λ a. ok (some a)

unfoldable pub parse_peer_config : Json → Parsed PeerConfig
unfolding parse_definition distinct_peers parse_vpn parse_network
parse_peer_config value =
    parse_record (some value) (codes "peer config must be an object") >>= λ fields.
    reject_unknown fields (codes "network" ∷ codes "vpn" ∷ codes "peers" ∷ []) (codes "peer config")
    >>= λ _. parse_array (get fields (codes "peers")) (codes "peers must be an array") >>= λ items.
        each (λ i j. parse_definition j (indexed (codes "peers") i)) 0 items >>= λ peers.
        distinct_peers peers [] [] >>= λ _.
        optional (λ v. parse_vpn v peers) (get fields (codes "vpn")) >>= λ vpn.
        optional parse_network (get fields (codes "network")) >>= λ network.
        ok (record { vpn = vpn; network = network; peers = peers })
