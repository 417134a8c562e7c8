-- ===== src/Config/Toml.antt =====
-- src/config-toml.ts and src/cli/options.ts: the configuration as TOML. `toml` is `parse` of the TOML
-- library, which throws a message or gives a value; `stringify` is its writer. `number_of` is `Number` of
-- a text, where it is a natural number.
pub mod RoundTrip
mod Runs
use kepos.Common.{
  ℕ, ◌+◌, Bool, true, false, not, ◌&&◌, ◌||◌, Option, none, some, List, [], ◌∷◌, ◌++◌, map, ltb,
  ◌==◌, if◌then◌else◌, length,
}
use mathlib.Core.Option
use kepos.Common.Integers.{ℤ, pos, negsuc}
use kepos.Common.Json.{
  Json, null, boolean, number, fraction, text, array, object, Items, item, end, Fields, field, last,
  lookup, to_list, is_text,
}
use kepos.Common.Split.{split}
use kepos.Common.Text.{Text, codes, decimal, text_eq}
use kepos.Config.Values.{
  Parsed, ok, error, ◌>>=◌, parse_record, parse_array, reject_unknown, each, indexed,
}
use kepos.Config.{
  Connection, dial, accept, PeerDefinition, VpnPeer, PeerVpnConfig, PeerNetworkConfig, PeerConfig,
  Route, auto, public, parse_peer_config, get,
}
use kepos.ReceiverState.Durable.{Grant, all_ports, ports}

-- `requireTable`
abbrev pub require_table : Json → Text → Parsed Fields
require_table value name = parse_record (some value) (name ++ codes " must be a TOML table")

-- A property whose value may be `undefined`.
abbrev pub maybe : Text → Option Json → Fields → Fields
maybe name none rest = rest
maybe name (some value) rest = field name value rest

abbrev pub items_of : List Json → Items
items_of [] = end
items_of (j ∷ js) = item j (items_of js)

pub raw_peer : ℕ → Json → Parsed Json
raw_peer index value = require_table value (indexed (codes "peers") index) >>= λ peer.
    reject_unknown peer (codes "label" ∷ codes "public_key" ∷ codes "connection" ∷ [])
      (indexed (codes "peers") index)
    >>= λ _. ok (
        object (
          maybe (codes "label") (get peer (codes "label")) (
            maybe (codes "publicKey") (get peer (codes "public_key"))
              (maybe (codes "connection") (get peer (codes "connection")) last))))

pub raw_vpn_peer : ℕ → Json → Parsed Json
raw_vpn_peer index value = require_table value (indexed (codes "vpn.peers") index) >>= λ peer.
    reject_unknown peer (codes "peer" ∷ codes "address" ∷ codes "allow_tcp" ∷ [])
      (indexed (codes "vpn.peers") index)
    >>= λ _. ok (
        object (
          maybe (codes "peer") (get peer (codes "peer")) (
            maybe (codes "address") (get peer (codes "address"))
              (maybe (codes "allowTcp") (get peer (codes "allow_tcp")) last))))

pub parse_toml_vpn : Json → Parsed Json
unfolding raw_vpn_peer
parse_toml_vpn value = require_table value (codes "vpn") >>= λ vpn.
    reject_unknown vpn (codes "address" ∷ codes "peers" ∷ []) (codes "vpn") >>= λ _.
    parse_array (get vpn (codes "peers")) (codes "vpn.peers must be an array") >>= λ peers.
    each raw_vpn_peer 0 peers >>= λ raw. ok (
      object (
        maybe (codes "address") (get vpn (codes "address"))
          (field (codes "peers") (array (items_of raw)) last)))

-- The strings of an array that holds nothing else.
pub all_texts : List Json → Option (List Text)
all_texts [] = some []
all_texts (text s ∷ js) = elim (all_texts js) [ none ↦ none | some rest ↦ some (s ∷ rest) ]
all_texts (_ ∷ js) = none

-- `String(value)`. Of a value that is no text or array, only that it is no route matters.
mutual
  pub string_of : Json → Text
  string_of null = codes "null"
  string_of (boolean b) = codes "boolean"
  string_of (number n) = codes "number"
  string_of (fraction n) = codes "number"
  string_of (text s) = s
  string_of (array items) = string_of_items items
  string_of (object fields) = codes "[object Object]"

  -- `join(",")`
  pub string_of_items : Items → Text
  string_of_items end = []
  string_of_items (item j end) = string_of j
  string_of_items (item j (item k rest)) = string_of j ++ b',' ∷ string_of_items (item k rest)

-- src/mux/route.ts: `parseRoute`
pub read_route : Text → Parsed Route
read_route value =
    if text_eq value (codes "auto")
    then ok auto
    else if text_eq value (codes "public")
    then ok public
    else error (codes "route must be auto or public")

pub record RouteConnectionOptions : Type 0 where
  pub local_connection : Bool
  pub reusable_socket : Bool

pub connection_options_for_route : Text → Parsed RouteConnectionOptions
unfolding read_route
connection_options_for_route route = read_route route >>= λ parsed. ok (record {
  local_connection = (elim parsed [ auto ↦ true | public ↦ false ]);
  reusable_socket = true;
})

abbrev pub route_text : Route → Text
route_text auto = codes "auto"
route_text public = codes "public"

-- A configuration as the object that it is, and as the TOML value that is written.
abbrev pub connection_text : Connection → Text
connection_text dial = codes "dial"
connection_text accept = codes "accept"

abbrev pub grant_json : Grant → Json
grant_json all_ports = text (codes "all")
grant_json (ports ns) = array (items_of (map (λ n. number (pos n)) ns))

abbrev pub peer_json : Text → PeerDefinition → Json
peer_json key_name p = object (
    field (codes "label") (text p.label) (
      field key_name (text p.public_key)
        (field (codes "connection") (text (connection_text p.connection)) last)))

abbrev pub vpn_peer_json : Text → VpnPeer → Json
vpn_peer_json grant_name e = object (
    field (codes "peer") (text e.peer)
      (field (codes "address") (text e.address) (field grant_name (grant_json e.allow_tcp) last)))

abbrev pub vpn_json : Text → PeerVpnConfig → Json
vpn_json grant_name v = object (
    field (codes "address") (text v.address)
      (field (codes "peers") (array (items_of (map (vpn_peer_json grant_name) v.peers))) last))

abbrev pub node_json : Text × ℕ → Json
node_json (host, port) =
    object (field (codes "host") (text host) (field (codes "port") (number (pos port)) last))

-- `${host}:${port}`
abbrev pub node_text : Text × ℕ → Json
node_text (host, port) = text (host ++ b':' ∷ decimal port)

abbrev pub network_json : (Text × ℕ → Json) → PeerNetworkConfig → Json
network_json node n = object (
    maybe (codes "bootstrap") (Option.map (λ nodes. array (items_of (map node nodes))) n.bootstrap)
      (maybe (codes "route") (Option.map (λ r. text (route_text r)) n.route) last))

abbrev pub config_json : PeerConfig → Json
config_json c = object (
    maybe (codes "vpn") (Option.map (vpn_json (codes "allowTcp")) c.vpn) (
      maybe (codes "network") (Option.map (network_json node_json) c.network) (
        field (codes "peers") (array (items_of (map (peer_json (codes "publicKey")) c.peers)))
          last)))

abbrev pub toml_json : PeerConfig → Json
toml_json c = object (
    field (codes "peers") (array (items_of (map (peer_json (codes "public_key")) c.peers))) (
      maybe (codes "vpn") (Option.map (vpn_json (codes "allow_tcp")) c.vpn)
        (maybe (codes "network") (Option.map (network_json node_text) c.network) last)))

module _ (number_of : Text → Option ℕ) where
  -- `parseTcpPort` with `allowZero` false.
  pub parse_tcp_port : Text → Text → Parsed ℕ
  parse_tcp_port value option = elim (number_of value) [
    | none ↦ error (option ++ codes " must be an integer from 1 through 65535")
    | some port ↦
        if ltb port 1 || ltb 65535 port
        then error (option ++ codes " must be an integer from 1 through 65535")
        else ok port
  ]

  pub bootstrap_value : Text → List Text → Parsed (Text × ℕ)
  unfolding parse_tcp_port
  bootstrap_value label (host ∷ port ∷ []) =
      if length host == 0 || length port == 0
      then error (label ++ codes " must use host:port")
      else parse_tcp_port port (label ++ codes " port") >>= λ n. ok (host, n)
  bootstrap_value label _ = error (label ++ codes " must use host:port")

  pub parse_bootstrap_values : List Text → Text → Parsed (List (Text × ℕ))
  unfolding bootstrap_value
  parse_bootstrap_values [] label = ok []
  parse_bootstrap_values (v ∷ vs) label = bootstrap_value label (split b':' v) >>= λ node.
      parse_bootstrap_values vs label >>= λ rest. ok (node ∷ rest)

  -- The `bootstrap` property, which is left out where there are no nodes.
  pub raw_bootstrap : Option Json → Parsed (Option Json)
  unfolding parse_bootstrap_values all_texts
  raw_bootstrap none = ok none
  raw_bootstrap (some (array items)) = elim (all_texts (to_list items)) [
    | none ↦ error (codes "network.bootstrap must be an array of host:port strings")
    | some values ↦ parse_bootstrap_values values (codes "network.bootstrap") >>= λ nodes.
        ok (if length nodes == 0 then none else some (array (items_of (map node_json nodes))))
  ]
  raw_bootstrap (some _) = error (codes "network.bootstrap must be an array of host:port strings")

  pub raw_route : Option Json → Parsed (Option Json)
  unfolding read_route string_of string_of_items
  raw_route none = ok none
  raw_route (some value) = read_route (string_of value) >>= λ r. ok (some (text (route_text r)))

  pub parse_toml_network : Json → Parsed Json
  unfolding raw_bootstrap raw_route
  parse_toml_network value = require_table value (codes "network") >>= λ network.
      reject_unknown network (codes "bootstrap" ∷ codes "route" ∷ []) (codes "network") >>= λ _.
      raw_bootstrap (get network (codes "bootstrap")) >>= λ bootstrap.
      raw_route (get network (codes "route")) >>= λ route.
      ok (object (maybe (codes "bootstrap") bootstrap (maybe (codes "route") route last)))

  abbrev pub section : (Json → Parsed Json) → Option Json → Parsed (Option Json)
  section parse none = ok none
  section parse (some value) = parse value >>= λ v. ok (some v)

  pub parse_root : Json → Parsed PeerConfig
  parse_root value = require_table value (codes "config") >>= λ root.
      reject_unknown root (codes "network" ∷ codes "vpn" ∷ codes "peers" ∷ []) (codes "config")
      >>= λ _. parse_array (get root (codes "peers")) (codes "peers must be an array") >>= λ items.
          each raw_peer 0 items >>= λ peers.
          section parse_toml_vpn (get root (codes "vpn")) >>= λ vpn.
          section parse_toml_network (get root (codes "network")) >>= λ network. parse_peer_config (
            object (
              maybe (codes "vpn") vpn (
                maybe (codes "network") network
                  (field (codes "peers") (array (items_of peers)) last))))

  module _ (toml : Text → Parsed Json) (stringify : Json → Text) where
    unfoldable pub parse_kepos_config : Text → Parsed PeerConfig
    unfolding parse_root raw_peer parse_toml_vpn parse_toml_network
    parse_kepos_config source = toml source >>= λ value. parse_root value

    -- `serializeKeposConfig`: the text is read back before it is given.
    unfoldable pub serialize_kepos_config : PeerConfig → Parsed Text
    unfolding parse_kepos_config
    serialize_kepos_config config = parse_peer_config (config_json config) >>= λ parsed.
        parse_kepos_config (stringify (toml_json parsed)) >>= λ _. ok (stringify (toml_json parsed))
