-- ===== src/Config/Toml/RoundTrip.antt =====
-- What is written as TOML is read back.
use kepos.Common.{
  ℕ, ◌+◌, ◌≡◌, ◌≢◌, ◌≤◌, refl, ap, ◌∙◌, false, Option, none, some, List, [], ◌∷◌, ◌++◌, map, ltb,
  ◌==◌, All, length, arith, if_cases,
}
use kepos.Common.Json.{Json, array, text, Items, to_list, lookup}
use kepos.Common.Split.{split, split-append, split-none}
use kepos.Common.Text.{Text, codes, decimal, decimal_from, decimal-IsDigit, IsDigit}
use kepos.Config.{
  PeerDefinition, VpnPeer, PeerVpnConfig, PeerNetworkConfig, PeerConfig, Route, auto, public,
  parse_peer_config,
}
use kepos.Config.Values.{Parsed, ok, ◌>>=◌, each}
use kepos.Config.Toml.{
  items_of, raw_peer, raw_vpn_peer, parse_toml_vpn, all_texts, string_of, read_route, route_text,
  parse_tcp_port, bootstrap_value, parse_bootstrap_values, raw_bootstrap, raw_route,
  parse_toml_network, parse_root, parse_kepos_config, serialize_kepos_config, peer_json,
  vpn_peer_json, vpn_json, node_json, node_text, network_json, config_json, toml_json,
}

list_items : (js : List Json) → to_list (items_of js) ≡ js
list_items [] = refl
list_items (j ∷ js) = ap (◌∷◌ j) (list_items js)

-- `each` over values that are all read.
each_map :
    {A : Type 0} (parse : ℕ → Json → Parsed Json) (f g : A → Json) (i : ℕ) (xs : List A)
    → ((i : ℕ) (x : A) → parse i (f x) ≡ ok (g x))
    → each parse i (map f xs) ≡ ok (map g xs)
each_map parse f g i [] h = refl
each_map parse f g i (x ∷ xs) h = rw (h i x) (rw (each_map parse f g (i + 1) xs h) refl)

raw_peer_lem :
    (i : ℕ) (p : PeerDefinition)
    → raw_peer i (peer_json (codes "public_key") p) ≡ ok (peer_json (codes "publicKey") p)
unfolding raw_peer lookup
raw_peer_lem i p = refl

raw_vpn_peer_lem :
    (i : ℕ) (e : VpnPeer)
    → raw_vpn_peer i (vpn_peer_json (codes "allow_tcp") e) ≡ ok (vpn_peer_json (codes "allowTcp") e)
unfolding raw_vpn_peer lookup
raw_vpn_peer_lem i e = refl

peers_lem :
    (ps : List PeerDefinition)
    → each raw_peer 0 (map (peer_json (codes "public_key")) ps)
      ≡ ok (map (peer_json (codes "publicKey")) ps)
peers_lem ps =
    each_map raw_peer (peer_json (codes "public_key")) (peer_json (codes "publicKey")) 0 ps
      raw_peer_lem

vpn_lem :
    (v : PeerVpnConfig)
    → parse_toml_vpn (vpn_json (codes "allow_tcp") v) ≡ ok (vpn_json (codes "allowTcp") v)
unfolding parse_toml_vpn lookup
vpn_lem v = rw (list_items (map (vpn_peer_json (codes "allow_tcp")) v.peers)) (
    rw
      (each_map raw_vpn_peer (vpn_peer_json (codes "allow_tcp")) (vpn_peer_json (codes "allowTcp"))
        0 v.peers raw_vpn_peer_lem)
      refl)

route_lem : (r : Route) → read_route (string_of (text (route_text r))) ≡ ok r
unfolding read_route string_of
route_lem auto = refl
route_lem public = refl

-- A node that has a text of its own: a host without a colon, and a port.
abbrev pub IsNode : Text × ℕ → Type 0
IsNode (host, port) =
    (host ≢ []) × (All (λ c. (c == b':') ≡ false) host × ((1 ≤ port) × (port ≤ 65535)))

abbrev pub IsBootstrap : Option (List (Text × ℕ)) → Type 0
IsBootstrap none = Unit
IsBootstrap (some nodes) = (nodes ≢ []) × All IsNode nodes

abbrev pub IsNetwork : Option PeerNetworkConfig → Type 0
IsNetwork none = Unit
IsNetwork (some n) = IsBootstrap n.bootstrap

all_texts_lem :
    (nodes : List (Text × ℕ))
    → all_texts (map node_text nodes)
      ≡ some (map (λ (n : Text × ℕ). n.0 ++ b':' ∷ decimal n.1) nodes)
unfolding all_texts
all_texts_lem [] = refl
all_texts_lem ((h, p) ∷ ns) = rw (all_texts_lem ns) refl

no_colon : (s : Text) → All IsDigit s → All (λ c. (c == b':') ≡ false) s
no_colon [] h = tt
no_colon (c ∷ s) h = (ground arith, no_colon s h.1)

nonempty : (s : Text) → s ≢ [] → (length s == 0) ≡ false
nonempty [] h = absurd (h refl)
nonempty (c ∷ s) h = ground arith

append_nonempty : (s : Text) (c : ℕ) → s ++ c ∷ [] ≢ []
append_nonempty [] c = λ e. cc
append_nonempty (x ∷ s) c = λ e. cc

decimal_nonempty : (n : ℕ) → (length (decimal n) == 0) ≡ false
unfolding decimal decimal_from
decimal_nonempty n =
    nonempty _
      (if_cases (λ (s : Text). s ≢ []) (ltb n 10) _ _ (λ e h. cc) (λ e. append_nonempty _ _))

module _ (number_of : Text → Option ℕ)
    (numbers : (n : ℕ) → n ≤ 65535 → number_of (decimal n) ≡ some n) where
  port_lem :
      (port : ℕ) (name : Text)
      → 1 ≤ port
      → port ≤ 65535
      → parse_tcp_port number_of (decimal port) name ≡ ok port
  unfolding parse_tcp_port
  port_lem port name low high = rw (numbers port high, parse_tcp_port) (ground arith)

  pair_lem :
      (host digits : Text) (port : ℕ) (name : Text)
      → (length host == 0) ≡ false
      → (length digits == 0) ≡ false
      → parse_tcp_port number_of digits (name ++ codes " port") ≡ ok port
      → bootstrap_value number_of name (host ∷ digits ∷ []) ≡ ok (host, port)
  unfolding bootstrap_value
  pair_lem host digits port name h d e =
      rw (h, bootstrap_value) (rw (d, bootstrap_value) (rw (e, bootstrap_value) refl))

  node_lem :
      (n : Text × ℕ) (name : Text)
      → IsNode n
      → bootstrap_value number_of name (split b':' (n.0 ++ b':' ∷ decimal n.1)) ≡ ok n
  node_lem (host, port) name (named, (plain, (low, high))) =
      let parts : split b':' (host ++ b':' ∷ decimal port) ≡ host ∷ decimal port ∷ [] =
        split-append b':' host (decimal port) plain
        ∙ ap (◌∷◌ host)
            (split-none b':' (decimal port) (no_colon (decimal port) (decimal-IsDigit port))) in
      rw parts (
        pair_lem host (decimal port) port name (nonempty host named) (decimal_nonempty port)
          (port_lem port (name ++ codes " port") low high))

  nodes_lem :
      (nodes : List (Text × ℕ)) (name : Text)
      → All IsNode nodes
      → parse_bootstrap_values number_of
          (map (λ (n : Text × ℕ). n.0 ++ b':' ∷ decimal n.1) nodes)
          name
        ≡ ok nodes
  unfolding parse_bootstrap_values
  nodes_lem [] name h = refl
  nodes_lem (n ∷ ns) name h =
      rw (node_lem n name h.0, parse_bootstrap_values) (rw (nodes_lem ns name h.1) refl)

  strings_lem :
      (items : Items) (values : List Text) (nodes : List (Text × ℕ))
      → all_texts (to_list items) ≡ some values
      → parse_bootstrap_values number_of values (codes "network.bootstrap") ≡ ok nodes
      → (length nodes == 0) ≡ false
      → raw_bootstrap number_of (some (array items))
        ≡ ok (some (array (items_of (map node_json nodes))))
  unfolding raw_bootstrap
  strings_lem items values nodes e p h =
      rw (e, raw_bootstrap) (rw (p, raw_bootstrap) (rw (h, raw_bootstrap) refl))

  bootstrap_lem :
      (nodes : List (Text × ℕ))
      → IsBootstrap (some nodes)
      → raw_bootstrap number_of (some (array (items_of (map node_text nodes))))
        ≡ ok (some (array (items_of (map node_json nodes))))
  bootstrap_lem nodes (some_node, good) =
      strings_lem (items_of (map node_text nodes)) _ nodes
        (ap all_texts (list_items (map node_text nodes)) ∙ all_texts_lem nodes)
        (nodes_lem nodes (codes "network.bootstrap") good) (filled nodes some_node)
    where
      filled : (ns : List (Text × ℕ)) → ns ≢ [] → (length ns == 0) ≡ false
      filled [] h = absurd (h refl)
      filled (n ∷ ns) h = ground arith

  raw_route_lem :
      (r : Route)
      → raw_route number_of (some (text (route_text r))) ≡ ok (some (text (route_text r)))
  unfolding raw_route
  raw_route_lem r = rw (route_lem r, raw_route) refl

  network_lem :
      (n : PeerNetworkConfig)
      → IsBootstrap n.bootstrap
      → parse_toml_network number_of (network_json node_text n) ≡ ok (network_json node_json n)
  unfolding parse_toml_network lookup
  network_lem n h = go n.bootstrap n.route h
    where
      go :
          (b : Option (List (Text × ℕ))) (r : Option Route)
          → IsBootstrap b
          → parse_toml_network number_of
              (network_json node_text (record { bootstrap = b; route = r }))
            ≡ ok (network_json node_json (record { bootstrap = b; route = r }))
      go none none h = refl
      go none (some r) h = simp (raw_route_lem r)
      go (some nodes) none h = simp (bootstrap_lem nodes h)
      go (some nodes) (some r) h = simp (bootstrap_lem nodes h, raw_route_lem r)

  root_lem :
      (c : PeerConfig)
      → IsNetwork c.network
      → parse_root number_of (toml_json c) ≡ parse_peer_config (config_json c)
  unfolding parse_root lookup
  root_lem c h = go c.vpn c.network c.peers h
    where
      go :
          (v : Option PeerVpnConfig) (n : Option PeerNetworkConfig) (ps : List PeerDefinition)
          → IsNetwork n
          → let c : PeerConfig = record { vpn = v; network = n; peers = ps } in
            parse_root number_of (toml_json c) ≡ parse_peer_config (config_json c)
      go none none ps h = simp (list_items, peers_lem ps)
      go none (some n) ps h = simp (list_items, peers_lem ps, network_lem n h)
      go (some v) none ps h = simp (list_items, peers_lem ps, vpn_lem v)
      go (some v) (some n) ps h = simp (list_items, peers_lem ps, vpn_lem v, network_lem n h)

-- A configuration that the parser of configurations gives back unchanged is written as a TOML text that
-- is read as that configuration, and the writer, which reads its text back, does not fail. Its bootstrap
-- nodes, if it has any, have a host without a colon and a port from 1 through 65535. Assumed are of the
-- TOML library that it reads what it wrote for this value, and of `Number` that it reads the decimal
-- numbers up to 65535.
pub serialize-parse :
    (number_of : Text → Option ℕ) (toml : Text → Parsed Json) (stringify : Json → Text)
    (c : PeerConfig)
    → ((n : ℕ) → n ≤ 65535 → number_of (decimal n) ≡ some n)
    → toml (stringify (toml_json c)) ≡ ok (toml_json c)
    → parse_peer_config (config_json c) ≡ ok c
    → IsNetwork c.network
    → (serialize_kepos_config number_of toml stringify c ≡ ok (stringify (toml_json c)))
      × (parse_kepos_config number_of toml stringify (stringify (toml_json c)) ≡ ok c)
unfolding serialize_kepos_config parse_kepos_config
serialize-parse number_of toml stringify c numbers written valid network =
    let back : (toml (stringify (toml_json c)) >>= λ value. parse_root number_of value) ≡ ok c =
      ap (λ r. r >>= λ value. parse_root number_of value) written
      ∙ root_lem number_of numbers c network
      ∙ valid in
    (
      ap
            (λ (r : Parsed PeerConfig). r >>= λ parsed.
              (toml (stringify (toml_json parsed)) >>= λ value. parse_root number_of value) >>= λ _.
              ok (stringify (toml_json parsed)))
            valid
          ∙ ap (λ (r : Parsed PeerConfig). r >>= λ _. ok (stringify (toml_json c))) back,
      back,
    )
