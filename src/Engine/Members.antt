-- ===== src/Engine/Members.antt =====
-- src/vpn/engine.ts: the peers of the engine, from the configuration.
pub mod Resolution
mod Runs
use kepos.Common.{Bool, true, false, ◌||◌, Option, none, some, List, [], ◌∷◌, ◌++◌, if◌then◌else◌}
use kepos.Common.Text.{Text, codes, text_eq}
use kepos.ReceiverState.Durable.{Grant, all_ports, ports}
use kepos.Policy.State.{Ports, all, only}
use kepos.Config.{Connection, PeerDefinition, VpnPeer}
use kepos.Config.Values.{Parsed, ok, error, ◌>>=◌}

-- `type Peer`
pub record Peer : Type 0 where
  pub label : Text
  pub key : Text
  pub address : Text
  pub direction : Connection
  pub allow_tcp : Grant

-- `peers.find((peer) => peer.label === reference || peer.publicKey === reference)`
unfoldable pub find_definition : List PeerDefinition → Text → Option PeerDefinition
find_definition [] reference = none
find_definition (d ∷ ds) reference =
    let later = find_definition ds reference in
    if text_eq d.label reference || text_eq d.public_key reference then some d else later

unfoldable pub member : Text → List PeerDefinition → VpnPeer → Parsed Peer
unfolding find_definition
member own_key definitions entry = elim (find_definition definitions entry.peer) [
  | none ↦ error (codes "Unknown VPN peer: " ++ entry.peer)
  | some d ↦
      if text_eq d.public_key own_key
      then error (codes "VPN config cannot include its own key")
      else ok (record {
        label = d.label;
        key = d.public_key;
        address = entry.address;
        direction = d.connection;
        allow_tcp = entry.allow_tcp;
      })
]

unfoldable pub members : Text → List PeerDefinition → List VpnPeer → Parsed (List Peer)
unfolding member
members own_key definitions [] = ok []
members own_key definitions (e ∷ es) =
    member own_key definitions e >>= λ m. members own_key definitions es >>= λ rest. ok (m ∷ rest)
