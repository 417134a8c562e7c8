-- ===== src/WorkletBridge/Settings.antt =====
-- The peers that a bridge tells the app of, and those of the engine.
use kepos.Common.{
  ◌≡◌, refl, ap, ◌∙◌, arith, Option, none, some, List, [], ◌∷◌, map, ◌++◌, if◌then◌else◌,
}
use kepos.Common.Text.{Text, text_eq, codes}
use kepos.Config.{PeerDefinition, VpnPeer}
use kepos.Config.Values.{Parsed, ok, error, ◌>>=◌}
use kepos.Engine.Members.{Peer, find_definition, member, members}
use kepos.WorkletBridge.State.{Entry}
use kepos.WorkletBridge.Messages.{settings_peer, settings_peers}

abbrev pub entry_of : Peer → Entry
entry_of m = record { public_key = m.key; label = m.label; address = m.address }

abbrev pub entry_result : Parsed Peer → Option Entry
entry_result (error message) = none
entry_result (ok m) = some (entry_of m)

abbrev pub entries_of : Parsed (List Peer) → Option (List Entry)
entries_of (error message) = none
entries_of (ok ms) = some (map entry_of ms)

settings_peer_lem :
    (own_key : Text) (ds : List PeerDefinition) (e : VpnPeer)
    → settings_peer own_key ds e ≡ entry_result (member own_key ds e)
unfolding settings_peer member
settings_peer_lem own_key ds e = go (find_definition ds e.peer)
  where
    go :
        (o : Option PeerDefinition)
        → elim o as (λ x. Option Entry) [
          | none ↦ none
          | some d ↦
              if text_eq d.public_key own_key
              then none
              else some (record { public_key = d.public_key; label = d.label; address = e.address })
        ]
          ≡ entry_result (elim o as (λ x. Parsed Peer) [
            | none ↦ error (codes "Unknown VPN peer: " ++ e.peer)
            | some d ↦
                if text_eq d.public_key own_key
                then error (codes "VPN config cannot include its own key")
                else ok (record {
                  label = d.label;
                  key = d.public_key;
                  address = e.address;
                  direction = d.connection;
                  allow_tcp = e.allow_tcp;
                })
          ])
    go none = refl
    go (some d) = ground arith

-- The peers of the settings are those of the engine, with their keys, labels and addresses, and there are
-- none, which is an error, exactly if the engine would refuse the configuration for its peers.
pub settings_peers-members :
    (own_key : Text) (ds : List PeerDefinition) (es : List VpnPeer)
    → settings_peers own_key ds es ≡ entries_of (members own_key ds es)
unfolding settings_peers members
settings_peers-members own_key ds [] = refl
settings_peers-members own_key ds (e ∷ es) =
    rw (settings_peer_lem own_key ds e, settings_peers)
      (ap (join (entry_result (member own_key ds e))) (settings_peers-members own_key ds es)
        ∙ go (member own_key ds e) (members own_key ds es))
  where
    join : Option Entry → Option (List Entry) → Option (List Entry)
    join o t = elim o as (λ x. Option (List Entry)) [
      | none ↦ none
      | some p ↦ elim t as (λ x. Option (List Entry)) [ none ↦ none | some ps ↦ some (p ∷ ps) ]
    ]

    go :
        (r : Parsed Peer) (s : Parsed (List Peer))
        → join (entry_result r) (entries_of s) ≡ entries_of (r >>= λ m. s >>= λ rest. ok (m ∷ rest))
    go (error m) s = refl
    go (ok m) (error n) = refl
    go (ok m) (ok ms) = refl
