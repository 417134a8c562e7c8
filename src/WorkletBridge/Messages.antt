-- ===== src/WorkletBridge/Messages.antt =====
-- src/vpn/worklet-bridge.ts: what the messages of the app hold, and what is answered to them.
use kepos.Common.{
  ℕ, ◌+◌, Bool, true, false, not, Option, none, some, List, [], ◌∷◌, ltb, if◌then◌else◌,
}
use kepos.Common.Json.{Json, text, Fields, lookup, keys_are}
use kepos.Common.Text.{Text, codes, text_eq}
use kepos.Invitation.{is_key}
use kepos.Config.{PeerConfig, PeerDefinition, VpnPeer, PeerVpnConfig}
use kepos.Engine.Members.{find_definition}
use kepos.WorkletBridge.State.{
  Stage, initial, settings, running, stopped, Entry, Message, paired_message,
}

abbrev pub is_initial : Stage → Bool
is_initial initial = true
is_initial _ = false

abbrev pub is_settings : Stage → Bool
is_settings settings = true
is_settings _ = false

abbrev pub is_running : Stage → Bool
is_running running = true
is_running _ = false

abbrev pub is_stopped : Stage → Bool
is_stopped stopped = true
is_stopped _ = false

-- A text, and the seed of a key, under the names of a message.
abbrev two_texts : Option Json → Option Json → Option (Text × Text)
two_texts (some (text s)) (some (text seed)) = if is_key seed then some (s, seed) else none
two_texts _ _ = none

-- `length` of a string, in units of UTF-16.
pub units : Text → ℕ
units [] = 0
units (c ∷ cs) = (if ltb 65535 c then 2 else 1) + units cs

unfoldable pub pair_parts : Fields → Option (Text × Text)
unfolding units
pair_parts value =
    if not (keys_are value (codes "invitation,seed,type"))
    then none
    else elim (two_texts (lookup value (codes "invitation")) (lookup value (codes "seed"))) [
      | none ↦ none
      | some (invitation, seed) ↦
          if ltb 256 (units invitation) then none else some (invitation, seed)
    ]

unfoldable pub start_parts : Fields → Option (Text × Text)
start_parts value =
    if not (keys_are value (codes "config,seed,type"))
    then none
    else two_texts (lookup value (codes "config")) (lookup value (codes "seed"))

-- `paired.vpn!.address`, `paired.vpn!.peers[0]!.address` and `paired.peers[0]!.publicKey`
abbrev first_parts : Option PeerVpnConfig → List PeerDefinition → Option (Text × PeerDefinition)
first_parts (some vpn) (d ∷ ds) = some (vpn.address, d)
first_parts _ _ = none

abbrev first_entry : Option PeerVpnConfig → Option Text
first_entry none = none
first_entry (some vpn) = elim vpn.peers [ [] ↦ none | e ∷ es ↦ some e.address ]

unfoldable pub paired_values : PeerConfig → Option Message
paired_values c = elim (first_parts c.vpn c.peers) [
  | none ↦ none
  | some (address, d) ↦ elim (first_entry c.vpn) [
    | none ↦ none
    | some receiver_address ↦ some (paired_message address receiver_address d.public_key)
  ]
]

-- The peers of the settings. The search for a definition is that of the engine; no definition, or the
-- own key, is an error.
unfoldable pub settings_peer : Text → List PeerDefinition → VpnPeer → Option Entry
unfolding find_definition
settings_peer own_key definitions entry = elim (find_definition definitions entry.peer) [
  | none ↦ none
  | some d ↦
      if text_eq d.public_key own_key
      then none
      else some (record { public_key = d.public_key; label = d.label; address = entry.address })
]

unfoldable pub settings_peers : Text → List PeerDefinition → List VpnPeer → Option (List Entry)
unfolding settings_peer
settings_peers own_key definitions [] = some []
settings_peers own_key definitions (e ∷ es) = elim (settings_peer own_key definitions e) [
  | none ↦ none
  | some p ↦ elim (settings_peers own_key definitions es) [ none ↦ none | some ps ↦ some (p ∷ ps) ]
]
