-- ===== src/Config/Vpn.antt =====
-- What an accepted configuration satisfies.
use mathlib.Core.Path.{subst}
use kepos.Common.{
  ℕ, suc, ◌+◌, ◌≤◌, Bool, true, false, Option, none, some, List, [], ◌∷◌, ltb, if◌then◌else◌,
  length, All, ◌≡◌, ◌⊎◌, inl, inr, refl, ap, arith, if_cases, Option-cases,
}
use kepos.Common.Json.{Json}
use kepos.Common.Text.{Text, codes, has_text}
use kepos.Invitation.{is_key}
use kepos.Config.Values.{
  Parsed, ok, error, ◌>>=◌, parse_record, parse_array, reject_unknown, parse_address, each, indexed,
  parse_reference,
}
use kepos.Config.{
  PeerDefinition, VpnPeer, PeerVpnConfig, PeerConfig, parse_definition, distinct_peers, labels_of,
  keys_of, key_of_label, resolve, parse_allowed, parse_vpn_peer, parse_vpn_peers, parse_vpn,
  parse_network, parse_peer_config, optional, get,
}
use kepos.Config.Accepted.{
  Gives, Gives-then, Any, any, each-Gives, EachNew, distinct_peers-Gives, IsDefinition,
  parse_definition-Gives,
}
use kepos.Config.Entries.{IsUnicast, parse_address-Gives, IsGrant, parse_allowed-Gives}

-- A reference is the key of a peer, or the label of one, which then stands for that peer's key.
unfoldable pub Names : List PeerDefinition → Text → Text → Type 0
Names peers reference key =
    ((is_key reference ≡ true) × ((has_text (keys_of peers) reference ≡ true) × (key ≡ reference)))
    ⊎ ((is_key reference ≡ false) × (key_of_label peers reference ≡ some key))

resolve-Gives :
    (reference : Text) (peers : List PeerDefinition) (f : Text)
    → Gives (Names peers reference) (resolve reference peers f)
unfolding resolve Names
resolve-Gives reference peers f =
    if_cases (Gives (Names peers reference)) (is_key reference) _ _
      (λ key.
        if_cases (Gives (Names peers reference)) (has_text (keys_of peers) reference) _ _
          (λ there. inl (key, (there, refl))) (λ e. tt))
      (λ label. elim (Option-cases (key_of_label peers reference)) [
        | inl missing ↦ rw (missing, resolve) tt
        | inr (key, found) ↦ rw (found, resolve) (inr (label, found))
      ])

-- The peers of the VPN, after the given keys and addresses.
unfoldable pub IsVpn : List PeerDefinition → List Text → List Text → List VpnPeer → Type 0
IsVpn peers keys addresses [] = Unit
IsVpn peers keys addresses (e ∷ es) =
    (key : Text) × (Names peers e.peer key
      × ((has_text keys key ≡ false)
          × ((has_text addresses e.address ≡ false)
              × (IsUnicast e.address
                  × (IsGrant e.allow_tcp × IsVpn peers (key ∷ keys) (e.address ∷ addresses) es)))))

-- One of them.
IsPeer : List PeerDefinition → List Text → List Text → VpnPeer × Text → Type 0
IsPeer peers keys addresses (e, key) =
    Names peers e.peer key
    × ((has_text keys key ≡ false)
        × ((has_text addresses e.address ≡ false) × (IsUnicast e.address × IsGrant e.allow_tcp)))

-- A guard that passes only on false.
guard-Gives : (b : Bool) (e : Text) → Gives (λ _. b ≡ false) (if b then error e else ok tt)
guard-Gives true e = tt
guard-Gives false e = refl

parse_vpn_peer-Gives :
    (v : Json) (peers : List PeerDefinition) (keys addresses : List Text) (f : Text)
    → Gives (IsPeer peers keys addresses) (parse_vpn_peer v peers keys addresses f)
unfolding parse_vpn_peer IsPeer
parse_vpn_peer-Gives v peers keys addresses f =
    let P = IsPeer peers keys addresses in
    Gives-then Any P (parse_record (some v) _) _ (any _) (λ fields _.
      Gives-then Any P (reject_unknown fields _ f) _ (any _) (λ _ _.
        Gives-then Any P (parse_reference (get fields (codes "peer")) _) _ (any _) (λ peer _.
          Gives-then (Names peers peer) P (resolve peer peers _) _ (resolve-Gives peer peers _)
            (λ key names.
              Gives-then (λ _. has_text keys key ≡ false) P _ _ (guard-Gives (has_text keys key) _)
                (λ _ new_key.
                  Gives-then IsUnicast P (parse_address (get fields (codes "address")) _) _
                    (parse_address-Gives _ _)
                    (λ address unicast.
                      Gives-then (λ _. has_text addresses address ≡ false) P _ _
                        (guard-Gives (has_text addresses address) _)
                        (λ _ new_address.
                          Gives-then IsGrant P (parse_allowed (get fields (codes "allowTcp")) f) _
                            (parse_allowed-Gives (get fields (codes "allowTcp")) f)
                            (λ grant good.
                              (names, (new_key, (new_address, (unicast, good))))))))))))

parse_vpn_peers-Gives :
    (js : List Json) (peers : List PeerDefinition) (keys addresses : List Text) (index : ℕ)
    → Gives
        (λ es. IsVpn peers keys addresses es × (length es ≡ length js))
        (parse_vpn_peers js peers keys addresses index)
unfolding parse_vpn_peers IsVpn IsPeer
parse_vpn_peers-Gives [] peers keys addresses index = (tt, refl)
parse_vpn_peers-Gives (j ∷ js) peers keys addresses index =
    let P : List VpnPeer → Type 0 =
      λ es. IsVpn peers keys addresses es × (length es ≡ length (j ∷ js)) in
    Gives-then (IsPeer peers keys addresses) P
      (parse_vpn_peer j peers keys addresses (indexed (codes "vpn.peers") index))
      (λ (r : VpnPeer × Text).
        parse_vpn_peers js peers (r.1 ∷ keys) (r.0.address ∷ addresses) (index + 1) >>= λ rest.
        ok (r.0 ∷ rest))
      (parse_vpn_peer-Gives j peers keys addresses (indexed (codes "vpn.peers") index))
      (λ r (names, (new_key, (new_address, (unicast, good)))).
        Gives-then
          (λ es. IsVpn peers (r.1 ∷ keys) (r.0.address ∷ addresses) es × (length es ≡ length js)) P
          (parse_vpn_peers js peers (r.1 ∷ keys) (r.0.address ∷ addresses) (index + 1))
          (λ rest. ok (r.0 ∷ rest))
          (parse_vpn_peers-Gives js peers (r.1 ∷ keys) (r.0.address ∷ addresses) (index + 1))
          (λ es (rest, count).
            ((r.1, (names, (new_key, (new_address, (unicast, (good, rest)))))), ap suc count)))

pub record AcceptedVpn (peers : List PeerDefinition) (v : PeerVpnConfig) : Type 0 where
  pub unicast : IsUnicast v.address
  pub few : length v.peers ≤ 16
  pub entries : IsVpn peers [] (v.address ∷ []) v.peers

parse_vpn-Gives :
    (j : Json) (peers : List PeerDefinition) → Gives (AcceptedVpn peers) (parse_vpn j peers)
unfolding parse_vpn
parse_vpn-Gives j peers =
    let P = AcceptedVpn peers in
    Gives-then Any P (parse_record (some j) _) _ (any _) (λ fields _.
      Gives-then Any P (reject_unknown fields _ (codes "vpn")) _ (any _) (λ _ _.
        Gives-then IsUnicast P (parse_address (get fields (codes "address")) _) _
          (parse_address-Gives (get fields (codes "address")) _)
          (λ address unicast.
            Gives-then Any P (parse_array (get fields (codes "peers")) _) _ (any _) (λ items _.
              Gives-then (λ _. ltb 16 (length items) ≡ false) P _ _
                (guard-Gives (ltb 16 (length items)) _)
                (λ _ few.
                  Gives-then (λ es. IsVpn peers [] (address ∷ []) es × (length es ≡ length items)) P
                    (parse_vpn_peers items peers [] (address ∷ []) 0) _
                    (parse_vpn_peers-Gives items peers [] (address ∷ []) 0)
                    (λ es (good, count).
                      let bound : length items ≤ 16 = ground arith in
                      record { unicast = unicast; few = omega arith; entries = good }))))))

unfoldable pub IsSection : List PeerDefinition → Option PeerVpnConfig → Type 0
IsSection peers none = Unit
IsSection peers (some v) = AcceptedVpn peers v

optional-Gives :
    (o : Option Json) (peers : List PeerDefinition)
    → Gives (IsSection peers) (optional (λ v. parse_vpn v peers) o)
unfolding IsSection
optional-Gives none peers = tt
optional-Gives (some j) peers =
    Gives-then (AcceptedVpn peers) (IsSection peers) (parse_vpn j peers) _ (parse_vpn-Gives j peers)
      (λ v h. h)

pub record Accepted (c : PeerConfig) : Type 0 where
  pub labels : EachNew [] (labels_of c.peers)
  pub keys : EachNew [] (keys_of c.peers)
  pub definitions : All IsDefinition c.peers
  pub vpn : IsSection c.peers c.vpn

parse_peer_config-Gives : (j : Json) → Gives Accepted (parse_peer_config j)
unfolding parse_peer_config
parse_peer_config-Gives j = Gives-then Any Accepted (parse_record (some j) _) _ (any _) (λ fields _.
    Gives-then Any Accepted (reject_unknown fields _ (codes "peer config")) _ (any _) (λ _ _.
      Gives-then Any Accepted (parse_array (get fields (codes "peers")) _) _ (any _) (λ items _.
        Gives-then (All IsDefinition) Accepted (each parse 0 items) _
          (each-Gives IsDefinition parse 0 items
            (λ i v. parse_definition-Gives v (indexed (codes "peers") i)))
          (λ peers good.
            Gives-then (λ _. EachNew [] (labels_of peers) × EachNew [] (keys_of peers)) Accepted
              (distinct_peers peers [] []) _ (distinct_peers-Gives peers [] [])
              (λ _ (labels, keys).
                Gives-then (IsSection peers) Accepted
                  (optional (λ v. parse_vpn v peers) (get fields (codes "vpn"))) _
                  (optional-Gives (get fields (codes "vpn")) peers)
                  (λ vpn section.
                    Gives-then Any Accepted (optional parse_network (get fields (codes "network")))
                      _ (any _)
                      (λ network _. record {
                        labels = labels;
                        keys = keys;
                        definitions = good;
                        vpn = section;
                      })))))))
  where
    parse : ℕ → Json → Parsed PeerDefinition
    parse i v = parse_definition v (indexed (codes "peers") i)

-- An accepted configuration has peers with distinct labels and distinct keys, each 64 lowercase
-- hexadecimal digits. If it has a VPN section, its address is a unicast one; it has at most 16 peers;
-- each of them refers to a configured peer by its key or by its label, no two to the same key; their
-- addresses are unicast and differ from each other and from the own one; and each grants all ports, or
-- distinct ports from 1 through 65535.
pub parse_peer_config-Accepted :
    (j : Json) (c : PeerConfig) → parse_peer_config j ≡ ok c → Accepted c
parse_peer_config-Accepted j c e = subst (Gives Accepted) e (parse_peer_config-Gives j)
