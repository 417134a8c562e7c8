-- ===== src/Engine/Members/Resolution.antt =====
-- The engine and the parser of the configuration read a reference alike, where no label looks like a
-- key.
use kepos.Common.{
  ◌≡◌, refl, Bool, true, false, ◌||◌, Option, none, some, List, [], ◌∷◌, All, if◌then◌else◌,
  if_cases, inl, inr, arith, unsome, if_false,
}
use mathlib.Core.Path.{subst}
use kepos.Common.Text.{Text, text_eq, text_eq_refl, eq_of_text_eq, has_text}
use kepos.Invitation.{is_key}
use kepos.Config.{PeerDefinition, VpnPeer, PeerVpnConfig, PeerConfig, key_of_label, keys_of}
use kepos.Config.Accepted.{IsDefinition}
use kepos.Config.Vpn.{Names, IsVpn, IsSection, AcceptedVpn, Accepted}
use kepos.Config.Values.{ok}
use kepos.Engine.Members.{Peer, find_definition, member, members}

-- No label has the form of a key.
abbrev pub PlainLabels : List PeerDefinition → Type 0
PlainLabels ds = All (λ (d : PeerDefinition). is_key d.label ≡ false) ds

abbrev pub KeysAre : List PeerDefinition → Type 0
KeysAre ds = All IsDefinition ds

-- The keys that the entries of a section stand for.
abbrev pub Gives : Option PeerDefinition → Text → Type 0
Gives none key = ⊥
Gives (some d) key = d.public_key ≡ key

find_by_key :
    (ds : List PeerDefinition) (key : Text)
    → PlainLabels ds
    → is_key key ≡ true
    → has_text (keys_of ds) key ≡ true
    → Gives (find_definition ds key) key
unfolding find_definition
find_by_key [] key plain is there = absurd (cc)
find_by_key (d ∷ ds) key plain is there =
    if_cases (λ (o : Option PeerDefinition). Gives o key) _ _ _
      (λ e. eq_of_text_eq d.public_key key (
        second (text_eq d.label key) (text_eq d.public_key key)
          (not_label (text_eq d.label key) refl) e))
      (λ e. find_by_key ds key plain.1 is (
        later (text_eq d.label key) (text_eq d.public_key key) (has_text (keys_of ds) key) e there))
  where
    second : (a b : Bool) → a ≡ false → (a || b) ≡ true → b ≡ true
    second true b h e = absurd (cc)
    second false b h e = e

    later : (a b c : Bool) → (a || b) ≡ false → (b || c) ≡ true → c ≡ true
    later false false c h e = e
    later false true c h e = absurd (cc)
    later true b c h e = absurd (cc)

    not_label : (b : Bool) → text_eq d.label key ≡ b → b ≡ false
    not_label true e =
        absurd
          (let same = subst (λ l. is_key l ≡ false) (eq_of_text_eq d.label key e) plain.0 in cc)
    not_label false e = refl

-- A definition that is found, of the key, and not the engine's own.
find_by_label :
    (ds : List PeerDefinition) (reference key : Text)
    → KeysAre ds
    → is_key reference ≡ false
    → key_of_label ds reference ≡ some key
    → Gives (find_definition ds reference) key
unfolding find_definition IsDefinition
find_by_label [] reference key keys is e = absurd (cc)
find_by_label (d ∷ ds) reference key keys is e =
    by_label (text_eq d.label reference) (text_eq d.public_key reference) refl
      (not_key (text_eq d.public_key reference) refl) e (find_by_label ds reference key keys.1 is)
  where
    not_key : (b : Bool) → text_eq d.public_key reference ≡ b → b ≡ false
    not_key true h = absurd (
        let same = subst (λ k. is_key k ≡ true) (eq_of_text_eq d.public_key reference h) keys.0 in
        cc)
    not_key false h = refl

    by_label :
        (a b : Bool)
        → text_eq d.label reference ≡ a
        → b ≡ false
        → (if a then some d.public_key else key_of_label ds reference) ≡ some key
        → (key_of_label ds reference ≡ some key → Gives (find_definition ds reference) key)
        → Gives (if a || b then some d else find_definition ds reference) key
    by_label true b h k e later = unsome e
    by_label false true h k e later = absurd (cc)
    by_label false false h k e later = later e

found_key :
    (ds : List PeerDefinition) (reference : Text) (d : PeerDefinition)
    → find_definition ds reference ≡ some d
    → has_text (keys_of ds) d.public_key ≡ true
unfolding find_definition
found_key [] reference d e = absurd (cc)
found_key (c ∷ ds) reference d e =
    here (text_eq c.label reference || text_eq c.public_key reference) e (found_key ds reference d)
  where
    here :
        (b : Bool)
        → (if b then some c else find_definition ds reference) ≡ some d
        → (find_definition ds reference ≡ some d → has_text (keys_of ds) d.public_key ≡ true)
        → (text_eq c.public_key d.public_key || has_text (keys_of ds) d.public_key) ≡ true
    here true e later =
        let same = unsome e in
        subst
          (λ x. (text_eq c.public_key x.public_key || has_text (keys_of ds) x.public_key) ≡ true)
          same (let self = text_eq_refl c.public_key in ground arith)
    here false e later = let there = later e in ground arith

find-Names :
    (ds : List PeerDefinition) (reference key : Text)
    → PlainLabels ds
    → KeysAre ds
    → Names ds reference key
    → Gives (find_definition ds reference) key
unfolding Names
find-Names ds reference key plain keys (inl (is, (there, same))) =
    rw same (find_by_key ds reference plain is there)
find-Names ds reference key plain keys (inr (is, e)) = find_by_label ds reference key keys is e

-- The peers of the engine, after the given keys: each has the key that its entry's reference stands
-- for, which no earlier one has, and the address and the grant of its entry.
pub Resolved : List PeerDefinition → List Text → List VpnPeer → List Peer → Type 0
Resolved ds keys [] [] = Unit
Resolved ds keys (e ∷ es) (m ∷ ms) =
    Names ds e.peer m.key
    × ((has_text keys m.key ≡ false)
        × ((m.address ≡ e.address)
            × ((m.allow_tcp ≡ e.allow_tcp) × Resolved ds (m.key ∷ keys) es ms)))
Resolved ds keys _ _ = ⊥

module _ (own : Text) (ds : List PeerDefinition) (plain : PlainLabels ds) (valid : KeysAre ds)
    (other : has_text (keys_of ds) own ≡ false) where
  member_lem :
      (e : VpnPeer) (key : Text)
      → Names ds e.peer key
      → (m : Peer) × (member own ds e ≡ ok m)
        × (m.key ≡ key)
        × (m.address ≡ e.address)
        × (m.allow_tcp ≡ e.allow_tcp)
  unfolding member
  member_lem e key names =
      go (find_definition ds e.peer) refl (find-Names ds e.peer key plain valid names)
    where
      go :
          (o : Option PeerDefinition)
          → find_definition ds e.peer ≡ o
          → Gives o key
          → (m : Peer) × (member own ds e ≡ ok m)
            × (m.key ≡ key)
            × (m.address ≡ e.address)
            × (m.allow_tcp ≡ e.allow_tcp)
      go none found h = elim h [ ]
      go (some d) found h =
          let m : Peer = record {
            label = d.label;
            key = d.public_key;
            address = e.address;
            direction = d.connection;
            allow_tcp = e.allow_tcp;
          } in
          (
            m,
            rw (found, member)
                (if_false (text_eq d.public_key own) _ _ (strange (text_eq d.public_key own) refl)),
            h,
            refl,
            refl,
          )
        where
          strange : (b : Bool) → text_eq d.public_key own ≡ b → b ≡ false
          strange true same = absurd (
              let there =
                subst (λ k. has_text (keys_of ds) k ≡ true) (eq_of_text_eq d.public_key own same)
                  (found_key ds e.peer d found) in
              cc)
          strange false same = refl

  members_lem :
      (es : List VpnPeer) (keys addresses : List Text)
      → IsVpn ds keys addresses es
      → (ms : List Peer) × (members own ds es ≡ ok ms) × Resolved ds keys es ms
  unfolding members IsVpn Resolved
  members_lem [] keys addresses h = ([], refl, tt)
  members_lem (e ∷ es) keys addresses
        (key, (names, (new_key, (new_address, (unicast, (grant, rest)))))) =
      let (m, made, same, at, granted) = member_lem e key names in
      let (ms, others, resolved) = members_lem es (key ∷ keys) (e.address ∷ addresses) rest in
      (
        m ∷ ms,
        rw (made, members) (rw others refl),
        rw same (names, (new_key, (at, (granted, resolved)))),
      )

-- For an accepted configuration in which no label looks like a key, the engine builds its peers unless
-- its own key is among those of the configuration: each has the key that the parser resolved its
-- reference to, no two the same, and the address and the grant of its entry.
pub members-Resolved :
    (own : Text) (c : PeerConfig) (v : PeerVpnConfig)
    → Accepted c
    → c.vpn ≡ some v
    → PlainLabels c.peers
    → has_text (keys_of c.peers) own ≡ false
    → (ms : List Peer) × (members own c.peers v.peers ≡ ok ms) × Resolved c.peers [] v.peers ms
unfolding IsSection
members-Resolved own c v accepted e plain other =
    let section : AcceptedVpn c.peers v = subst (IsSection c.peers) e accepted.vpn in
    members_lem own c.peers plain accepted.definitions other v.peers [] (v.address ∷ [])
      section.entries
