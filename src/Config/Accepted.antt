-- ===== src/Config/Accepted.antt =====
-- What holds of the value that a parser gives, and of the definitions of the peers.
use kepos.Common.{ℕ, ◌+◌, true, false, Option, none, some, List, [], ◌∷◌, All, ◌≡◌, if_cases}
use kepos.Common.Json.{Json, text, array, object}
use kepos.Common.Text.{Text, codes, has_text}
use kepos.Invitation.{is_key}
use kepos.Config.Values.{
  Parsed, ok, error, ◌>>=◌, parse_record, parse_key_hex, reject_unknown, each,
}
use kepos.Config.{
  PeerDefinition, parse_definition, parse_label, parse_connection, distinct_peers, labels_of,
  keys_of, get,
}

-- What holds of the value, if there is one.
abbrev pub Gives : {A : Type 0} → (A → Type 0) → Parsed A → Type 0
Gives P (ok a) = P a
Gives P (error e) = Unit

pub Gives-then :
    {A B : Type 0} (Q : A → Type 0) (P : B → Type 0) (m : Parsed A) (f : A → Parsed B)
    → Gives Q m
    → ((a : A) → Q a → Gives P (f a))
    → Gives P (m >>= f)
Gives-then Q P (ok a) f h k = k a h
Gives-then Q P (error e) f h k = tt

-- A value of which nothing is asked.
unfoldable pub Any : {A : Type 0} → A → Type 0
Any a = Unit

pub any : {A : Type 0} (m : Parsed A) → Gives Any m
unfolding Any
any (ok a) = tt
any (error e) = tt

pub each-Gives :
    {A : Type 0} (P : A → Type 0) (parse : ℕ → Json → Parsed A) (index : ℕ) (js : List Json)
    → ((i : ℕ) (j : Json) → Gives P (parse i j))
    → Gives (All P) (each parse index js)
each-Gives P parse index [] h = tt
each-Gives P parse index (j ∷ js) h = Gives-then P (All P) (parse index j) _ (h index j) (λ a p.
    Gives-then (All P) (All P) (each parse (index + 1) js) _ (each-Gives P parse (index + 1) js h)
      (λ rest ps. (p, ps)))

-- Each text differs from those before it and from the given ones.
unfoldable pub EachNew : List Text → List Text → Type 0
EachNew before [] = Unit
EachNew before (t ∷ ts) = (has_text before t ≡ false) × EachNew (t ∷ before) ts

pub distinct_peers-Gives :
    (ps : List PeerDefinition) (labels keys : List Text)
    → Gives
        (λ _. EachNew labels (labels_of ps) × EachNew keys (keys_of ps))
        (distinct_peers ps labels keys)
unfolding distinct_peers EachNew
distinct_peers-Gives [] labels keys = (tt, tt)
distinct_peers-Gives (p ∷ ps) labels keys =
    let P : Parsed (Unit {0}) → Type 0 =
      Gives (λ _. EachNew labels (labels_of (p ∷ ps)) × EachNew keys (keys_of (p ∷ ps))) in
    if_cases P (has_text labels p.label) _ _ (λ e. tt)
      (λ new_label.
        if_cases P (has_text keys p.public_key) _ _ (λ e. tt)
          (λ new_key.
            carry (distinct_peers ps (p.label ∷ labels) (p.public_key ∷ keys)) new_label new_key
              (distinct_peers-Gives ps (p.label ∷ labels) (p.public_key ∷ keys))))
  where
    carry :
        (m : Parsed (Unit {0}))
        → has_text labels p.label ≡ false
        → has_text keys p.public_key ≡ false
        → Gives
            (λ _.
              EachNew (p.label ∷ labels) (labels_of ps)
              × EachNew (p.public_key ∷ keys) (keys_of ps))
            m
        → Gives (λ _. EachNew labels (labels_of (p ∷ ps)) × EachNew keys (keys_of (p ∷ ps))) m
    carry (ok u) a b h = ((a, h.0), (b, h.1))
    carry (error e) a b h = tt

unfoldable pub IsDefinition : PeerDefinition → Type 0
IsDefinition p = is_key p.public_key ≡ true

parse_key_hex-Gives :
    (v : Option Json) (f : Text) → Gives (λ k. is_key k ≡ true) (parse_key_hex v f)
parse_key_hex-Gives (some (text s)) f =
    if_cases (Gives (λ k. is_key k ≡ true)) (is_key s) _ _ (λ e. e) (λ e. tt)
parse_key_hex-Gives none f = tt
parse_key_hex-Gives (some Json.null) f = tt
parse_key_hex-Gives (some (Json.boolean b)) f = tt
parse_key_hex-Gives (some (Json.number n)) f = tt
parse_key_hex-Gives (some (Json.fraction n)) f = tt
parse_key_hex-Gives (some (array js)) f = tt
parse_key_hex-Gives (some (object fs)) f = tt

pub parse_definition-Gives : (v : Json) (f : Text) → Gives IsDefinition (parse_definition v f)
unfolding parse_definition IsDefinition
parse_definition-Gives v f =
    Gives-then Any IsDefinition (parse_record (some v) _) _ (any _) (λ fields _.
      Gives-then Any IsDefinition (reject_unknown fields _ f) _ (any _) (λ _ _.
        Gives-then Any IsDefinition (parse_label (get fields (codes "label")) f) _ (any _)
          (λ label _.
            Gives-then (λ k. is_key k ≡ true) IsDefinition
              (parse_key_hex (get fields (codes "publicKey")) _) _ (parse_key_hex-Gives _ _)
              (λ key good.
                Gives-then Any IsDefinition (parse_connection (get fields (codes "connection")) f) _
                  (any _) (λ c _. good)))))
