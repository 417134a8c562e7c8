-- ===== src/Config/Toml/Runs.antt =====
-- A file that is written and read, and a route that should not be one.
use kepos.Common.{
  ℕ, ◌≡◌, ◌≤◌, ◌^◌, ◌/◌, ◌*◌, leb, refl, some, Option, [], ◌∷◌, if◌then◌else◌, arith,
}
use kepos.Common.Json.{Json, text, array, object, item, end, field, last, lookup}
use kepos.Common.Text.{Text, codes, decimal, number, number-decimal, text_eq}
use kepos.Config.{PeerConfig, auto}
use kepos.Config.Runs.{config, loop}
use kepos.Config.Values.{Parsed, ok, error}
use kepos.Config.Toml.{toml_json, serialize_kepos_config, parse_kepos_config, parse_toml_network}
use kepos.Config.Toml.RoundTrip.{serialize-parse}

-- A reader that is exact up to 2 ^ 53 only, where `Number` rounds.
abbrev number_of : Text → Option ℕ
number_of s = if leb (number s) (2 ^ 53) then some (number s) else some (number s / 2 * 2)

number_of-decimal : (n : ℕ) → n ≤ 65535 → number_of (decimal n) ≡ some n
number_of-decimal n h = ground (arith, number-decimal n)

abbrev with_network : PeerConfig
with_network = record config {
  network =
      some (record { bootstrap = some ((codes "dht.example", 49737) ∷ []); route = some auto });
}

-- A library that knows one file.
abbrev toml : Text → Parsed Json
toml s = if text_eq s (codes "file") then ok (toml_json with_network) else error (codes "syntax")

abbrev stringify : Json → Text
stringify value = codes "file"

serialize-parse_example :
    (serialize_kepos_config number_of toml stringify with_network ≡ ok (codes "file"))
    × (parse_kepos_config number_of toml stringify (codes "file") ≡ ok with_network)
unfolding loop
serialize-parse_example =
    serialize-parse number_of toml stringify with_network number_of-decimal refl refl
      ((λ e. cc), (((λ e. cc), (ground arith, (omega arith, omega arith))), tt))

-- An array of one text passes for the text.
array_route :
    parse_toml_network number_of
      (object (field (codes "route") (array (item (text (codes "auto")) end)) last))
    ≡ ok (object (field (codes "route") (text (codes "auto")) last))
unfolding parse_toml_network lookup
array_route = refl
