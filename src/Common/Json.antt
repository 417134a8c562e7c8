-- ===== src/Common/Json.antt =====
-- Values as JSON and TOML give them. A number is an integer or one that is none.
use mathlib.Core.Bool.{Bool, true, false, ◌&&◌, ◌||◌}
use mathlib.Core.Option.{Option, none, some}
use mathlib.Core.List.{List, [], ◌∷◌}
use kepos.Common.Split.{join}
use Prim.Native.Nat.{ℕ}
use kepos.Common.Tests.{if◌then◌else◌, ltb, ◌==◌}
use kepos.Common.Integers.{ℤ}
use kepos.Common.Text.{Text, text_eq}

mutual
  pub data Json : Type 0 where
    null : Json
    boolean : Bool → Json
    number : ℤ → Json
    fraction : ℕ → Json
    text : Text → Json
    array : Items → Json
    object : Fields → Json

  pub data Items : Type 0 where
    end : Items
    item : Json → Items → Items

  pub data Fields : Type 0 where
    last : Fields
    field : Text → Json → Fields → Fields

abbrev pub to_list : Items → List Json
to_list end = []
to_list (item j js) = j ∷ to_list js

-- `Object.keys`
abbrev pub field_names : Fields → List Text
field_names last = []
field_names (field k j fs) = k ∷ field_names fs

-- A missing field is undefined.
unfoldable pub lookup : Fields → Text → Option Json
lookup last k = none
lookup (field l j fs) k = let later = lookup fs k in if text_eq l k then some j else later

-- The order of `sort`, and `Object.keys(value).sort().join(",")`.
abbrev pub text_leb : Text → Text → Bool
text_leb [] t = true
text_leb (a ∷ s) [] = false
text_leb (a ∷ s) (b ∷ t) = ltb a b || (a == b) && text_leb s t

unfoldable pub insert_text : Text → List Text → List Text
insert_text t [] = t ∷ []
insert_text t (u ∷ us) = if text_leb t u then t ∷ u ∷ us else u ∷ insert_text t us

unfoldable pub sort_texts : List Text → List Text
unfolding insert_text
sort_texts [] = []
sort_texts (t ∷ ts) = insert_text t (sort_texts ts)

unfoldable pub keys_are : Fields → Text → Bool
unfolding sort_texts
keys_are fields names = text_eq (join b',' (sort_texts (field_names fields))) names

-- `value.name === text`
unfoldable pub is_text : Option Json → Text → Bool
is_text (some (text s)) t = text_eq s t
is_text _ t = false
