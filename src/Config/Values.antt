-- ===== src/Config/Values.antt =====
-- src/config.ts: the checks of single values. A parse gives a value or the message of its error.
use kepos.Common.{
  ℕ, ◌+◌, Bool, false, not, ◌&&◌, ◌||◌, Option, none, some, List, [], ◌∷◌, ◌++◌, map, ltb, leb,
  ◌==◌, if◌then◌else◌, length,
}
use kepos.Common.Integers.{pos}
use kepos.Common.Json.{Json, object, array, text, Fields, field_names, to_list}
use kepos.Common.Text.{Text, codes, decimal, has_text, number}
use kepos.Common.Split.{split}
use kepos.Invitation.{is_key}
use kepos.ReceiverState.Addresses.{some_bad, reserved}

pub data Parsed (A : Type 0) : Type 0 where
  ok : A → Parsed A
  error : Text → Parsed A

infixl 5 ◌>>=◌
abbrev pub ◌>>=◌ : {A B : Type 0} → Parsed A → (A → Parsed B) → Parsed B
ok a >>= f = f a
error e >>= f = error e

-- `isRecord`, with the error of its callers.
abbrev pub parse_record : Option Json → Text → Parsed Fields
parse_record (some (object fields)) message = ok fields
parse_record _ message = error message

abbrev pub parse_array : Option Json → Text → Parsed (List Json)
parse_array (some (array items)) message = ok (to_list items)
parse_array _ message = error message

abbrev pub parse_key_hex : Option Json → Text → Parsed Text
parse_key_hex (some (text s)) field =
    if is_key s then ok s else error (field ++ codes " must be 32 bytes of lowercase hex")
parse_key_hex _ field = error (field ++ codes " must be 32 bytes of lowercase hex")

-- The first field that is not allowed.
abbrev pub unknown_field : List Text → List Text → Option Text
unknown_field [] allowed = none
unknown_field (name ∷ names) allowed =
    let later = unknown_field names allowed in if has_text allowed name then later else some name

-- An unknown field whose name is empty is false as a condition, so it is no error.
abbrev pub reject_unknown : Fields → List Text → Text → Parsed (Unit {0})
reject_unknown value allowed subject = elim (unknown_field (field_names value) allowed) [
  | none ↦ ok tt
  | some name ↦
      if length name == 0 then ok tt else error (subject ++ codes " has unknown field: " ++ name)
]

-- What `trim` removes: white space and line ends.
abbrev pub is_space : ℕ → Bool
is_space c =
    leb 9 c && leb c 13
    || c == 32
    || c == 0xa0
    || c == 0x1680
    || leb 0x2000 c && leb c 0x200a
    || c == 0x2028
    || c == 0x2029
    || c == 0x202f
    || c == 0x205f
    || c == 0x3000
    || c == 0xfeff

abbrev pub ends_in_space : Text → Bool
ends_in_space [] = false
ends_in_space (c ∷ []) = is_space c
ends_in_space (c ∷ d ∷ s) = ends_in_space (d ∷ s)

-- `value.trim() !== value`
abbrev pub trimmable : Text → Bool
trimmable [] = false
trimmable (c ∷ s) = is_space c || ends_in_space (c ∷ s)

abbrev pub utf8_size : ℕ → ℕ
utf8_size c = if ltb c 0x80 then 1 else if ltb c 0x800 then 2 else if ltb c 0x10000 then 3 else 4

-- `b4a.byteLength(value, "utf8")`
abbrev pub byte_length : Text → ℕ
byte_length [] = 0
byte_length (c ∷ s) = utf8_size c + byte_length s

abbrev pub label_bytes : ℕ
label_bytes = 128

-- `/[\u0000-\u001f\u007f]/`
abbrev pub has_control : Text → Bool
has_control [] = false
has_control (c ∷ s) = leb c 0x1f || c == 0x7f || has_control s

abbrev pub parse_reference : Option Json → Text → Parsed Text
parse_reference (some (text s)) field =
    if trimmable s || length s == 0
    then error (field ++ codes " must be a non-empty peer label or public key")
    else if ltb label_bytes (byte_length s)
    then error (field ++ codes " exceeds 128 bytes")
    else ok s
parse_reference _ field = error (field ++ codes " must be a non-empty peer label or public key")

-- `parsePeerPort` with `allowZero` false, as all its callers have it.
abbrev pub parse_port : Option Json → Text → Parsed ℕ
parse_port (some (Json.number (pos n))) field =
    if ltb n 1 || ltb 65535 n
    then error (field ++ codes " must be an integer from 1 through 65535")
    else ok n
parse_port _ field = error (field ++ codes " must be an integer from 1 through 65535")

-- The checks are those of `ipv4` in src/vpn/receiver-state.ts.
unfoldable pub parse_address : Option Json → Text → Parsed Text
parse_address (some (text s)) field =
    let parts = split b'.' s in
    if not (length parts == 4) || some_bad parts || reserved (map number parts)
    then error (field ++ codes " must be a unicast IPv4 address")
    else ok s
parse_address _ field = error (field ++ codes " must be a unicast IPv4 address")

-- `value.map((entry, index) => ...)`, up to the first error.
abbrev pub each : {A : Type 0} → (ℕ → Json → Parsed A) → ℕ → List Json → Parsed (List A)
each parse index [] = ok []
each parse index (j ∷ js) =
    parse index j >>= λ a. each parse (index + 1) js >>= λ rest. ok (a ∷ rest)

abbrev pub indexed : Text → ℕ → Text
indexed name index = name ++ b'[' ∷ decimal index ++ b']' ∷ []
