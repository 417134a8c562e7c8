-- ===== src/Invitation.antt =====
-- src/vpn/invitation.ts: the text of an invitation, and the enrolment request that carries its
-- secret. A text is the list of its code points. Read as ASCII, a frame is the list of its bytes
-- with the top bit cleared.
pub mod Texts
pub mod Requests
use kepos.Common.{
  ℕ, ◌+◌, ◌%◌, Bool, not, ◌&&◌, ◌||◌, Option, none, some, List, ◌++◌, ◌∷◌, [], map, leb, ◌==◌,
  if◌then◌else◌, length, take, drop,
}
use kepos.Common.Text.{Text, codes, text_eq}
use kepos.Common.Numerals.{all}

abbrev pub hex_digit : ℕ → Bool
hex_digit c = leb b'0' c && leb c b'9' || leb b'a' c && leb c b'f'

-- `/^[0-9a-f]{64}$/`
unfoldable pub is_key : Text → Bool
is_key s = length s == 64 && all hex_digit s

pub record Invitation : Type 0 where
  pub receiver_key : Text
  pub secret : Text

abbrev pub scheme : Text
scheme = codes "kepos1:"

-- `/^kepos1:([0-9a-f]{64}):([0-9a-f]{64})$/`: the widths of the parts fix where each of them stands.
unfoldable pub parse_invitation : Text → Option Invitation
parse_invitation value =
    let key = take 64 (drop 7 value) in
    let secret = drop 72 value in
    if text_eq (take 7 value) scheme
      && is_key key
      && text_eq (take 1 (drop 71 value)) (b':' ∷ [])
      && is_key secret
    then some (record { receiver_key = key; secret = secret })
    else none

unfoldable pub format_invitation : Invitation → Option Text
format_invitation value =
    let text = scheme ++ value.receiver_key ++ b':' ∷ value.secret in
    elim (parse_invitation text) [ none ↦ none | some parsed ↦ some text ]

abbrev pub enrollment_prefix : Text
enrollment_prefix = codes "Kepos enrollment v1 "

unfoldable pub enrollment_request : Text → Option (List ℕ)
enrollment_request secret = if is_key secret then some (enrollment_prefix ++ secret) else none

pub data Request : Type 0 where
  other unusable : Request
  enrollment : Text → Request

-- `frame.toString("ascii")`
abbrev pub ascii : List ℕ → Text
ascii [] = []
ascii (b ∷ bs) = (b % 128) ∷ ascii bs

-- Another frame is no request; a request of another form is an error.
unfoldable pub enrollment_secret : List ℕ → Request
enrollment_secret frame =
    let request = ascii frame in
    let secret = drop 20 request in
    if not (text_eq (take 20 request) enrollment_prefix)
    then other
    else if not (length frame == 84) || not (is_key secret)
    then unusable
    else enrollment secret
