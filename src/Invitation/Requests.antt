-- ===== src/Invitation/Requests.antt =====
-- The request for enrolment: writing and reading the frame.
use mathlib.Core.Path.{subst}
use kepos.Common.{
  ℕ, ◌+◌, ◌%◌, ◌<◌, Bool, true, false, not, ◌||◌, some, List, ◌++◌, ◌∷◌, [], ◌==◌, ==_iff,
  if◌then◌else◌, length, length-append, take, drop, ◌≡◌, ◌↔◌, refl, sym, ap, ◌∙◌, arith,
  take-append-drop, All, guard_kept, both,
}
use kepos.Common.Text.{Text, text_eq, text_eq_iff}
use kepos.Invitation.{
  is_key, enrollment_request, enrollment_secret, enrollment, other, unusable, enrollment_prefix,
  ascii, hex_digit,
}
use kepos.Common.Numerals.{all}
use kepos.Invitation.Texts.{key_length}

unfoldable pub IsAscii : List ℕ → Type 0
IsAscii frame = All (λ b. b < 128) frame

ascii_same : (frame : List ℕ) → IsAscii frame → ascii frame ≡ frame
unfolding IsAscii
ascii_same [] h = refl
ascii_same (b ∷ bs) (h, hs) =
    let same : b % 128 ≡ b = omega arith in rw (same, ascii_same bs hs) refl

-- The three checks of a frame that is read as a request.
read_request :
    (c d : Bool) (found secret : Text)
    → (if not c then other else if d then unusable else enrollment found) ≡ enrollment secret
    → (c ≡ true) × ((d ≡ false) × (found ≡ secret))
read_request true true found secret e = absurd (cc)
read_request true false found secret e = (refl, (refl, cc))
read_request false d found secret e = absurd (cc)

neither : (c d : Bool) → (not c || not d) ≡ false → d ≡ true
neither true true e = refl
neither true false e = cc
neither false d e = cc

-- On ASCII frames the reader accepts exactly what the writer gives.
pub enrollment_iff :
    (frame : List ℕ) (secret : Text)
    → IsAscii frame
    → (enrollment_secret frame ≡ enrollment secret) ↔ (enrollment_request secret ≡ some frame)
unfolding enrollment_secret enrollment_request
enrollment_iff frame secret h = (forth, back)
  where
    same : ascii frame ≡ frame
    same = ascii_same frame h

    forth : enrollment_secret frame ≡ enrollment secret → enrollment_request secret ≡ some frame
    forth e =
        let (front, (key, rest)) =
          read_request (text_eq (take 20 frame) enrollment_prefix)
            (not (length frame == 84) || not (is_key (drop 20 frame))) (drop 20 frame) secret
            (rw (same, enrollment_secret) at e) in
        let valid = subst (λ s. is_key s ≡ true) rest (neither (length frame == 84) _ key) in
        let prefix = (text_eq_iff (take 20 frame) enrollment_prefix).0 front in
        let whole : enrollment_prefix ++ secret ≡ frame =
          sym (ap (λ p. p ++ drop 20 frame) prefix ∙ ap (λ s. enrollment_prefix ++ s) rest)
          ∙ take-append-drop 20 frame in
        rw (valid, enrollment_request) (ap some whole)

    back : enrollment_request secret ≡ some frame → enrollment_secret frame ≡ enrollment secret
    back e =
        let (key, whole) = guard_kept (is_key secret) (enrollment_prefix ++ secret) frame e in
        let front : take 20 frame ≡ enrollment_prefix = sym (ap (take 20) whole) in
        let back : drop 20 frame ≡ secret = sym (ap (drop 20) whole) in
        let count : length frame ≡ 84 =
          sym (ap length whole)
          ∙ length-append enrollment_prefix secret
          ∙ ap (λ n. 20 + n) (key_length secret key) in
        rw (same, front, back, (==_iff (length frame) 84).1 count, key, enrollment_secret) refl

hex_IsAscii : (s : Text) → all hex_digit s ≡ true → IsAscii s
unfolding IsAscii
hex_IsAscii [] h = tt
hex_IsAscii (c ∷ s) h =
    let (digit, rest) = both (hex_digit c) (all hex_digit s) h in
    (below c digit, hex_IsAscii s rest)
  where
    below : (c : ℕ) → hex_digit c ≡ true → c < 128
    below c h = ground arith

append_IsAscii : (s t : List ℕ) → IsAscii s → IsAscii t → IsAscii (s ++ t)
unfolding IsAscii
append_IsAscii [] t h k = k
append_IsAscii (b ∷ s) t h k = (h.0, append_IsAscii s t h.1 k)

-- A request that is written for a secret is read as one.
pub secret-request :
    (secret : Text) (frame : List ℕ)
    → is_key secret ≡ true
    → enrollment_request secret ≡ some frame
    → enrollment_secret frame ≡ enrollment secret
unfolding enrollment_request IsAscii is_key
secret-request secret frame h e =
    let hex = (both (length secret == 64) (all hex_digit secret) h).1 in
    let (valid, whole) = guard_kept (is_key secret) (enrollment_prefix ++ secret) frame e in
    let ascii_secret = hex_IsAscii secret hex in
    let ascii_prefix : IsAscii enrollment_prefix = omega arith in
    let every = append_IsAscii enrollment_prefix secret ascii_prefix ascii_secret in
    (enrollment_iff frame secret (subst IsAscii whole every)).1 e
