-- ===== src/Invitation/Texts.antt =====
-- Printing and reading an invitation, and a request.
use mathlib.Core.Path.{subst}
use kepos.Common.{
  guard_kept, both, Option-cases, unsome, inl, inr, ℕ, zero, suc, ◌+◌, true, ◌&&◌, some, ◌++◌, ◌∷◌,
  [], ◌==◌, length, take, drop, ◌≡◌, ◌↔◌, refl, sym, ap, ◌∙◌, arith, take-append-drop, take-append,
  drop-append,
}
use kepos.Common.Text.{Text, text_eq, text_eq_iff}
use kepos.Common.Numerals.{all}
use kepos.Invitation.{Invitation, parse_invitation, format_invitation, scheme, is_key, hex_digit}

take-key : (n : ℕ) (s t : Text) → length s ≡ n → take n (s ++ t) ≡ s
take-key n s t e = rw (sym e) (take-append s t)

drop-key : (n : ℕ) (s t : Text) → length s ≡ n → drop n (s ++ t) ≡ t
drop-key n s t e = rw (sym e) (drop-append s t)

drop_nil : (m : ℕ) → ◌≡◌ {A = Text} (drop m []) []
drop_nil zero = refl
drop_nil (suc m) = refl

drop-drop : (m n : ℕ) (s : Text) → drop m (drop n s) ≡ drop (n + m) s
drop-drop m zero s = let same : m ≡ 0 + m = omega arith in ap (λ k. drop k s) same
drop-drop m (suc n) [] = drop_nil m ∙ sym (drop_nil (suc n + m))
drop-drop m (suc n) (c ∷ s) =
    let same : suc (n + m) ≡ suc n + m = omega arith in
    drop-drop m n s ∙ ap (λ k. drop k (c ∷ s)) same

pub key_length : (s : Text) → is_key s ≡ true → length s ≡ 64
unfolding is_key
key_length s h = ground arith

module _ (i : Invitation) (key : length i.receiver_key ≡ 64) where
  text : Text
  text = scheme ++ i.receiver_key ++ b':' ∷ i.secret

  key_part : take 64 (drop 7 text) ≡ i.receiver_key
  unfolding text
  key_part = take-key 64 i.receiver_key (b':' ∷ i.secret) key

  colon_part : drop 71 text ≡ b':' ∷ i.secret
  unfolding text
  colon_part = sym (drop-drop 64 7 text) ∙ drop-key 64 i.receiver_key (b':' ∷ i.secret) key

  secret_part : drop 72 text ≡ i.secret
  secret_part = sym (drop-drop 1 71 text) ∙ ap (drop 1) colon_part

  front_part : take 7 text ≡ scheme
  unfolding text
  front_part = refl

  -- An invitation whose two parts are keys is read back from its text.
  parse-text :
      is_key i.receiver_key ≡ true → is_key i.secret ≡ true → parse_invitation text ≡ some i
  unfolding parse_invitation
  parse-text k s = rw (key_part, colon_part, secret_part, k, s, front_part) refl

IsText : Text → Invitation → Type 0
IsText s i =
    (s ≡ scheme ++ i.receiver_key ++ b':' ∷ i.secret)
    × ((is_key i.receiver_key ≡ true) × (is_key i.secret ≡ true))

cut :
    (s : Text)
    → take 7 s ≡ scheme
    → take 1 (drop 71 s) ≡ b':' ∷ []
    → s ≡ scheme ++ take 64 (drop 7 s) ++ b':' ∷ drop 72 s
cut s front colon =
    sym (take-append-drop 7 s)
    ∙ ap (λ x. x ++ drop 7 s) front
    ∙ ap (λ x. scheme ++ x)
        (sym (take-append-drop 64 (drop 7 s))
          ∙ ap (λ x. take 64 (drop 7 s) ++ x)
              (drop-drop 64 7 s
                ∙ sym (take-append-drop 1 (drop 71 s))
                ∙ ap (λ x. x ++ drop 1 (drop 71 s)) colon
                ∙ ap (◌∷◌ b':') (drop-drop 1 71 s)))

-- What is read is the text of an invitation whose two parts are keys.
read : (s : Text) (i : Invitation) → parse_invitation s ≡ some i → IsText s i
unfolding parse_invitation IsText
read s i e =
    let key = take 64 (drop 7 s) in
    let (checks, same) =
      guard_kept
        (text_eq (take 7 s) scheme
          && is_key key
          && text_eq (take 1 (drop 71 s)) (b':' ∷ [])
          && is_key (drop 72 s))
        (record { receiver_key = key; secret = drop 72 s }) i e in
    let (front_key_colon, last) = both _ (is_key (drop 72 s)) checks in
    let (front_key, colon) = both _ (text_eq (take 1 (drop 71 s)) (b':' ∷ [])) front_key_colon in
    let (front, first) = both (text_eq (take 7 s) scheme) (is_key key) front_key in
    subst (IsText s) same (
      cut s ((text_eq_iff (take 7 s) scheme).0 front)
          ((text_eq_iff (take 1 (drop 71 s)) (b':' ∷ [])).0 colon),
      (first, last),
    )

no_colon : (xs ys : Text) → all hex_digit (xs ++ b':' ∷ ys) ≡ true → ⊥
no_colon [] ys h = ground arith
no_colon (x ∷ xs) ys h = no_colon xs ys (both (hex_digit x) _ h).1

-- With one colon in it, a text is cut at the colon in one way.
one_colon :
    (xs xs' ys ys' : Text)
    → all hex_digit xs ≡ true
    → all hex_digit ys ≡ true
    → xs ++ b':' ∷ ys ≡ xs' ++ b':' ∷ ys'
    → (xs ≡ xs') × (ys ≡ ys')
one_colon [] [] ys ys' h k e = (refl, cc)
one_colon [] (x ∷ xs') ys ys' h k e =
    let rest : ys ≡ xs' ++ b':' ∷ ys' = cc in absurd (no_colon xs' ys' (rw rest at k))
one_colon (x ∷ xs) [] ys ys' h k e =
    let same : x ≡ b':' = cc in absurd (no_colon [] xs (rw same at h))
one_colon (x ∷ xs) (x' ∷ xs') ys ys' h k e =
    let (first, rest) = one_colon xs xs' ys ys' (both (hex_digit x) _ h).1 k (cc) in (cc, rest)

all_hex : (s : Text) → is_key s ≡ true → all hex_digit s ≡ true
unfolding is_key
all_hex s h = (both (length s == 64) _ h).1

printed :
    (i j : Invitation)
    → parse_invitation (scheme ++ i.receiver_key ++ b':' ∷ i.secret) ≡ some j
    → j ≡ i
unfolding IsText
printed i j e =
    let (same, (key, secret)) = read (scheme ++ i.receiver_key ++ b':' ∷ i.secret) j e in
    let (first, rest) =
      one_colon j.receiver_key i.receiver_key j.secret i.secret (all_hex j.receiver_key key)
        (all_hex j.secret secret) (sym (ap (drop 7) same)) in
    λ k. record { receiver_key = first k; secret = rest k }

-- The parser accepts exactly the texts that the printer gives.
pub parse_iff :
    (s : Text) (i : Invitation) → (parse_invitation s ≡ some i) ↔ (format_invitation i ≡ some s)
unfolding format_invitation IsText text
parse_iff s i = (forth, back)
  where
    forth : parse_invitation s ≡ some i → format_invitation i ≡ some s
    forth e =
        let (same, (key, secret)) = read s i e in
        let parsed : parse_invitation (scheme ++ i.receiver_key ++ b':' ∷ i.secret) ≡ some i =
          parse-text i (key_length i.receiver_key key) key secret in
        rw (parsed, same, format_invitation) refl

    back : format_invitation i ≡ some s → parse_invitation s ≡ some i
    back e = elim (Option-cases (parse_invitation (scheme ++ i.receiver_key ++ b':' ∷ i.secret))) [
      | inl bad ↦ absurd (cc (rw (bad, format_invitation) at e))
      | inr (j, good) ↦
          let same : scheme ++ i.receiver_key ++ b':' ∷ i.secret ≡ s =
            unsome (rw (good, format_invitation) at e) in
          rw (sym same) (good ∙ ap some (printed i j good))
    ]

-- Both parts of a parsed invitation are keys.
pub parsed_keys :
    (s : Text) (i : Invitation)
    → parse_invitation s ≡ some i
    → (is_key i.receiver_key ≡ true) × (is_key i.secret ≡ true)
unfolding IsText
parsed_keys s i e = (read s i e).1
