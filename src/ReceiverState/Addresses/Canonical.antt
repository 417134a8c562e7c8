-- ===== src/ReceiverState/Addresses/Canonical.antt =====
-- An address is the only text that reads as its number.
use kepos.Common.{
  Bool, true, if◌then◌else◌, none, ℕ, ◌/◌, ◌%◌, ◌^◌, ◌<◌, true, false, not, ◌&&◌, ◌||◌, some, List,
  [], ◌∷◌, map, leb, ◌==◌, length, All, ◌≡◌, refl, sym, ap, ◌∙◌, arith, guard_passed, unsome, ◌++◌,
}
use kepos.Common.Text.{Text, decimal, number, join_dots, decimal-IsDigit, IsDigit, number-decimal}
use kepos.Common.Split.{split, join, join-split, split-append, split-none}
use kepos.Common.Numerals.{numeral, decimal-number, numeral-decimal}
use kepos.ReceiverState.Addresses.{ipv4, address, some_bad, reserved, word, bytes_of}

IsOctet : Text → Type 0
IsOctet p = (decimal (number p) ≡ p) × (number p < 256)

octets : (ps : List Text) → some_bad ps ≡ false → All IsOctet ps
unfolding some_bad IsOctet
octets [] h = tt
octets (p ∷ ps) h =
    let good : numeral p ≡ true = ground arith in
    let small : number p < 256 = ground arith in
    ((decimal-number p good, small), octets ps (ground arith))

four :
    (ps : List Text)
    → length ps ≡ 4
    → All IsOctet ps
    → (bytes_of (word (map number ps)) ≡ map number ps)
      × ((join_dots (map number ps) ≡ join b'.' ps) × (word (map number ps) < 2 ^ 32))
unfolding IsOctet word bytes_of join_dots
four (a ∷ b ∷ c ∷ d ∷ []) e (ha, (hb, (hc, (hd, _)))) =
    let n = word (map number (a ∷ b ∷ c ∷ d ∷ [])) in
    let na : n / 2 ^ 24 % 256 ≡ number a = omega arith in
    let nb : n / 2 ^ 16 % 256 ≡ number b = omega arith in
    let nc : n / 2 ^ 8 % 256 ≡ number c = omega arith in
    let nd : n % 256 ≡ number d = omega arith in
    (rw (na, nb, nc, nd) refl, (rw (ha.0, hb.0, hc.0, hd.0) refl, omega arith))
four [] e h = absurd (omega arith)
four (a ∷ []) e h = absurd (omega arith)
four (a ∷ b ∷ []) e h = absurd (omega arith)
four (a ∷ b ∷ c ∷ []) e h = absurd (omega arith)
four (a ∷ b ∷ c ∷ d ∷ f ∷ ps) e h = absurd (omega arith)

-- What a text that reads as `n` is: four octets, outside the refused ranges.
read :
    (s : Text) (n : ℕ)
    → ipv4 s ≡ some n
    → All IsOctet (split b'.' s)
      × ((length (split b'.' s) ≡ 4)
          × ((reserved (map number (split b'.' s)) ≡ false)
              × (word (map number (split b'.' s)) ≡ n)))
unfolding ipv4
read s n e =
    let (shape, inner) =
      guard_passed (not (length (split b'.' s) == 4) || some_bad (split b'.' s)) _ n e in
    let (kept, value) = guard_passed (reserved (map number (split b'.' s))) _ n inner in
    (octets (split b'.' s) (ground arith), (ground arith, (kept, unsome value)))

-- A text that reads as a number is the only one that does: it is what the number prints as. The number
-- has 32 bits.
pub address-ipv4 : (s : Text) (n : ℕ) → ipv4 s ≡ some n → (address n ≡ s) × (n < 2 ^ 32)
unfolding address
address-ipv4 s n e =
    let (parts, (count, (free, same))) = read s n e in
    let (bytes, (text, bound)) = four (split b'.' s) count parts in
    (rw (sym same) (ap join_dots bytes ∙ text ∙ join-split b'.' s), rw (sym same) bound)

-- A text that reads as a number is outside the refused ranges.
pub ipv4_unreserved : (s : Text) (n : ℕ) → ipv4 s ≡ some n → reserved (bytes_of n) ≡ false
ipv4_unreserved s n e =
    let (parts, (count, (free, same))) = read s n e in
    let (bytes, rest) = four (split b'.' s) count parts in rw (sym same) (ap reserved bytes ∙ free)

undotted : (s : Text) → All IsDigit s → All (λ x. (x == b'.') ≡ false) s
undotted [] h = tt
undotted (c ∷ s) (h, hs) = (ground arith, undotted s hs)

split-join_dots :
    (a b c d : ℕ)
    → split b'.' (join_dots (a ∷ b ∷ c ∷ d ∷ []))
      ≡ decimal a ∷ decimal b ∷ decimal c ∷ decimal d ∷ []
unfolding join_dots
split-join_dots a b c d =
    split-append b'.' (decimal a) (decimal b ++ b'.' ∷ (decimal c ++ b'.' ∷ decimal d)) (plain a)
    ∙ ap (◌∷◌ (decimal a)) (
        split-append b'.' (decimal b) (decimal c ++ b'.' ∷ decimal d) (plain b)
        ∙ ap (◌∷◌ (decimal b)) (
            split-append b'.' (decimal c) (decimal d) (plain c)
            ∙ ap (◌∷◌ (decimal c)) (split-none b'.' (decimal d) (plain d))))
  where
    plain : (n : ℕ) → All (λ x. (x == b'.') ≡ false) (decimal n)
    plain n = undotted (decimal n) (decimal-IsDigit n)

-- The parts of a printed address pass the checks of a part.
printed :
    (a b c d : ℕ)
    → a < 256
    → b < 256
    → c < 256
    → d < 256
    → some_bad (decimal a ∷ decimal b ∷ decimal c ∷ decimal d ∷ []) ≡ false
unfolding some_bad
printed a b c d ha hb hc hd =
    rw
      (
        numeral-decimal a (omega arith),
        numeral-decimal b (omega arith),
        numeral-decimal c (omega arith),
        numeral-decimal d (omega arith),
        number-decimal a,
        number-decimal b,
        number-decimal c,
        number-decimal d,
      )
      (ground arith)

-- Every number outside the refused ranges prints as a text that reads as that number.
pub ipv4-address : (n : ℕ) → n < 2 ^ 32 → reserved (bytes_of n) ≡ false → ipv4 (address n) ≡ some n
unfolding ipv4 address bytes_of word reserved
ipv4-address n h free =
    let a = n / 2 ^ 24 % 256 in
    let b = n / 2 ^ 16 % 256 in
    let c = n / 2 ^ 8 % 256 in
    let d = n % 256 in
    let good = printed a b c d (omega arith) (omega arith) (omega arith) (omega arith) in
    let value : word (a ∷ b ∷ c ∷ d ∷ []) ≡ n = omega arith in
    let open_range : (a == 0 || a == 127 || leb 224 a || a == 169 && b == 254) ≡ false = free in
    rw
      (
        split-join_dots a b c d,
        good,
        number-decimal a,
        number-decimal b,
        number-decimal c,
        number-decimal d,
        open_range,
        value,
      )
      refl

if_chain :
    (a b : Bool) (n : ℕ)
    → (a || b) ≡ false
    → (if a then none else if b then none else some n) ≡ some n
if_chain false false n e = refl
if_chain false true n e = cc
if_chain true b n e = cc

-- What passes the three checks is read.
pub ipv4_lem :
    (s : Text)
    → (not (length (split b'.' s) == 4)
        || some_bad (split b'.' s)
        || reserved (map number (split b'.' s)))
      ≡ false
    → ipv4 s ≡ some (word (map number (split b'.' s)))
unfolding ipv4
ipv4_lem s e =
    if_chain (not (length (split b'.' s) == 4) || some_bad (split b'.' s))
      (reserved (map number (split b'.' s))) _ e
