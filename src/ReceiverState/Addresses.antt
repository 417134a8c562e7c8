-- ===== src/ReceiverState/Addresses.antt =====
-- src/vpn/receiver-state.ts, the addresses: reading and printing an IPv4 address, the range of a
-- pool, and the check of an address that an invitation excludes.
pub mod Canonical
pub mod Ranges
use kepos.Common.{
  ℕ, zero, suc, ◌+◌, ◌-◌, ◌*◌, ◌/◌, ◌%◌, ◌^◌, Bool, true, false, not, ◌&&◌, ◌||◌, Option, none,
  some, List, [], ◌∷◌, map, ltb, leb, ◌==◌, if◌then◌else◌, length, get_or,
}
use kepos.Common.Text.{Text, decimal, number, text_eq, join_dots}
use kepos.Common.Split.{split}
use kepos.Common.Numerals.{numeral, is_digit, all}

-- `parts.some(...)`: a part is no numeral, or is above 255.
unfoldable pub some_bad : List Text → Bool
some_bad [] = false
some_bad (p ∷ ps) = not (numeral p) || ltb 255 (number p) || some_bad ps

-- The ranges that are refused: this network, loopback, multicast and above, link local.
unfoldable pub reserved : List ℕ → Bool
reserved bytes =
    let first = get_or bytes 0 0 in
    first == 0 || first == 127 || leb 224 first || first == 169 && get_or bytes 1 0 == 254

-- `((b0 << 24) | (b1 << 16) | (b2 << 8) | b3) >>> 0`, of bytes
pub word : List ℕ → ℕ
word bytes =
    get_or bytes 0 0 * 2 ^ 24
    + get_or bytes 1 0 * 2 ^ 16
    + get_or bytes 2 0 * 2 ^ 8
    + get_or bytes 3 0

unfoldable pub ipv4 : Text → Option ℕ
unfolding some_bad reserved word
ipv4 value =
    let parts = split b'.' value in
    if not (length parts == 4) || some_bad parts
    then none
    else if reserved (map number parts)
    then none
    else some (word (map number parts))

pub bytes_of : ℕ → List ℕ
bytes_of value =
    (value / 2 ^ 24 % 256) ∷ (value / 2 ^ 16 % 256) ∷ (value / 2 ^ 8 % 256) ∷ (value % 256) ∷ []

unfoldable pub address : ℕ → Text
unfolding bytes_of
address value = join_dots (bytes_of value)

pub record Range : Type 0 where
  pub first : ℕ
  pub last : ℕ

-- `/^([^/]+)\/(\d+)$/`
pub cidr : List Text → Option (Text × Text)
cidr (base ∷ bits ∷ []) =
    if length base == 0 || length bits == 0 || not (all is_digit bits)
    then none
    else some (base, bits)
cidr _ = none

-- The addresses of a network between its own and its broadcast address.
pub network : ℕ → ℕ → Option Range
network base bits =
    let size = 2 ^ (32 - bits) in
    if not (base % size == 0) then none else elim (ipv4 (address (base + size - 1))) [
      | none ↦ none
      | some top ↦ some (record { first = base + 1; last = base + size - 2 })
    ]

pub parse_cidr : Text → Text → Option Range
unfolding network
parse_cidr base digits =
    let bits = number digits in
    if ltb bits 16 || ltb 30 bits || not (text_eq (decimal bits) digits)
    then none
    else elim (ipv4 base) [ none ↦ none | some n ↦ network n bits ]

unfoldable pub pool_range : Text → Option Range
unfolding cidr parse_cidr
pool_range pool = elim (cidr (split b'/' pool)) [
  | none ↦ none
  | some (base, bits) ↦ parse_cidr base bits
]

unfoldable pub in_range : Range → ℕ → Bool
in_range range n = leb range.first n && leb n range.last

unfoldable pub valid_exclusion : Text → Text → Range → Bool
valid_exclusion value receiver_address range = elim (ipv4 value) [
  | none ↦ false
  | some n ↦ not (text_eq value receiver_address) && in_range range n
]
