-- ===== src/Packet.antt =====
-- src/vpn/packet-policy.ts, the functions below the class: sequence numbers, the internet checksum,
-- addresses, and the check of an IPv4 header. A byte is a number below 256.
pub mod Checksum
pub mod Wellformed
use Prim.Native.Nat.{bit_and}
use kepos.Common.{
  ℕ, zero, suc, ◌+◌, ◌-◌, ◌*◌, ◌/◌, ◌%◌, ◌^◌, ◌<◌, Bool, true, false, not, ◌||◌, Option, none, some,
  List, [], ◌∷◌, ◌++◌, ltb, leb, ◌==◌, if◌then◌else◌, length, take, drop, get_or, All,
}
use kepos.Common.Text.{Text, join_dots}

abbrev pub IsByte : ℕ → Type 0
IsByte b = b < 256

abbrev pub u8 : List ℕ → ℕ → ℕ
u8 bytes i = get_or bytes i 0

-- `readUInt16BE` and `readUInt32BE`
abbrev pub u16 : List ℕ → ℕ → ℕ
u16 bytes i = u8 bytes i * 256 + u8 bytes (i + 1)

abbrev pub u32 : List ℕ → ℕ → ℕ
u32 bytes i = u16 bytes i * 65536 + u16 bytes (i + 2)

-- `(n + 1) >>> 0`
abbrev pub succ32 : ℕ → ℕ
succ32 n = (n + 1) % 2 ^ 32

-- `((value - target) | 0) >= 0`: the difference modulo 2 ^ 32 has its sign bit clear.
abbrev pub reaches : ℕ → ℕ → Bool
reaches value target = ltb ((value + 2 ^ 32 - target) % 2 ^ 32) (2 ^ 31)

-- The `for` loop of `checksum`: 16-bit words, high byte first, an odd last byte before a zero.
pub sum_words : List ℕ → ℕ → ℕ
sum_words [] sum = sum
sum_words (a ∷ []) sum = sum + a * 256
sum_words (a ∷ b ∷ rest) sum = sum_words rest (sum + (a * 256 + b))

-- The `while` loop: `sum >>> 16` reads the sum modulo 2 ^ 32. Two rounds clear any such sum.
pub fold_carries : ℕ → ℕ → ℕ
fold_carries zero sum = sum
fold_carries (suc fuel) sum =
    let again = fold_carries fuel (sum % 2 ^ 16 + sum % 2 ^ 32 / 2 ^ 16) in
    if sum % 2 ^ 32 / 2 ^ 16 == 0 then sum else again

unfoldable pub checksum : List ℕ → ℕ → ℕ
unfolding sum_words fold_carries
checksum bytes initial = fold_carries 3 (sum_words bytes initial) % 2 ^ 16

-- `Array.from(bytes.subarray(offset, offset + 4)).join(".")`
unfoldable pub address : List ℕ → ℕ → Text
address bytes offset = join_dots (take 4 (drop offset bytes))

pub record Packet : Type 0 where
  pub source : Text
  pub destination : Text
  pub protocol : ℕ
  pub header : ℕ
  pub bytes : List ℕ

-- Reserved flag, more fragments and fragment offset.
abbrev pub fragmented : ℕ → Bool
fragmented word = not (bit_and word 0xbfff == 0)

unfoldable pub ipv4 : List ℕ → Option Packet
ipv4 bytes =
    if ltb (length bytes) 20 || ltb 1400 (length bytes) || not (u8 bytes 0 / 16 == 4)
    then none
    else let header = bit_and (u8 bytes 0) 15 * 4 in
      if not (header == 20) || not (u16 bytes 2 == length bytes) || u8 bytes 8 == 0
      then none
      else if fragmented (u16 bytes 6) || not (checksum (take header bytes) 0 == 0xffff)
      then none
      else some (record {
        source = address bytes 12;
        destination = address bytes 16;
        protocol = u8 bytes 9;
        header = header;
        bytes = bytes;
      })
