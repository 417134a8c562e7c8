-- ===== src/Policy/Tcp.antt =====
-- src/vpn/packet-policy.ts: the part of `admit` that checks a TCP segment and reads its fields.
use Prim.Native.Nat.{bit_and}
use kepos.Common.{
  ℕ, ◌*◌, ◌/◌, ◌%◌, Bool, not, ◌&&◌, ◌||◌, Option, none, some, List, [], ◌∷◌, ◌++◌, ltb, ◌==◌,
  if◌then◌else◌, length, take, drop,
}
use kepos.Common.Text.{Text, decimal}
use kepos.Packet.{u8, u16, u32, checksum, Packet}
use kepos.Policy.Table.{Direction, incoming, outgoing}

-- The fields of a TCP segment that the policy reads. `length` is that of the whole segment.
pub record Segment : Type 0 where
  pub key : Text
  pub destination_port : ℕ
  pub syn : Bool
  pub ack : Bool
  pub rst : Bool
  pub fin : Bool
  pub sequence : ℕ
  pub acknowledged : ℕ
  pub length : ℕ
  pub offset : ℕ

-- `tuple(localPort, remotePort)`
abbrev pub tuple : ℕ → ℕ → Text
tuple local remote = decimal local ++ b':' ∷ decimal remote

abbrev pub key_of : Direction → ℕ → ℕ → Text
key_of outgoing source destination = tuple source destination
key_of incoming source destination = tuple destination source

abbrev flag : ℕ → ℕ → Bool
flag flags bit = not (bit_and flags bit == 0)

abbrev pseudo_header : List ℕ → ℕ → List ℕ
pseudo_header bytes size = take 8 (drop 12 bytes) ++ (0 ∷ 6 ∷ size / 256 % 256 ∷ size % 256 ∷ [])

-- The checks of a TCP segment before the flows are looked at, and what is read on the way.
unfoldable pub segment : Packet → Direction → Option Segment
segment packet direction =
    let tcp = drop packet.header packet.bytes in
    let offset = u8 tcp 12 / 16 * 4 in
    if ltb (length tcp) 20 || ltb offset 20 || ltb (length tcp) offset
    then none
    else if not (checksum tcp (checksum (pseudo_header packet.bytes (length tcp)) 0) == 0xffff)
    then none
    else let source = u16 tcp 0 in
      let destination = u16 tcp 2 in
      if source == 0 || destination == 0
      then none
      else let flags = u8 tcp 13 in
        if flag flags 2 && (flag flags 5 || not (length tcp == offset))
        then none
        else some (record {
          key = key_of direction source destination;
          destination_port = destination;
          syn = flag flags 2;
          ack = flag flags 16;
          rst = flag flags 4;
          fin = flag flags 1;
          sequence = u32 tcp 4;
          acknowledged = u32 tcp 8;
          length = length tcp;
          offset = offset;
        })
