-- ===== src/Packet/Wellformed.antt =====
-- src/vpn/packet-policy.ts: the IPv4 headers that `ipv4` accepts, field by field.
use Prim.Native.Nat.{bit_and}
use kepos.Common.{ℕ, ◌≡◌, ◌<◌, ◌≤◌, ◌*◌, ◌/◌, some, List, arith, length, take}
use kepos.Packet.{u8, u16, checksum, address, Packet, ipv4}

-- The rules of a header of 20 bytes without options: version 4, the length of the whole packet, a
-- time to live, neither a reserved flag nor a fragment, and a checksum that is right; and where the
-- addresses and the protocol stand.
pub record IsWellformed (bytes : List ℕ) (packet : Packet) : Type 0 where
  pub least : 20 ≤ length bytes
  pub most : length bytes ≤ 1400
  pub version : u8 bytes 0 / 16 ≡ 4
  pub words : bit_and (u8 bytes 0) 15 ≡ 5
  pub total : u16 bytes 2 ≡ length bytes
  pub alive : 0 < u8 bytes 8
  pub whole : bit_and (u16 bytes 6) 0xbfff ≡ 0
  pub checked : checksum (take 20 bytes) 0 ≡ 0xffff
  pub source : packet.source ≡ address bytes 12
  pub destination : packet.destination ≡ address bytes 16
  pub protocol : packet.protocol ≡ u8 bytes 9

-- What `ipv4` accepts is well-formed.
pub ipv4-IsWellformed :
    (bytes : List ℕ) (packet : Packet) → ipv4 bytes ≡ some packet → IsWellformed bytes packet
unfolding ipv4
ipv4-IsWellformed bytes packet e =
    let words : bit_and (u8 bytes 0) 15 ≡ 5 = ground arith in
    let sum : checksum (take (bit_and (u8 bytes 0) 15 * 4) bytes) 0 ≡ 0xffff = ground arith in
    record {
      least = ground arith;
      most = ground arith;
      version = ground arith;
      words = words;
      total = ground arith;
      alive = ground arith;
      whole = ground arith;
      checked = rw words at sum;
      source = ground arith;
      destination = ground arith;
      protocol = ground arith;
    }
