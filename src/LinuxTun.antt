-- ===== src/LinuxTun.antt =====
-- src/vpn/linux-tun.ts: the conflicts of addresses and routes, and the configuration of the device. The
-- table of `ip route` and the local addresses are arguments. `number_of` is `Number` of a text, where it
-- is a natural number.
pub mod Overlap
mod Runs
use kepos.Common.{
  ℕ, ◌+◌, ◌-◌, ◌*◌, ◌%◌, ◌^◌, Bool, true, false, not, ◌&&◌, ◌||◌, Option, none, some, List, [], ◌∷◌,
  ◌++◌, map, ltb, leb, ◌==◌, if◌then◌else◌, length, take, drop,
}
use kepos.Common.Json.{Json, text, object, Fields, lookup, is_text}
use kepos.Common.Numerals.{all, is_digit}
use kepos.Common.Split.{split}
use kepos.Common.Text.{Text, codes, text_eq, number}

-- `/^\d{1,3}$/` and the range of a byte.
pub is_byte : Text → Bool
is_byte field =
    not (length field == 0) && leb (length field) 3 && all is_digit field && leb (number field) 255

pub all_bytes : List Text → Bool
unfolding is_byte
all_bytes [] = true
all_bytes (f ∷ fs) = is_byte f && all_bytes fs

-- `fields.reduce((result, value) => ((result << 8) | Number(value)) >>> 0, 0)`, of bytes
pub fold_bytes : ℕ → List Text → ℕ
fold_bytes result [] = result
fold_bytes result (f ∷ fs) = fold_bytes ((result * 256 + number f) % 2 ^ 32) fs

pub to_number : Text → Option ℕ
unfolding all_bytes fold_bytes
to_number input =
    let fields = split b'.' input in
    if not (length fields == 4) || not (all_bytes fields) then none else some (fold_bytes 0 fields)

-- `value & mask`, of a number of 32 bits and the mask that keeps its first `bits` bits.
pub masked : ℕ → ℕ → ℕ
masked value bits = value - value % 2 ^ (32 - bits)

abbrev pub is_default : Text → Bool
is_default route = text_eq route (codes "default") || text_eq route (codes "0.0.0.0/0")

-- `text.split("/")[0]`
abbrev pub first_part : List Text → Text
first_part [] = []
first_part (p ∷ ps) = p

pub base_of : Text → Text
base_of route = first_part (split b'/' route)

-- `ignoreInterface`, which is empty where there is no interface to leave aside.
abbrev pub ignored : Text → Option Json → Bool
ignored interface dev = not (length interface == 0) && is_text dev interface

-- The destination and the device of an entry of the table.
abbrev pub destination : Json → Option Text
destination (object fields) = elim (lookup fields (codes "dst")) [
  | some (text dst) ↦ some dst
  | _ ↦ none
]
destination _ = none

abbrev pub device : Json → Option Json
device (object fields) = lookup fields (codes "dev")
device _ = none

module _ (number_of : Text → Option ℕ) where
  abbrev pub bits_of : List Text → Option ℕ
  bits_of [] = some 32
  bits_of (bits ∷ _) = number_of bits

  -- The network and the bits of a route, if it is one.
  pub prefix_parts : List Text → Option (ℕ × ℕ)
  unfolding to_number
  prefix_parts [] = none
  prefix_parts (base ∷ rest) = elim (bits_of rest) [
    | none ↦ none
    | some bits ↦ elim (to_number base) [
      | none ↦ none
      | some network ↦
          if leb 2 (length rest) || ltb bits 1 || ltb 32 bits then none else some (network, bits)
    ]
  ]

  unfoldable pub prefix : Text → Option (ℕ × ℕ)
  unfolding prefix_parts
  prefix route = prefix_parts (split b'/' route)

  unfoldable pub route_contains : Text → Text → Bool
  unfolding prefix to_number masked
  route_contains route address = if is_default route then false else elim (prefix route) [
    | none ↦ false
    | some (network, bits) ↦ elim (to_number address) [
      | none ↦ false
      | some target ↦ masked network bits == masked target bits
    ]
  ]

  -- Whether the check of the pool throws on an entry of the table.
  pub conflicts : Text → Text → Json → Bool
  unfolding route_contains base_of
  conflicts pool interface item = elim (destination item) [
    | none ↦ false
    | some dst ↦
        if is_default dst || ignored interface (device item)
        then false
        else route_contains dst (base_of pool) || route_contains pool (base_of dst)
  ]

  -- `checkPoolRoutes`; false is the error `ReceiverRouteConflict`.
  unfoldable pub check_pool_routes : Text → Text → List Json → Bool
  unfolding conflicts
  check_pool_routes pool interface [] = true
  check_pool_routes pool interface (item ∷ routes) =
      not (conflicts pool interface item) && check_pool_routes pool interface routes

  -- The check of the addresses of enrolled devices in `openLinuxTun`.
  pub some_route_contains : List Json → Text → Bool
  unfolding route_contains
  some_route_contains [] address = false
  some_route_contains (item ∷ routes) address =
      (elim (destination item) [ none ↦ false | some dst ↦ route_contains dst address ])
      || some_route_contains routes address

  unfoldable pub check_peer_routes : List Json → List Text → Bool
  unfolding some_route_contains
  check_peer_routes routes [] = true
  check_peer_routes routes (a ∷ addresses) =
      not (some_route_contains routes a) && check_peer_routes routes addresses

-- An address of an interface of this computer.
pub record Local : Type 0 where
  pub name : Text
  pub address : Text

pub data Conflict : Type 0 where
  assigned : Text → Text → Conflict
  routed : Text → Option Text → Conflict

pub find_local : List Local → Text → Option Text
find_local [] target = none
find_local (l ∷ ls) target =
    let later = find_local ls target in if text_eq l.address target then some l.name else later

-- A host route that was not made by the kernel for an address of its own.
pub is_host_route : Text → Json → Bool
is_host_route target (object item) =
    (is_text (lookup item (codes "dst")) target
      || is_text (lookup item (codes "dst")) (target ++ codes "/32"))
    && not (is_text (lookup item (codes "protocol")) (codes "kernel"))
    && not (is_text (lookup item (codes "type")) (codes "local"))
    && not (is_text (lookup item (codes "type")) (codes "broadcast"))
is_host_route target _ = false

abbrev device_text : Option Json → Option Text
device_text (some (text dev)) = some dev
device_text _ = none

abbrev device_name : Json → Option Text
device_name (object fields) = device_text (lookup fields (codes "dev"))
device_name _ = none

pub find_host_route : List Json → Text → Option (Option Text)
unfolding is_host_route
find_host_route [] target = none
find_host_route (r ∷ rs) target =
    let later = find_host_route rs target in
    if is_host_route target r then some (device_name r) else later

-- `checkDialerAddresses`, over the own address and those of the peers.
unfoldable pub check_dialer_addresses : List Local → List Json → List Text → Option Conflict
unfolding find_local find_host_route
check_dialer_addresses local routes [] = none
check_dialer_addresses local routes (target ∷ targets) = elim (find_local local target) [
  | some name ↦ some (assigned target name)
  | none ↦ elim (find_host_route routes target) [
    | some dev ↦ some (routed target dev)
    | none ↦ check_dialer_addresses local routes targets
  ]
]
