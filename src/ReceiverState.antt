-- ===== src/ReceiverState.antt =====
-- src/vpn/receiver-state.ts: the store of the receiver's devices and outstanding invitations. The
-- clock, the random secret and the fate of a durable write are arguments of the operations; SHA-256
-- is a parameter. An operation is a run over the store that returns or throws.
pub mod Addresses
pub mod Durable
pub mod Invariant
pub mod Lists
pub mod Preservation
pub mod Admission
pub mod Histories
pub mod Refusal
pub mod Allocation
pub mod OneUse
pub mod Spending
pub mod Access
pub mod Growth
mod Runs
pub mod Enrollment
use kepos.Common.{
  ℕ, zero, suc, ◌+◌, ◌-◌, ◌*◌, ◌/◌, Bool, true, false, not, ◌&&◌, ◌||◌, Option, none, some, List,
  [], ◌∷◌, ◌++◌, map, ltb, leb, ◌==◌, if◌then◌else◌, length,
}
use kepos.Common.Outcome.{Outcome, Run, thrown, done, thrown, ◌>>=◌, ◌>>◌, return, throw}
use kepos.Common.Integers.{ℤ, lebℤ, ltbℤ, after}
use kepos.Common.Text.{Text, text_eq, has, has_text}
use kepos.Invitation.{is_key, format_invitation, hex_digit}
use kepos.ReceiverState.Addresses.{Range, address, pool_range, valid_exclusion, ipv4}
use kepos.ReceiverState.Durable.{
  Grant, all_ports, ports, ReceiverDevice, Pending, State, Store, StateError, storage_failure,
  exclusion_invalid, exclusion_allocated, too_many_invitations, unusable_invitation,
  rejected_excluded, rejected_capacity, rejected_pool, invalid_grant, unknown_device, invalid_pool,
  invalid_key, invalid_address, foreign, Fate, written, lost, renamed, Write, clean, replace, save,
  serial, live, live_ones, ttl, max_devices, max_invitations, max_ports,
}
use kepos.ReceiverState.Enrollment.{find_pending, choose}

-- `Number.isInteger(n)` and the range; a number that is no natural is out of range, as 0 is.
pub bad_port : ℕ → Bool
bad_port n = ltb n 1 || ltb 65535 n

pub some_bad_port : List ℕ → Bool
some_bad_port [] = false
some_bad_port (n ∷ ns) = bad_port n || some_bad_port ns

unfoldable pub repeated : List ℕ → Bool
repeated [] = false
repeated (n ∷ ns) = has ns n || repeated ns

unfoldable pub checked_ports : Grant → Option Grant
unfolding some_bad_port repeated bad_port
checked_ports all_ports = some all_ports
checked_ports (ports ns) =
    if ltb max_ports (length ns) || some_bad_port ns || repeated ns then none else some (ports ns)

abbrev pub new_state : Text → Text → Text → State
new_state key address pool = record {
  receiver_key = key;
  receiver_address = address;
  pool = pool;
  devices = [];
  invitations = [];
}

-- `open`, where there was no directory.
pub open_new : Text → Text → Text → Write → Outcome StateError Store (Unit {0})
unfolding save
open_new key address pool w =
    let new : Store = record { state = new_state key address pool; failed = false; disk = none } in
    if not (is_key key) then thrown invalid_key new else elim (ipv4 address) [
      | none ↦ thrown invalid_address new
      | some n ↦ elim (pool_range pool) [
        | none ↦ thrown invalid_pool new
        | some range ↦ save (new_state key address pool) w new
      ]
    ]

unfoldable pub list : Run StateError Store (List ReceiverDevice)
list = serial λ q. return q.devices

pub check_exclusion : State → Option Text → Run StateError Store (Unit {0})
check_exclusion q none = return tt
check_exclusion q (some excluded) = elim (pool_range q.pool) [
  | none ↦ throw invalid_pool
  | some range ↦
      if not (valid_exclusion excluded q.receiver_address range)
      then throw exclusion_invalid
      else if has_text (map (λ (d : ReceiverDevice). d.address) q.devices) excluded
      then throw exclusion_allocated
      else return tt
]

abbrev hex_value : ℕ → ℕ
hex_value c = if leb b'a' c then c - b'a' + 10 else c - b'0'

-- `Buffer.from(secret, "hex")`, of hexadecimal digits
pub from_hex : Text → List ℕ
from_hex (a ∷ b ∷ s) = (hex_value a * 16 + hex_value b) ∷ from_hex s
from_hex _ = []

abbrev pub give : Option Text → Run StateError Store Text
give none = throw unusable_invitation
give (some text) = return text

module _ (sha256 : List ℕ → Text) where
  pub digest : Text → Text
  unfolding from_hex
  digest secret = sha256 (from_hex secret)

  abbrev pub issue : Text → ℤ → Option Text → Pending
  issue secret now excluded = record {
    digest = digest secret;
    issued_at = now;
    expires_at = after now ttl;
    exclude_address = excluded;
  }

  pub issue_invitation : State → Option Text → ℤ → Text → Write → Run StateError Store Text
  unfolding live_ones save
  issue_invitation q excluded now secret w =
      let invitations = live_ones now q.invitations in
      if leb max_invitations (length invitations)
      then throw too_many_invitations
      else save (record q { invitations = invitations ++ issue secret now excluded ∷ [] }) w
        >> give (format_invitation (record { receiver_key = q.receiver_key; secret = secret }))

  pub create_invitation : Option Text → ℤ → Text → Write → Run StateError Store Text
  unfolding check_exclusion
  create_invitation excluded now secret w =
      serial λ q. check_exclusion q excluded >> issue_invitation q excluded now secret w

module _ (sha256 : List ℕ → Text) where
  pub admit_pending : State → Text → Text → ℤ → Write → Run StateError Store ReceiverDevice
  unfolding find_pending choose live_ones save
  admit_pending q key secret now w = elim (find_pending (digest sha256 secret) now q.invitations) [
    | none ↦ throw unusable_invitation
    | some (pending, others) ↦ choose q pending key >>= λ r.
        save (record q { devices = r.1; invitations = live_ones now others }) w >> return r.0
  ]

  pub enroll : Text → Text → ℤ → Write → Run StateError Store ReceiverDevice
  unfolding admit_pending
  enroll key secret now w = serial λ q.
      if not (is_key key) || text_eq key q.receiver_key || not (is_key secret)
      then throw unusable_invitation
      else admit_pending q key secret now w

pub regrant : Text → Grant → List ReceiverDevice → List ReceiverDevice
regrant key grant [] = []
regrant key grant (d ∷ ds) =
    (if text_eq d.public_key key then record d { allow_tcp = grant } else d) ∷ regrant key grant ds

pub without_device : Text → List ReceiverDevice → List ReceiverDevice
without_device key [] = []
without_device key (d ∷ ds) =
    let rest = without_device key ds in if text_eq d.public_key key then rest else d ∷ rest

abbrev pub keys_of : List ReceiverDevice → List Text
keys_of ds = map (λ (d : ReceiverDevice). d.public_key) ds

unfoldable pub grant : Text → Grant → Write → Run StateError Store (Unit {0})
unfolding checked_ports regrant save
grant key asked w = serial λ q. elim (checked_ports asked) [
  | none ↦ throw invalid_grant
  | some granted ↦
      if not (has_text (keys_of q.devices) key)
      then throw unknown_device
      else save (record q { devices = regrant key granted q.devices }) w
]

unfoldable pub revoke : Text → Write → Run StateError Store (Unit {0})
unfolding without_device save
revoke key w = serial λ q.
    if not (has_text (keys_of q.devices) key)
    then throw unknown_device
    else save (record q { devices = without_device key q.devices }) w
