-- ===== src/ReceiverState/Durable.antt =====
-- src/vpn/receiver-state.ts: the data that the store keeps, the durable write, and the order of
-- operations.
use kepos.Common.{ℕ, ◌*◌, Bool, true, ◌&&◌, Option, none, some, List, [], ◌∷◌, if◌then◌else◌}
use kepos.Common.Outcome.{Run, done, thrown}
use kepos.Common.Integers.{ℤ, lebℤ, ltbℤ}
use kepos.Common.Text.{Text}

abbrev pub ttl : ℕ
ttl = 10 * 60000

abbrev pub max_devices : ℕ
max_devices = 16

abbrev pub max_invitations : ℕ
max_invitations = 16

abbrev pub max_ports : ℕ
max_ports = 256

pub data Grant : Type 0 where
  all_ports : Grant
  ports : List ℕ → Grant

pub record ReceiverDevice : Type 0 where
  pub public_key : Text
  pub address : Text
  pub allow_tcp : Grant

pub record Pending : Type 0 where
  pub digest : Text
  pub issued_at : ℤ
  pub expires_at : ℤ
  pub exclude_address : Option Text

pub record State : Type 0 where
  pub receiver_key : Text
  pub receiver_address : Text
  pub pool : Text
  pub devices : List ReceiverDevice
  pub invitations : List Pending

pub data StateError : Type 0 where
  storage_failure exclusion_invalid exclusion_allocated too_many_invitations unusable_invitation :
      StateError
  rejected_excluded rejected_capacity rejected_pool : StateError
  invalid_grant unknown_device invalid_pool invalid_key invalid_address : StateError
  foreign : ℕ → StateError

-- `disk` is what receiver.json holds, if there is such a file.
pub record Store : Type 0 where
  pub state : State
  pub failed : Bool
  pub disk : Option State

-- How the write of a file can end: with the new file in place, with an error before the rename, or
-- with an error after it. The removal of the temporary file can then fail with an error of its own.
pub data Fate : Type 0 where
  written lost renamed : Fate

pub record Write : Type 0 where
  pub fate : Fate
  pub cleanup : Option ℕ

-- The `finally` block: its own error takes the place of what the block before it gave.
unfoldable pub clean : Option ℕ → Run StateError Store (Unit {0}) → Run StateError Store (Unit {0})
clean none run s = run s
clean (some n) run s = elim (run s) [
  | done a s' ↦ thrown (foreign n) s'
  | thrown e s' ↦ thrown (foreign n) s'
]

unfoldable pub replace : State → Fate → Run StateError Store (Unit {0})
replace next written s = done tt (record s { state = next; disk = some next })
replace next lost s = thrown storage_failure (record s { failed = true })
replace next renamed s = thrown storage_failure (record s { failed = true; disk = some next })

unfoldable pub save : State → Write → Run StateError Store (Unit {0})
unfolding clean replace
save next w = clean w.cleanup (replace next w.fate)

-- Every operation waits for the one before it, and a failed store refuses all of them.
abbrev pub serial : {A : Type 0} → (State → Run StateError Store A) → Run StateError Store A
serial operation s = if s.failed then thrown storage_failure s else operation s.state s

-- `entry.issuedAt <= now && now < entry.expiresAt`
unfoldable pub live : ℤ → Pending → Bool
live now entry = lebℤ entry.issued_at now && ltbℤ now entry.expires_at

unfoldable pub live_ones : ℤ → List Pending → List Pending
live_ones now [] = []
live_ones now (p ∷ ps) = let rest = live_ones now ps in if live now p then p ∷ rest else rest
