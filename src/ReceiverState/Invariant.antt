-- ===== src/ReceiverState/Invariant.antt =====
-- The invariant of the receiver's store, and what the helpers of its operations keep of it.
use kepos.Common.{
  ℕ, suc, ◌≤◌, true, false, Option, none, some, List, [], ◌∷◌, map, length, All, ◌≡◌, arith,
  if_cases,
}
use kepos.Common.Integers.{ℤ, after}
use kepos.Common.Text.{Text}
use kepos.Common.Distinct.{Distinct}
use kepos.ReceiverState.Addresses.{Range, address, pool_range, valid_exclusion}
use kepos.ReceiverState.Durable.{
  Grant, ReceiverDevice, Pending, State, Store, live, live_ones, ttl, max_devices, max_invitations,
}
use kepos.ReceiverState.{checked_ports, keys_of}

-- An address of the pool is the print of a number of its range.
unfoldable pub InPool : Range → Text → Type 0
InPool range a = (n : ℕ) × ((a ≡ address n) × ((range.first ≤ n) × (n ≤ range.last)))

unfoldable pub IsGranted : Grant → Type 0
IsGranted g = checked_ports g ≡ some g

abbrev pub addresses_of : List ReceiverDevice → List Text
addresses_of ds = map (λ (d : ReceiverDevice). d.address) ds

unfoldable pub IsDevice : Range → ReceiverDevice → Type 0
IsDevice range d = InPool range d.address × IsGranted d.allow_tcp

pub record Devices (range : Range) (key address : Text) (ds : List ReceiverDevice) : Type 0 where
  pub few : length ds ≤ max_devices
  pub keys_differ : Distinct (key ∷ keys_of ds)
  pub addresses_differ : Distinct (address ∷ addresses_of ds)
  pub each : All (IsDevice range) ds

unfoldable pub IsExclusion : Range → Text → Option Text → Type 0
IsExclusion range address none = Unit
IsExclusion range address (some a) = valid_exclusion a address range ≡ true

unfoldable pub IsInvitation : Range → Text → Pending → Type 0
IsInvitation range address p =
    (p.expires_at ≡ after p.issued_at ttl) × IsExclusion range address p.exclude_address

pub record Invitations (range : Range) (address : Text) (ps : List Pending) : Type 0 where
  pub few : length ps ≤ max_invitations
  pub each : All (IsInvitation range address) ps

pub record Valid (range : Range) (q : State) : Type 0 where
  pub pool : pool_range q.pool ≡ some range
  pub devices : Devices range q.receiver_key q.receiver_address q.devices
  pub invitations : Invitations range q.receiver_address q.invitations

unfoldable pub OnDisk : (State → Type 0) → Option State → Type 0
OnDisk P none = Unit
OnDisk P (some q) = P q

-- A store that has not failed has its state on the disk, and what is on the disk is valid always.
pub record Sound (range : Range) (s : Store) : Type 0 where
  pub valid : Valid range s.state
  pub disk : OnDisk (Valid range) s.disk
  pub durable : s.failed ≡ false → s.disk ≡ some s.state

-- Lists that the helpers filter.
pub All-live_ones :
    (P : Pending → Type 0) (now : ℤ) (ps : List Pending) → All P ps → All P (live_ones now ps)
unfolding live_ones
All-live_ones P now [] h = tt
All-live_ones P now (p ∷ ps) h =
    if_cases (All P) (live now p) _ _ (λ e. (h.0, All-live_ones P now ps h.1))
      (λ e. All-live_ones P now ps h.1)

pub length-live_ones : (now : ℤ) (ps : List Pending) → length (live_ones now ps) ≤ length ps
unfolding live_ones
length-live_ones now [] = omega arith
length-live_ones now (p ∷ ps) =
    let shorter = length-live_ones now ps in
    if_cases (λ (xs : List Pending). length xs ≤ suc (length ps)) (live now p) _ _
      (λ e. omega arith) (λ e. omega arith)

pub live_ones-Invitations :
    (range : Range) (a : Text) (now : ℤ) (ps : List Pending)
    → Invitations range a ps
    → Invitations range a (live_ones now ps)
live_ones-Invitations range a now ps h =
    let shorter = length-live_ones now ps in
    let few = h.few in record { few = omega arith; each = All-live_ones _ now ps h.each }
