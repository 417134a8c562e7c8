-- ===== src/ReceiverState/Allocation.antt =====
-- The address that `enroll` gives to a new device: the lowest one of the pool that is not taken.
use mathlib.Core.Path.{subst}
use kepos.Common.{
  ℕ, zero, suc, ◌+◌, ◌-◌, ◌≤◌, ◌<◌, true, false, not, ◌||◌, none, some, List, [], ◌∷◌, ◌++◌, ◌≡◌,
  refl, ap, ◌∙◌, ◌⊎◌, inl, inr, arith, Bool-cases, leb, ◌==◌, ==_iff, if_false, length,
}
use kepos.Common.Outcome.{Run, done, thrown, return, throw}
use kepos.Common.Integers.{ℤ}
use kepos.Common.Text.{Text, text_eq, has_text}
use kepos.Invitation.{is_key}
use kepos.ReceiverState.Addresses.{Range, address, pool_range}
use kepos.ReceiverState.Durable.{
  all_ports, ReceiverDevice, Pending, State, Store, StateError, Write, written, save, clean,
  replace, rejected_pool, max_devices, live_ones,
}
use kepos.ReceiverState.Enrollment.{
  find_pending, find_device, lowest_free, taken_addresses, choose, new_device,
}
use kepos.ReceiverState.{enroll, admit_pending, digest}

-- The lowest number from `low` on, below `high`, whose address is not taken.
pub record Lowest (taken : List Text) (low high n : ℕ) : Type 0 where
  pub above : low ≤ n
  pub below : n < high
  pub free : has_text taken (address n) ≡ false
  pub lowest : (m : ℕ) → low ≤ m → m < n → has_text taken (address m) ≡ true

-- Every address of the numbers is taken.
pub AllTaken : List Text → ℕ → ℕ → Type 0
AllTaken taken low high = (m : ℕ) → low ≤ m → m < high → has_text taken (address m) ≡ true

-- What holds of a number and of every later one below `high`.
from_next :
    (P : ℕ → Type 0) (low high : ℕ)
    → P low
    → ((m : ℕ) → low + 1 ≤ m → m < high → P m)
    → (m : ℕ) → low ≤ m
    → m < high
    → P m
from_next P low high p rest m h k = elim (Bool-cases (low == m)) [
  | inl same ↦ subst P ((==_iff low m).0 same) p
  | inr other ↦ rest m (ground arith) k
]

lowest_free-Lowest :
    (taken : List Text) (left low high : ℕ)
    → ((m : ℕ) → low ≤ m → m < high → m < low + left)
    → ((m : ℕ) → low ≤ m → m < low + left → m < high)
    → ((n : ℕ) × (Lowest taken low high n × (lowest_free taken left low ≡ some (address n))))
      ⊎ (AllTaken taken low high × (lowest_free taken left low ≡ none))
unfolding lowest_free AllTaken
lowest_free-Lowest taken zero low high to from =
    inr (λ m h k. let bound = to m h k in absurd (omega arith), refl)
lowest_free-Lowest taken (suc left) low high to from =
    elim (Bool-cases (has_text taken (address low))) [
      | inr free ↦ inl (
        low,
        (
          record {
            above = omega arith;
            below = from low (omega arith) (omega arith);
            free = free;
            lowest = λ m h k. absurd (omega arith);
          },
          rw (free, lowest_free) refl,
        ),
      )
      | inl used ↦
          elim (lowest_free-Lowest taken left (low + 1) high
            (λ m h k. let bound = to m (omega arith) k in omega arith)
            (λ m h k. from m (omega arith) (omega arith))) [
              | inl (n, (l, found)) ↦ inl (
                n,
                (
                  record {
                    above = let a = l.above in omega arith;
                    below = l.below;
                    free = l.free;
                    lowest = from_next (λ m. has_text taken (address m) ≡ true) low n used l.lowest;
                  },
                  rw (used, lowest_free) found,
                ),
              )
              | inr (every, missing) ↦ inr (
                from_next (λ m. has_text taken (address m) ≡ true) low high used every,
                rw (used, lowest_free) missing,
              )
            ]
    ]

abbrev pub ok : Write
ok = record { fate = written; cleanup = none }

abbrev pub fresh_device : Text → ℕ → ReceiverDevice
fresh_device key n = record { public_key = key; address = address n; allow_tcp = all_ports }

-- The state in which the device has been added and the invitation is gone.
abbrev pub enrolled : State → ReceiverDevice → ℤ → List Pending → State
enrolled q device now others = record q {
  devices = q.devices ++ device ∷ [];
  invitations = live_ones now others;
}

-- The steps of `enroll`, each under the tests that lead to it.
pub enroll_admits :
    (sha256 : List ℕ → Text) (key secret : Text) (now : ℤ) (w : Write) (s : Store)
    → s.failed ≡ false
    → (not (is_key key) || text_eq key s.state.receiver_key || not (is_key secret)) ≡ false
    → enroll sha256 key secret now w s ≡ admit_pending sha256 s.state key secret now w s
unfolding enroll
enroll_admits sha256 key secret now w s works usable =
    if_false s.failed _ _ works
    ∙ ap (λ (r : Run StateError Store ReceiverDevice). r s) (if_false _ _ _ usable)

pub admit_chosen :
    (sha256 : List ℕ → Text) (q : State) (key secret : Text) (now : ℤ) (s : Store) (p : Pending)
    (others : List Pending) (r : ReceiverDevice × List ReceiverDevice)
    → find_pending (digest sha256 secret) now q.invitations ≡ some (p, others)
    → choose q p key ≡ return r
    → admit_pending sha256 q key secret now ok s
      ≡ done r.0 (record s {
        state = record q { devices = r.1; invitations = live_ones now others };
        disk = some (record q { devices = r.1; invitations = live_ones now others });
      })
unfolding admit_pending save clean replace
admit_chosen sha256 q key secret now s p others r found chosen =
    rw (found, admit_pending, chosen) refl

pub admit_refused :
    (sha256 : List ℕ → Text) (q : State) (key secret : Text) (now : ℤ) (w : Write) (s : Store)
    (p : Pending) (others : List Pending) (e : StateError)
    → find_pending (digest sha256 secret) now q.invitations ≡ some (p, others)
    → choose q p key ≡ throw e
    → admit_pending sha256 q key secret now w s ≡ thrown e s
unfolding admit_pending
admit_refused sha256 q key secret now w s p others e found chosen =
    rw (found, admit_pending, chosen) refl

module _ (q : State) (p : Pending) (key : Text) (range : Range) where
  new_device-some :
      (a : Text)
      → find_device key q.devices ≡ none
      → leb max_devices (length q.devices) ≡ false
      → pool_range q.pool ≡ some range
      → lowest_free (taken_addresses q p.exclude_address) (range.last + 1 - range.first) range.first
        ≡ some a
      → choose q p key
        ≡ return (
          record { public_key = key; address = a; allow_tcp = all_ports },
          q.devices ++ record { public_key = key; address = a; allow_tcp = all_ports } ∷ [],
        )
  unfolding choose new_device
  new_device-some a new space known free = rw (new, choose, space, known, free) refl

  new_device-none :
      find_device key q.devices ≡ none
      → leb max_devices (length q.devices) ≡ false
      → pool_range q.pool ≡ some range
      → lowest_free (taken_addresses q p.exclude_address) (range.last + 1 - range.first) range.first
        ≡ none
      → choose q p key ≡ throw rejected_pool
  unfolding choose new_device
  new_device-none new space known free = rw (new, choose, space, known, free) refl

-- Let a new device present a live invitation to a store that works and has room, and let the write
-- succeed. Then either the device gets the lowest number of the pool whose address is neither the
-- receiver's, nor a device's, nor the one that the invitation excludes, the device is added, and the
-- invitation is gone, in memory and on the disk; or all addresses of the pool are taken, and the call
-- throws the pool error and changes nothing.
pub enroll_allocates :
    (sha256 : List ℕ → Text) (key secret : Text) (now : ℤ) (s : Store) (range : Range) (p : Pending)
    (others : List Pending)
    → s.failed ≡ false
    → (not (is_key key) || text_eq key s.state.receiver_key || not (is_key secret)) ≡ false
    → pool_range s.state.pool ≡ some range
    → find_pending (digest sha256 secret) now s.state.invitations ≡ some (p, others)
    → find_device key s.state.devices ≡ none
    → length s.state.devices < max_devices
    → ((n : ℕ) × (Lowest (taken_addresses s.state p.exclude_address) range.first (range.last + 1) n
          × (enroll sha256 key secret now ok s
              ≡ done (fresh_device key n) (record s {
                state = enrolled s.state (fresh_device key n) now others;
                disk = some (enrolled s.state (fresh_device key n) now others);
              }))))
      ⊎ (AllTaken (taken_addresses s.state p.exclude_address) range.first (range.last + 1)
          × (enroll sha256 key secret now ok s ≡ thrown rejected_pool s))
enroll_allocates sha256 key secret now s range p others works usable known found new room =
    let space : leb max_devices (length s.state.devices) ≡ false = ground arith in
    let admitted = enroll_admits sha256 key secret now ok s works usable in
    elim (lowest_free-Lowest (taken_addresses s.state p.exclude_address)
      (range.last + 1 - range.first) range.first (range.last + 1) (λ m h k. omega arith)
      (λ m h k. omega arith)) [
        | inl (n, (l, free)) ↦ inl (
          n,
          (
            l,
            admitted
                ∙ admit_chosen sha256 s.state key secret now s p others _ found
                    (new_device-some s.state p key range (address n) new space known free),
          ),
        )
        | inr (every, none_free) ↦ inr (
          every,
          admitted
              ∙ admit_refused sha256 s.state key secret now ok s p others rejected_pool found
                  (new_device-none s.state p key range new space known none_free),
        )
      ]
