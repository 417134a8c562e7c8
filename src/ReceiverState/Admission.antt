-- ===== src/ReceiverState/Admission.antt =====
-- Enrolment keeps the invariant: the device it adds has a key and an address of its own.
use mathlib.Core.Path.{subst}
use kepos.Common.{
  ℕ, suc, ◌+◌, ◌-◌, ◌≤◌, ◌<◌, Bool, true, false, not, ◌||◌, Option, none, some, List, [], ◌∷◌, ◌++◌,
  map, leb, length, All, All-append, ◌≡◌, refl, sym, ap, arith, Bool-cases, Option-cases, inl, inr,
  if_cases, length-append,
}
use kepos.Common.Outcome.{Outcome, Run, Keeps, Keeps-and_then}
use kepos.Common.Integers.{ℤ}
use kepos.Common.Text.{Text, text_eq, has_text}
use kepos.Common.Distinct.{Distinct, Distinct-append, text_eq_sym}
use kepos.Invitation.{is_key}
use kepos.ReceiverState.Addresses.{Range, address}
use kepos.ReceiverState.Durable.{
  all_ports, ReceiverDevice, Pending, State, Store, StateError, live_ones, max_devices, Write, save,
}
use kepos.ReceiverState.Enrollment.{
  find_pending, lowest_free, new_device, choose, find_device, taken_addresses, excludes,
}
use kepos.ReceiverState.{checked_ports, keys_of, enroll, admit_pending, digest}
use kepos.ReceiverState.Invariant.{
  Devices, IsDevice, InPool, IsGranted, IsInvitation, addresses_of, Valid, Sound,
  live_ones-Invitations,
}
use kepos.ReceiverState.Lists.{lowest_free_lem, find_pending_lem, Found}
use kepos.ReceiverState.Preservation.{save-Sound}

-- The devices that are left when the choice returns.
Chosen : Range → State → ReceiverDevice × List ReceiverDevice → Type 0
Chosen range q r = Devices range q.receiver_key q.receiver_address r.1

unknown_key :
    (key : Text) (ds : List ReceiverDevice)
    → find_device key ds ≡ none
    → has_text (keys_of ds) key ≡ false
unfolding find_device
unknown_key key [] e = refl
unknown_key key (d ∷ ds) e = elim (Bool-cases (text_eq d.public_key key)) [
  | inl same ↦ absurd (cc (rw (same, find_device) at e))
  | inr other ↦ rw other (unknown_key key ds (rw (other, find_device) at e))
]

map_last :
    (f : ReceiverDevice → Text) (ds : List ReceiverDevice) (d : ReceiverDevice)
    → map f (ds ++ d ∷ []) ≡ map f ds ++ f d ∷ []
map_last f [] d = refl
map_last f (x ∷ ds) d = ap (◌∷◌ (f x)) (map_last f ds d)

-- An address outside the taken ones is neither the receiver's nor a device's.
untaken :
    (q : State) (excluded : Option Text) (a : Text)
    → has_text (taken_addresses q excluded) a ≡ false
    → has_text (q.receiver_address ∷ addresses_of q.devices) a ≡ false
untaken q none a e = e
untaken q (some x) a e = ground arith

module _ (range : Range) (q : State) (v : Valid range q) where
  added-Devices :
      (key a : Text)
      → has_text (q.receiver_key ∷ keys_of q.devices) key ≡ false
      → has_text (q.receiver_address ∷ addresses_of q.devices) a ≡ false
      → InPool range a
      → length q.devices < max_devices
      → Devices range q.receiver_key q.receiver_address
          (q.devices ++ record { public_key = key; address = a; allow_tcp = all_ports } ∷ [])
  unfolding IsDevice IsGranted checked_ports
  added-Devices key a fresh_key fresh_address inside room =
      let new : ReceiverDevice = record { public_key = key; address = a; allow_tcp = all_ports } in
      let h = v.devices in
      let count = length-append q.devices (new ∷ []) in
      record {
        few = omega arith;
        keys_differ =
            subst Distinct
              (ap (◌∷◌ q.receiver_key) (sym (map_last (λ d. d.public_key) q.devices new)))
              (Distinct-append (q.receiver_key ∷ keys_of q.devices) key h.keys_differ fresh_key);
        addresses_differ =
            subst Distinct
              (ap (◌∷◌ q.receiver_address) (sym (map_last (λ d. d.address) q.devices new)))
              (Distinct-append (q.receiver_address ∷ addresses_of q.devices) a h.addresses_differ
                fresh_address);
        each = All-append (IsDevice range) q.devices (new ∷ []) h.each ((inside, refl), tt);
      }

  inside :
      (a : Text) (n : ℕ)
      → a ≡ address n
      → range.first ≤ n
      → n < range.first + (range.last + 1 - range.first)
      → InPool range a
  unfolding InPool
  inside a n same above below = (n, (same, (above, omega arith)))

  new_device-Sound :
      (pending : Pending) (key : Text) (s : Store)
      → has_text (q.receiver_key ∷ keys_of q.devices) key ≡ false
      → Sound range s
      → Keeps (Sound range) (Chosen range q) (new_device q pending key s)
  unfolding new_device Chosen
  new_device-Sound pending key s fresh h =
      if_cases
        (λ (r : Run StateError Store (ReceiverDevice × List ReceiverDevice)).
          Keeps (Sound range) (Chosen range q) (r s))
        (leb max_devices (length q.devices)) _ _ (λ full. (h, tt))
        (λ room.
          rw v.pool
            (elim (Option-cases (
              lowest_free (taken_addresses q pending.exclude_address) (range.last + 1 - range.first)
                range.first)) [
                  | inl used_up ↦ rw used_up (h, tt)
                  | inr (a, found) ↦
                      let (n, (same, (above, (below, free)))) = lowest_free_lem _ _ _ a found in
                      rw found (
                        h,
                        added-Devices key a fresh (untaken q pending.exclude_address a free)
                            (inside a n same above below) (ground arith),
                      )
                ]))

  choose-Sound :
      (pending : Pending) (key : Text) (s : Store)
      → text_eq q.receiver_key key ≡ false
      → Sound range s
      → Keeps (Sound range) (Chosen range q) (choose q pending key s)
  unfolding choose Chosen
  choose-Sound pending key s own h = elim (Option-cases (find_device key q.devices)) [
    | inl unknown ↦
        rw (unknown, choose)
          (new_device-Sound pending key s (rw own (unknown_key key q.devices unknown)) h)
    | inr (device, known) ↦
        rw (known, choose)
          (if_cases
            (λ (r : Run StateError Store (ReceiverDevice × List ReceiverDevice)).
              Keeps (Sound range) (Chosen range q) (r s))
            (excludes pending.exclude_address device.address) _ _ (λ excluded. (h, tt))
            (λ fine. (h, v.devices)))
  ]

-- What follows the choice of a device.
admit_pending-Sound :
    (range : Range) (sha256 : List ℕ → Text) (q : State) (key secret : Text) (now : ℤ) (w : Write)
    (s : Store)
    → Valid range q
    → text_eq q.receiver_key key ≡ false
    → Sound range s
    → Keeps (Sound range) (λ _. Unit) (admit_pending sha256 q key secret now w s)
unfolding admit_pending Found Chosen
admit_pending-Sound range sha256 q key secret now w s v own h =
    elim (Option-cases (find_pending (digest sha256 secret) now q.invitations)) [
      | inl missing ↦ rw (missing, admit_pending) (h, tt)
      | inr (r, found) ↦
          let (same, (alive, (p, (others, count)))) =
            find_pending_lem (IsInvitation range q.receiver_address) _ now q.invitations r found
              v.invitations.each in
          rw (found, admit_pending)
            (Keeps-and_then (Sound range) (Chosen range q) (λ _. Unit) (choose q r.0 key s) _
              (choose-Sound range q v r.0 key s own h)
              (λ c s' k chosen.
                Keeps-and_then (Sound range) (λ _. Unit) (λ _. Unit) (save (next r c) w s') _
                  (save-Sound range (next r c) w s' (valid r others count c chosen) k)
                  (λ a s'' k' _. (k', tt))))
    ]
  where
    next : Pending × List Pending → ReceiverDevice × List ReceiverDevice → State
    next r c = record q { devices = c.1; invitations = live_ones now r.1 }

    valid :
        (r : Pending × List Pending)
        → All (IsInvitation range q.receiver_address) r.1
        → suc (length r.1) ≡ length q.invitations
        → (c : ReceiverDevice × List ReceiverDevice)
        → Devices range q.receiver_key q.receiver_address c.1
        → Valid range (next r c)
    valid r others count c chosen =
        let few = v.invitations.few in
        record {
          pool = v.pool;
          devices = chosen;
          invitations =
              live_ones-Invitations range q.receiver_address now r.1
                (record { few = omega arith; each = others });
        }

middle : (a b c : Bool) → (a || b || c) ≡ false → b ≡ false
middle false false c e = refl
middle false true c e = cc
middle true b c e = cc

pub enroll-Sound :
    (range : Range) (sha256 : List ℕ → Text) (key secret : Text) (now : ℤ) (w : Write) (s : Store)
    → Sound range s
    → Keeps (Sound range) (λ _. Unit) (enroll sha256 key secret now w s)
unfolding enroll
enroll-Sound range sha256 key secret now w s h =
    if_cases (λ (o : Outcome StateError Store ReceiverDevice). Keeps (Sound range) (λ _. Unit) o)
      s.failed _ _ (λ failed. (h, tt))
      (λ works.
        if_cases
          (λ (r : Run StateError Store ReceiverDevice). Keeps (Sound range) (λ _. Unit) (r s))
          (not (is_key key) || text_eq key s.state.receiver_key || not (is_key secret)) _ _
          (λ unusable. (h, tt))
          (λ usable.
            admit_pending-Sound range sha256 s.state key secret now w s h.valid
              (text_eq_sym key s.state.receiver_key (middle (not (is_key key)) _ _ usable)) h))
