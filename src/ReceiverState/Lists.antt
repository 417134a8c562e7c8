-- ===== src/ReceiverState/Lists.antt =====
-- What the helpers of `enroll`, `grant` and `revoke` keep of the devices and the invitations.
use mathlib.Core.Path.{subst}
use kepos.Common.{
  both, ℕ, zero, suc, ◌+◌, ◌≤◌, ◌<◌, true, false, ◌&&◌, some, List, [], ◌∷◌, map, length, All, ◌≡◌,
  refl, sym, ap, arith, Bool-cases, Option-cases, inl, inr, unsome, guard_passed, if_cases,
}
use kepos.Common.Integers.{ℤ}
use kepos.Common.Text.{Text, text_eq, has_text}
use kepos.Common.Distinct.{Distinct}
use kepos.ReceiverState.Addresses.{Range, address}
use kepos.ReceiverState.Durable.{Grant, all_ports, ports, ReceiverDevice, Pending, live}
use kepos.ReceiverState.Enrollment.{find_pending, lowest_free}
use kepos.ReceiverState.{checked_ports, regrant, without_device, keys_of}
use kepos.ReceiverState.Invariant.{Devices, IsDevice, IsGranted, addresses_of}

-- A device's removal.
without-has :
    (k : Text) (ds : List ReceiverDevice) (f : ReceiverDevice → Text) (s : Text)
    → has_text (map f ds) s ≡ false
    → has_text (map f (without_device k ds)) s ≡ false
unfolding without_device
without-has k [] f s h = refl
without-has k (d ∷ ds) f s h =
    let rest = without-has k ds f s (ground arith) in
    if_cases (λ (xs : List ReceiverDevice). has_text (map f xs) s ≡ false) (text_eq d.public_key k)
      _ _ (λ e. rest) (λ e. ground arith)

without-Distinct :
    (k : Text) (ds : List ReceiverDevice) (f : ReceiverDevice → Text)
    → Distinct (map f ds)
    → Distinct (map f (without_device k ds))
unfolding without_device
without-Distinct k [] f h = tt
without-Distinct k (d ∷ ds) f h =
    let rest = without-Distinct k ds f h.1 in
    if_cases (λ (xs : List ReceiverDevice). Distinct (map f xs)) (text_eq d.public_key k) _ _
      (λ e. rest) (λ e. (without-has k ds f (f d) h.0, rest))

without-All :
    (P : ReceiverDevice → Type 0) (k : Text) (ds : List ReceiverDevice)
    → All P ds
    → All P (without_device k ds)
unfolding without_device
without-All P k [] h = tt
without-All P k (d ∷ ds) h =
    if_cases (All P) (text_eq d.public_key k) _ _ (λ e. without-All P k ds h.1)
      (λ e. (h.0, without-All P k ds h.1))

length-without : (k : Text) (ds : List ReceiverDevice) → length (without_device k ds) ≤ length ds
unfolding without_device
length-without k [] = omega arith
length-without k (d ∷ ds) =
    let shorter = length-without k ds in
    if_cases (λ (xs : List ReceiverDevice). length xs ≤ suc (length ds)) (text_eq d.public_key k) _
      _ (λ e. omega arith) (λ e. omega arith)

pub without_device-Devices :
    (range : Range) (key a k : Text) (ds : List ReceiverDevice)
    → Devices range key a ds
    → Devices range key a (without_device k ds)
without_device-Devices range key a k ds h =
    let shorter = length-without k ds in
    let few = h.few in
    record {
      few = omega arith;
      keys_differ = (
        without-has k ds (λ d. d.public_key) key h.keys_differ.0,
        without-Distinct k ds (λ d. d.public_key) h.keys_differ.1,
      );
      addresses_differ = (
        without-has k ds (λ d. d.address) a h.addresses_differ.0,
        without-Distinct k ds (λ d. d.address) h.addresses_differ.1,
      );
      each = without-All (IsDevice range) k ds h.each;
    }

-- A device's grant.
keys-regrant :
    (k : Text) (g : Grant) (ds : List ReceiverDevice) → keys_of (regrant k g ds) ≡ keys_of ds
unfolding regrant
keys-regrant k g [] = refl
keys-regrant k g (d ∷ ds) = elim (Bool-cases (text_eq d.public_key k)) [
  | inl e ↦ rw e (ap (◌∷◌ d.public_key) (keys-regrant k g ds))
  | inr e ↦ rw e (ap (◌∷◌ d.public_key) (keys-regrant k g ds))
]

addresses-regrant :
    (k : Text) (g : Grant) (ds : List ReceiverDevice)
    → addresses_of (regrant k g ds) ≡ addresses_of ds
unfolding regrant
addresses-regrant k g [] = refl
addresses-regrant k g (d ∷ ds) = elim (Bool-cases (text_eq d.public_key k)) [
  | inl e ↦ rw e (ap (◌∷◌ d.address) (addresses-regrant k g ds))
  | inr e ↦ rw e (ap (◌∷◌ d.address) (addresses-regrant k g ds))
]

length-regrant :
    (k : Text) (g : Grant) (ds : List ReceiverDevice) → length (regrant k g ds) ≡ length ds
unfolding regrant
length-regrant k g [] = refl
length-regrant k g (d ∷ ds) = ap suc (length-regrant k g ds)

regrant-All :
    (range : Range) (k : Text) (g : Grant) (ds : List ReceiverDevice)
    → IsGranted g
    → All (IsDevice range) ds
    → All (IsDevice range) (regrant k g ds)
unfolding regrant IsDevice
regrant-All range k g [] h hs = tt
regrant-All range k g (d ∷ ds) h hs = (
  if_cases (IsDevice range) (text_eq d.public_key k) _ _ (λ e. (hs.0.0, h)) (λ e. hs.0),
  regrant-All range k g ds h hs.1,
)

pub regrant-Devices :
    (range : Range) (key a k : Text) (g : Grant) (ds : List ReceiverDevice)
    → IsGranted g
    → Devices range key a ds
    → Devices range key a (regrant k g ds)
regrant-Devices range key a k g ds granted h = record {
  few = rw (length-regrant k g ds) h.few;
  keys_differ = rw (keys-regrant k g ds) h.keys_differ;
  addresses_differ = rw (addresses-regrant k g ds) h.addresses_differ;
  each = regrant-All range k g ds granted h.each;
}

-- The check of a grant gives the grant itself.
pub checked_same : (g g' : Grant) → checked_ports g ≡ some g' → g ≡ g'
unfolding checked_ports
checked_same all_ports g' e = unsome e
checked_same (ports ns) g' e = unsome (guard_passed _ (some (ports ns)) g' e).1

-- The address of a new device: a number of the range that is not taken.
pub lowest_free_lem :
    (taken : List Text) (left n : ℕ) (a : Text)
    → lowest_free taken left n ≡ some a
    → (m : ℕ) × ((a ≡ address m) × ((n ≤ m) × ((m < n + left) × (has_text taken a ≡ false))))
unfolding lowest_free
lowest_free_lem taken zero n a e = cc
lowest_free_lem taken (suc left) n a e = elim (Bool-cases (has_text taken (address n))) [
  | inl used ↦
      let (m, (same, (above, (below, free)))) =
        lowest_free_lem taken left (n + 1) a (rw (used, lowest_free) at e) in
      (m, (same, (omega arith, (omega arith, free))))
  | inr free ↦
      let same : address n ≡ a = unsome (rw (free, lowest_free) at e) in
      (n, (sym same, (omega arith, (omega arith, rw (sym same) free))))
]

-- The pair that `find_pending` gives, for a list of invitations.
unfoldable pub Found : (Pending → Type 0) → Text → ℤ → ℕ → Pending × List Pending → Type 0
Found P hash now count (p, others) =
    (text_eq p.digest hash ≡ true)
    × ((live now p ≡ true) × (P p × (All P others × (suc (length others) ≡ count))))

-- An invitation that is found, and the others, are among the invitations.
pub find_pending_lem :
    (P : Pending → Type 0) (hash : Text) (now : ℤ) (ps : List Pending) (r : Pending × List Pending)
    → find_pending hash now ps ≡ some r
    → All P ps
    → Found P hash now (length ps) r
unfolding find_pending Found
find_pending_lem P hash now [] r e h = cc
find_pending_lem P hash now (q ∷ ps) r e h =
    elim (Bool-cases (text_eq q.digest hash && live now q)) [
      | inl found ↦
          let (same, alive) = both (text_eq q.digest hash) (live now q) found in
          subst (Found P hash now (suc (length ps))) (unsome (rw (found, find_pending) at e))
            (same, (alive, (h.0, (h.1, refl))))
      | inr other ↦ elim (Option-cases (find_pending hash now ps)) [
        | inl none_left ↦ absurd (cc (rw (other, none_left, find_pending) at e))
        | inr (s, later) ↦
            let (same, (alive, (p, (rest, count)))) = find_pending_lem P hash now ps s later h.1 in
            subst (Found P hash now (suc (length ps)))
              (unsome (rw (other, later, find_pending) at e))
              (same, (alive, (p, ((h.0, rest), ap suc count))))
      ]
    ]
