-- ===== src/ReceiverState/Access.antt =====
-- What `grant` and `revoke` do to the devices, by their keys.
use mathlib.Core.Path.{subst}
use kepos.Common.{
  ℕ, true, false, not, Option, none, some, List, [], ◌∷◌, ◌≡◌, refl, sym, ap, ◌∙◌, inl, inr,
  Bool-cases, Option-cases, if_cases,
}
use kepos.Common.Outcome.{Outcome, Run, done, thrown}
use kepos.Common.Text.{Text, text_eq, has_text, eq_of_text_eq}
use kepos.Common.Distinct.{text_eq_sym}
use kepos.ReceiverState.Durable.{
  Grant, ReceiverDevice, State, Store, StateError, Write, save, clean, replace, Fate, written, lost,
  renamed,
}
use kepos.ReceiverState.Enrollment.{find_device}
use kepos.ReceiverState.{grant, revoke, regrant, without_device, checked_ports, keys_of}
use kepos.ReceiverState.Lists.{checked_same}

gone : (key : Text) (ds : List ReceiverDevice) → find_device key (without_device key ds) ≡ none
unfolding find_device without_device
gone key [] = refl
gone key (d ∷ ds) = elim (Bool-cases (text_eq d.public_key key)) [
  | inl same ↦ rw same (gone key ds)
  | inr other ↦ rw (other, other) (gone key ds)
]

-- Two keys that are not the same text are not both that of a device.
not_both :
    (k key other : Text)
    → text_eq other key ≡ false
    → text_eq k key ≡ true
    → text_eq k other ≡ false
not_both k key other apart same = rw (eq_of_text_eq k key same) (text_eq_sym other key apart)

others_stay :
    (key other : Text) (ds : List ReceiverDevice)
    → text_eq other key ≡ false
    → find_device other (without_device key ds) ≡ find_device other ds
unfolding find_device without_device
others_stay key other [] h = refl
others_stay key other (d ∷ ds) h = elim (Bool-cases (text_eq d.public_key key)) [
  | inl same ↦ rw (same, not_both d.public_key key other h same) (others_stay key other ds h)
  | inr differs ↦ rw (differs, others_stay key other ds h) refl
]

-- What a run did, if it returned.
Returned : {A : Type 0} → (Store → Type 0) → Outcome StateError Store A → Type 0
Returned P (done a s) = P s
Returned P (thrown e s) = Unit

save-Returned :
    (P : Store → Type 0) (next : State) (w : Write) (s : Store)
    → P (record s { state = next; disk = some next })
    → Returned P (save next w s)
unfolding save clean replace Returned
save-Returned P next w s h = go w.cleanup w.fate
  where
    go : (c : Option ℕ) (f : Fate) → Returned P (clean c (replace next f) s)
    go none written = h
    go none lost = tt
    go none renamed = tt
    go (some n) written = tt
    go (some n) lost = tt
    go (some n) renamed = tt

pub record Removed (key : Text) (s s' : Store) : Type 0 where
  pub gone : find_device key s'.state.devices ≡ none
  pub others :
      (other : Text)
      → text_eq other key ≡ false
      → find_device other s'.state.devices ≡ find_device other s.state.devices
  pub invitations : s'.state.invitations ≡ s.state.invitations
  pub disk : s'.disk ≡ some s'.state

-- If the revocation of a key returns, no device has the key, every other key finds the device that it
-- found before, the invitations are unchanged, and the file holds the new state.
pub revoke-Removed :
    (key : Text) (w : Write) (s s' : Store) → revoke key w s ≡ done tt s' → Removed key s s'
unfolding revoke Returned
revoke-Removed key w s s' e = subst (Returned (Removed key s)) e (
    if_cases (λ (o : Outcome StateError Store (Unit {0})). Returned (Removed key s) o) s.failed _ _
      (λ e. tt)
      (λ e.
        if_cases (λ (r : Run StateError Store (Unit {0})). Returned (Removed key s) (r s))
          (not (has_text (keys_of s.state.devices) key)) _ _ (λ e. tt)
          (λ e.
            save-Returned (Removed key s)
              (record s.state { devices = without_device key s.state.devices }) w s
              (record {
                gone = gone key s.state.devices;
                others = λ other h. others_stay key other s.state.devices h;
                invitations = refl;
                disk = refl;
              }))))

-- What a grant makes of a device.
abbrev pub granting : Grant → Option ReceiverDevice → Option ReceiverDevice
granting g none = none
granting g (some d) = some (record d { allow_tcp = g })

regranted :
    (key : Text) (g : Grant) (ds : List ReceiverDevice)
    → find_device key (regrant key g ds) ≡ granting g (find_device key ds)
unfolding find_device regrant
regranted key g [] = refl
regranted key g (d ∷ ds) = elim (Bool-cases (text_eq d.public_key key)) [
  | inl same ↦ rw (same, same) refl
  | inr other ↦ rw (other, other) (regranted key g ds)
]

others_keep :
    (key other : Text) (g : Grant) (ds : List ReceiverDevice)
    → text_eq other key ≡ false
    → find_device other (regrant key g ds) ≡ find_device other ds
unfolding find_device regrant
others_keep key other g [] h = refl
others_keep key other g (d ∷ ds) h = elim (Bool-cases (text_eq d.public_key key)) [
  | inl same ↦ rw (same, not_both d.public_key key other h same) (others_keep key other g ds h)
  | inr differs ↦ rw (differs, others_keep key other g ds h) refl
]

pub record Granted (key : Text) (asked : Grant) (s s' : Store) : Type 0 where
  pub valid : checked_ports asked ≡ some asked
  pub device : find_device key s'.state.devices ≡ granting asked (find_device key s.state.devices)
  pub others :
      (other : Text)
      → text_eq other key ≡ false
      → find_device other s'.state.devices ≡ find_device other s.state.devices
  pub disk : s'.disk ≡ some s'.state

-- If a grant returns, it passes the check of ports, the device of the key has the grant and is the
-- same otherwise, every other key finds the device that it found before, and the file holds the new
-- state.
pub grant-Granted :
    (key : Text) (g : Grant) (w : Write) (s s' : Store)
    → grant key g w s ≡ done tt s'
    → Granted key g s s'
unfolding grant Returned
grant-Granted key g w s s' e = elim (Option-cases (checked_ports g)) [
  | inl bad ↦ absurd (
      subst (Returned (λ _. ⊥)) (rw (bad, grant) at e) (
        if_cases (λ (o : Outcome StateError Store (Unit {0})). Returned (λ _. ⊥) o) s.failed _ _
          (λ e. tt) (λ e. tt)))
  | inr (g', good) ↦
      let same = checked_same g g' good in
      let valid : checked_ports g ≡ some g = good ∙ ap some (sym same) in
      subst (Returned (Granted key g s)) (rw (valid, grant) at e) (
        if_cases (λ (o : Outcome StateError Store (Unit {0})). Returned (Granted key g s) o)
          s.failed _ _ (λ e. tt)
          (λ e.
            if_cases (λ (r : Run StateError Store (Unit {0})). Returned (Granted key g s) (r s))
              (not (has_text (keys_of s.state.devices) key)) _ _ (λ e. tt)
              (λ e.
                save-Returned (Granted key g s)
                  (record s.state { devices = regrant key g s.state.devices }) w s
                  (record {
                    valid = valid;
                    device = regranted key g s.state.devices;
                    others = λ other h. others_keep key other g s.state.devices h;
                    disk = refl;
                  }))))
]
