-- ===== src/Common/Outcome.antt =====
-- Asynchronous code over a state, which returns or throws. Each `await` is a bind: what follows it
-- runs only if it returned, and a throw keeps the state that was reached.
use mathlib.Core.Path.{◌≡◌, refl}

pub data Outcome {ℓ} (E S A : Type ℓ) : Type ℓ where
  done : A → S → Outcome E S A
  thrown : E → S → Outcome E S A

abbrev pub Run {ℓ} : Type ℓ → Type ℓ → Type ℓ → Type ℓ
Run E S A = S → Outcome E S A

module _ {ℓ} {E S : Type ℓ} where
  abbrev pub and_then : {A B : Type ℓ} → Outcome E S A → (A → Run E S B) → Outcome E S B
  and_then (done a s) k = k a s
  and_then (thrown e s) k = thrown e s

  infixl 5 ◌>>=◌ ◌>>◌
  abbrev pub ◌>>=◌ : {A B : Type ℓ} → Run E S A → (A → Run E S B) → Run E S B
  ◌>>=◌ m k s = and_then (m s) k

  abbrev pub ◌>>◌ : {A B : Type ℓ} → Run E S A → Run E S B → Run E S B
  m >> k = m >>= λ _. k

  abbrev pub return : {A : Type ℓ} → A → Run E S A
  return a s = done a s

  abbrev pub throw : {A : Type ℓ} → E → Run E S A
  throw e s = thrown e s

  -- Binding twice is binding once to what follows.
  pub and_then_assoc :
      {A B C : Type ℓ} (o : Outcome E S A) (f : A → Run E S B) (g : B → Run E S C)
      → and_then (and_then o f) g ≡ and_then o (λ a s. and_then (f a s) g)
  and_then_assoc (done a s) f g = refl
  and_then_assoc (thrown e s) f g = refl

  -- What holds of the value that is returned, if one is.
  abbrev pub Ensures {κ} : {A : Type ℓ} → (A → Type κ) → Outcome E S A → Type κ
  Ensures P (done a s) = P a
  Ensures P (thrown e s) = Unit

  pub Ensures-true : {A : Type ℓ} (o : Outcome E S A) → Ensures (λ _. Unit {0}) o
  Ensures-true (done a s) = tt
  Ensures-true (thrown e s) = tt

  -- Continuations that agree on what can be returned give the same outcome.
  pub and_then_congr {κ} :
      {A B : Type ℓ} (P : A → Type κ) (o : Outcome E S A) (f g : A → Run E S B)
      → Ensures P o
      → ((a : A) (s : S) → P a → f a s ≡ g a s)
      → and_then o f ≡ and_then o g
  and_then_congr P (done a s) f g p h = h a s p
  and_then_congr P (thrown e s) f g p h = refl

  pub Ensures-and_then {κ ι} :
      {A B : Type ℓ} (P : A → Type κ) (Q : B → Type ι) (o : Outcome E S A) (f : A → Run E S B)
      → Ensures P o
      → ((a : A) (s : S) → P a → Ensures Q (f a s))
      → Ensures Q (and_then o f)
  Ensures-and_then P Q (done a s) f p h = h a s p
  Ensures-and_then P Q (thrown e s) f p h = tt

  pub and_then-return : {A : Type ℓ} (o : Outcome E S A) → and_then o return ≡ o
  and_then-return (done a s) = refl
  and_then-return (thrown e s) = refl

  -- What holds of the state that is reached, and of the value that is returned, if one is.
  abbrev pub Keeps {κ} : {A : Type ℓ} → (S → Type κ) → (A → Type κ) → Outcome E S A → Type κ
  Keeps P Q (done a s) = P s × Q a
  Keeps P Q (thrown e s) = P s × Unit {κ}

  pub Keeps-and_then {κ} :
      {A B : Type ℓ} (P : S → Type κ) (Q : A → Type κ) (R : B → Type κ) (o : Outcome E S A)
      (f : A → Run E S B)
      → Keeps P Q o
      → ((a : A) (s : S) → P s → Q a → Keeps P R (f a s))
      → Keeps P R (and_then o f)
  Keeps-and_then P Q R (done a s) f p h = h a s p.0 p.1
  Keeps-and_then P Q R (thrown e s) f p h = p

  abbrev pub final : {A : Type ℓ} → Outcome E S A → S
  final (done a s) = s
  final (thrown e s) = s

  pub Keeps-final {κ} :
      {A : Type ℓ} (P : S → Type κ) (Q : A → Type κ) (o : Outcome E S A) → Keeps P Q o → P (final o)
  Keeps-final P Q (done a s) h = h.0
  Keeps-final P Q (thrown e s) h = h.0
