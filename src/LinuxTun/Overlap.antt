-- ===== src/LinuxTun/Overlap.antt =====
-- A pool that passes the check meets no route of the table.
use kepos.Common.{
  ℕ, zero, suc, ◌+◌, ◌-◌, ◌*◌, ◌/◌, ◌^◌, ◌≤◌, ◌≡◌, ◌⊎◌, refl, sym, ap, ◌∙◌, Bool, true, false, not,
  ◌||◌, Option, none, some, List, [], ◌∷◌, ◌==◌, ltb, leb, All, if◌then◌else◌, Bool-cases, inl, inr,
  arith, unsome, if_false, guard_passed, ==_iff, both, length,
}
use native.Mathlib.Nat.{div-div-eq-div-mul, pow-suc, mul_assoc, div-add-mod}
use kepos.Common.Json.{Json}
use kepos.Common.Split.{split}
use kepos.Common.Text.{Text}
use kepos.LinuxTun.{
  first_part, bits_of, to_number, masked, is_default, prefix_parts, prefix, route_contains, base_of,
  ignored, destination, device, conflicts, check_pool_routes,
}

-- The addresses of a prefix.
abbrev pub InPrefix : ℕ × ℕ → ℕ → Type 0
InPrefix (network, bits) x = x / 2 ^ (32 - bits) ≡ network / 2 ^ (32 - bits)

pow-add : (a c : ℕ) → 2 ^ (a + c) ≡ 2 ^ a * 2 ^ c
pow-add a zero = let same : a + 0 ≡ a = omega arith in rw same (omega arith)
pow-add a (suc c) =
    let same : a + suc c ≡ suc (a + c) = omega arith in
    rw same (
      pow-suc 2 (a + c)
      ∙ ap (λ (t : ℕ). t * 2) (pow-add a c)
      ∙ mul_assoc (2 ^ a) (2 ^ c) 2
      ∙ ap (λ (t : ℕ). 2 ^ a * t) (sym (pow-suc 2 c)))

masked_lem : (v bits : ℕ) → masked v bits ≡ 2 ^ (32 - bits) * (v / 2 ^ (32 - bits))
unfolding masked
masked_lem v bits = omega (arith, div-add-mod v (2 ^ (32 - bits)))

-- Numbers that agree on the shorter quotient agree on the longer one.
coarser : (m n a b : ℕ) → a ≤ b → m / 2 ^ a ≡ n / 2 ^ a → m / 2 ^ b ≡ n / 2 ^ b
coarser m n a b h e =
    let split_b : b ≡ a + (b - a) = omega arith in
    let power : 2 ^ b ≡ 2 ^ a * 2 ^ (b - a) = ap (λ (t : ℕ). 2 ^ t) split_b ∙ pow-add a (b - a) in
    let step =
      λ (t : ℕ). ap (λ (k : ℕ). t / k) power ∙ sym (div-div-eq-div-mul t (2 ^ a) (2 ^ (b - a))) in
    step m ∙ ap (λ (t : ℕ). t / 2 ^ (b - a)) e ∙ sym (step n)

-- Two prefixes with a common address: the longer one starts in the shorter one.
meet :
    (n a p b x : ℕ)
    → InPrefix (n, a) x
    → InPrefix (p, b) x
    → ((masked n a == masked p a) ≡ true) ⊎ ((masked p b == masked n b) ≡ true)
meet n a p b x in_route in_pool = elim (Bool-cases (leb (32 - a) (32 - b))) [
  | inl below ↦
      let narrow = coarser x n (32 - a) (32 - b) (ground arith) in_route in
      inr (same p n b (sym in_pool ∙ narrow))
  | inr above ↦
      let narrow = coarser x p (32 - b) (32 - a) (ground arith) in_pool in
      inl (same n p a (sym in_route ∙ narrow))
]
  where
    same :
        (m n bits : ℕ)
        → m / 2 ^ (32 - bits) ≡ n / 2 ^ (32 - bits)
        → (masked m bits == masked n bits) ≡ true
    same m n bits e =
        (==_iff (masked m bits) (masked n bits)).1
          (masked_lem m bits ∙ ap (λ (t : ℕ). 2 ^ (32 - bits) * t) e ∙ sym (masked_lem n bits))

module _ (number_of : Text → Option ℕ) where
  parts_base :
      (parts : List Text) (n bits : ℕ)
      → prefix_parts number_of parts ≡ some (n, bits)
      → to_number (first_part parts) ≡ some n
  unfolding prefix_parts
  parts_base [] n bits e = absurd (cc)
  parts_base (base ∷ rest) n bits e = go (bits_of number_of rest) (to_number base) e
    where
      go :
          (b : Option ℕ) (o : Option ℕ)
          → elim b as (λ x. Option (ℕ × ℕ)) [
            | none ↦ none
            | some bits ↦ elim o [
              | none ↦ none
              | some network ↦
                  if leb 2 (length rest) || ltb bits 1 || ltb 32 bits
                  then none
                  else some (network, bits)
            ]
          ]
            ≡ some (n, bits)
          → o ≡ some n
      go none o e = absurd (cc)
      go (some b) none e = absurd (cc)
      go (some b) (some m) e =
          let (passed, same) =
            guard_passed (leb 2 (length rest) || ltb b 1 || ltb 32 b) (some (m, b)) (n, bits) e in
          ap some (ap (λ (r : ℕ × ℕ). r.0) (unsome same))

  -- What an accepted pair of a route and an address says.
  contains_lem :
      (route target : Text) (n bits t : ℕ)
      → is_default route ≡ false
      → prefix number_of route ≡ some (n, bits)
      → to_number target ≡ some t
      → route_contains number_of route target ≡ (masked n bits == masked t bits)
  unfolding route_contains
  contains_lem route target n bits t d p q =
      rw (d, route_contains) (rw (p, route_contains) (rw (q, route_contains) refl))

  -- Nothing that lies in the pool lies in the entry, unless it is left aside.
  pub Apart : Text → (ℕ × ℕ) → Json → Type 0
  Apart interface pool item =
      (dst : Text) (n bits : ℕ)
      → destination item ≡ some dst
      → (is_default dst || ignored interface (device item)) ≡ false
      → prefix number_of dst ≡ some (n, bits)
      → (x : ℕ) → InPrefix pool x
      → ¬ InPrefix (n, bits) x

  base_lem :
      (route : Text) (n bits : ℕ)
      → prefix number_of route ≡ some (n, bits)
      → to_number (base_of route) ≡ some n
  unfolding prefix base_of
  base_lem route n bits e = parts_base (split b'/' route) n bits e

  entry-Apart :
      (pool interface : Text) (p b : ℕ) (item : Json)
      → is_default pool ≡ false
      → prefix number_of pool ≡ some (p, b)
      → conflicts number_of pool interface item ≡ false
      → Apart interface (p, b) item
  unfolding Apart conflicts
  entry-Apart pool interface p b item plain parsed free dst n bits found kept read x in_pool
        in_route =
      let not_default = first_false (is_default dst) (ignored interface (device item)) kept in
      let free' : (route_contains number_of dst (base_of pool)
            || route_contains number_of pool (base_of dst))
          ≡ false =
        opened free in
      let one =
        contains_lem dst (base_of pool) n bits p not_default read (base_lem pool p b parsed) in
      let two = contains_lem pool (base_of dst) p b n plain parsed (base_lem dst n bits read) in
      clash (meet n bits p b x in_route in_pool) one two free'
    where
      first_false : (a b : Bool) → (a || b) ≡ false → a ≡ false
      first_false false b e = refl
      first_false true b e = absurd (cc)

      opened :
          conflicts number_of pool interface item ≡ false
          → (route_contains number_of dst (base_of pool)
              || route_contains number_of pool (base_of dst))
            ≡ false
      opened e =
          sym (
            rw (found, conflicts)
              (if_false (is_default dst || ignored interface (device item)) false
                (route_contains number_of dst (base_of pool)
                  || route_contains number_of pool (base_of dst))
                kept))
          ∙ e

      clash : {s t u v : Bool} → (s ≡ true) ⊎ (t ≡ true) → u ≡ s → v ≡ t → (u || v) ≡ false → ⊥
      clash c one two e = ground arith

  -- A pool that passes the check has no address in common with a route of the table, except for the
  -- default route and routes of the interface that is left aside.
  pub check_pool_routes-Apart :
      (pool interface : Text) (p b : ℕ) (routes : List Json)
      → is_default pool ≡ false
      → prefix number_of pool ≡ some (p, b)
      → check_pool_routes number_of pool interface routes ≡ true
      → All (Apart interface (p, b)) routes
  unfolding check_pool_routes
  check_pool_routes-Apart pool interface p b [] plain parsed e = tt
  check_pool_routes-Apart pool interface p b (item ∷ routes) plain parsed e =
      let (first, rest) = both (not (conflicts number_of pool interface item)) _ e in
      (
        entry-Apart pool interface p b item plain parsed
            (unnot' (conflicts number_of pool interface item) first),
        check_pool_routes-Apart pool interface p b routes plain parsed rest,
      )
    where
      unnot' : (b : Bool) → not b ≡ true → b ≡ false
      unnot' false e = refl
      unnot' true e = cc
