-- ===== src/Engine/Rate.antt =====
-- The firewall does not let a key in twice within a second.
use mathlib.Core.Path.{subst}
use kepos.Common.{
  ℕ, ◌+◌, ◌<◌, Bool, true, false, not, ◌&&◌, ◌||◌, none, some, List, [], ◌∷◌, ◌++◌, leb, length,
  ◌≡◌, refl, arith, if_cases, Bool-cases, Option-cases, inl, inr,
}
use kepos.Common.Text.{Text, text_eq, text_eq_refl}
use kepos.Common.Maps.{get, set, has_key, get-set}
use kepos.Engine.{
  Peer, Setup, Engine, by_key, firewall, reserve, reject_unknown, admit_peer, unexpired,
  last_minute, log_admission, accepts, recent,
}

-- A reservation that is set and has not expired is found after the sweep.
reserved_key :
    (m : List (Text × ℕ)) (key : Text) (expiry now : ℕ)
    → leb expiry now ≡ false
    → has_key (unexpired (set m key expiry) now) key ≡ true
unfolding set unexpired
reserved_key [] key expiry now h = rw (h, text_eq_refl key) refl
reserved_key ((k, e) ∷ m) key expiry now h = elim (Bool-cases (text_eq k key)) [
  | inl same ↦ rw (same, h, same) refl
  | inr other ↦ rw other (
      if_cases (λ (x : List (Text × ℕ)). has_key x key ≡ true) (leb e now) _ _
        (λ old. reserved_key m key expiry now h)
        (λ live. rw other (reserved_key m key expiry now h)))
]

third : (a b c : Bool) → (a || b || c) ≡ false → c ≡ false
third false false c e = e
third false true c e = absurd (cc)
third true b c e = absurd (cc)

reject_unknown-refuses : (q : Engine) (now : ℕ) → (reject_unknown q now).1 ≡ true
unfolding reject_unknown
reject_unknown-refuses q now =
    if_cases (λ (r : Engine × Bool). r.1 ≡ true) (recent q.last_unknown now 5000) _ _ (λ e. refl)
      (λ e. refl)

refused_again :
    (q : Engine) (key : Text) (now : ℕ)
    → has_key (unexpired q.reservations now) key ≡ true
    → (reserve q key now).1 ≡ true
unfolding reserve
refused_again q key now h =
    if_cases (λ (r : Engine × Bool). r.1 ≡ true)
      (leb 32 (length (last_minute q.attempts now))
        || leb 8 (length q.enrollment_streams + length (unexpired q.reservations now))
        || has_key (unexpired q.reservations now) key)
      _ _ (λ e. refl)
      (λ e.
        let free : has_key (unexpired q.reservations now) key ≡ false =
          third (leb 32 (length (last_minute q.attempts now)))
            (leb 8 (length q.enrollment_streams + length (unexpired q.reservations now))) _ e in
        absurd (cc))

log_admission-last :
    (q : Engine) (p : Peer) (message : Text) (now : ℕ)
    → (log_admission q p message now).last_admissions ≡ q.last_admissions
unfolding log_admission
log_admission-last q p message now =
    if_cases (λ (x : Engine). x.last_admissions ≡ q.last_admissions)
      (recent (get q.admission_logs (p.key ++ b':' ∷ message)) now 5000) _ _ (λ e. refl) (λ e. refl)

-- A peer with a recent admission is refused.
refused_peer :
    (q : Engine) (p : Peer) (key : Text) (now : ℕ)
    → recent (get q.last_admissions key) now 1000 ≡ true
    → (admit_peer q p key now).1 ≡ true
unfolding admit_peer
refused_peer q p key now h =
    if_cases (λ (r : Engine × Bool). r.1 ≡ true) (has_key q.sessions key) _ _ (λ e. refl)
      (λ e.
        if_cases (λ (r : Engine × Bool). r.1 ≡ true) (recent (get q.last_admissions key) now 1000) _
          _ (λ e. refl) (λ e. absurd (cc)))

-- What holds of the state if the connection is let through.
LetIn : (Engine → Type 0) → Engine × Bool → Type 0
LetIn P (q, true) = Unit
LetIn P (q, false) = P q

refusal-LetIn : (P : Engine → Type 0) (r : Engine × Bool) → r.1 ≡ true → LetIn P r
unfolding LetIn
refusal-LetIn P (q, true) e = tt
refusal-LetIn P (q, false) e = absurd (cc)

module _ (setup : Setup) (key : Text) (now now' : ℕ) (soon : now' < now + 1000) where
  -- A state in which the next call refuses the key.
  Refusing : Engine → Type 0
  Refusing q = (firewall setup q key now').1 ≡ true

  stranger-Refusing :
      (q : Engine) (m : List (Text × ℕ))
      → by_key setup.peers key ≡ none
      → q.reservations ≡ set m key (now + 10000)
      → Refusing q
  unfolding Refusing firewall
  stranger-Refusing q m unknown same =
      let live : leb (now + 10000) now' ≡ false = ground arith in
      let there : has_key (unexpired q.reservations now') key ≡ true =
        rw same (reserved_key m key (now + 10000) now' live) in
      rw (unknown, firewall)
        (if_cases (λ (r : Engine × Bool). r.1 ≡ true) (setup.enrollment && not q.stopping) _ _
          (λ e. refused_again q key now' there) (λ e. reject_unknown-refuses _ now'))

  peer-Refusing :
      (q : Engine) (p : Peer) (m : List (Text × ℕ))
      → by_key setup.peers key ≡ some p
      → q.last_admissions ≡ set m key now
      → Refusing q
  unfolding Refusing firewall
  peer-Refusing q p m known same =
      let last : get q.last_admissions key ≡ some now = rw same (get-set m key now) in
      let soon' : recent (some now) now' 1000 ≡ true = ground arith in
      rw (known, firewall)
        (if_cases (λ (r : Engine × Bool). r.1 ≡ true) (not (accepts p)) _ _
          (λ e. reject_unknown-refuses q now') (λ e. refused_peer q p key now' (rw last soon')))

  firewall-LetIn : (q : Engine) → LetIn Refusing (firewall setup q key now)
  unfolding LetIn firewall reserve admit_peer
  firewall-LetIn q = elim (Option-cases (by_key setup.peers key)) [
    | inl unknown ↦
        rw (unknown, firewall)
          (if_cases (LetIn Refusing) (setup.enrollment && not q.stopping) _ _
            (λ e.
              if_cases (LetIn Refusing)
                (leb 32 (length (last_minute q.attempts now))
                  || leb 8 (length q.enrollment_streams + length (unexpired q.reservations now))
                  || has_key (unexpired q.reservations now) key)
                _ _ (λ e. tt)
                (λ e. stranger-Refusing _ (unexpired q.reservations now) unknown refl))
            (λ e. refusal-LetIn Refusing _ (reject_unknown-refuses _ now)))
    | inr (p, known) ↦
        rw (known, firewall)
          (if_cases (LetIn Refusing) (not (accepts p)) _ _
            (λ e. refusal-LetIn Refusing _ (reject_unknown-refuses q now))
            (λ e.
              if_cases (LetIn Refusing) (has_key q.sessions key) _ _ (λ e. tt)
                (λ e.
                  if_cases (LetIn Refusing) (recent (get q.last_admissions key) now 1000) _ _
                    (λ e. tt)
                    (λ e.
                      peer-Refusing _ p q.last_admissions known (log_admission-last _ p _ now)))))
  ]

-- If the firewall lets a key in, a peer's or a stranger's, and a call for the key comes next less than
-- a second later, the firewall refuses it.
pub firewall_twice :
    (setup : Setup) (q q' : Engine) (key : Text) (now now' : ℕ)
    → firewall setup q key now ≡ (q', false)
    → now' < now + 1000
    → (firewall setup q' key now').1 ≡ true
unfolding LetIn Refusing
firewall_twice setup q q' key now now' e h =
    subst (LetIn (Refusing setup key now now' h)) e (firewall-LetIn setup key now now' h q)
