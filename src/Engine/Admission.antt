-- ===== src/Engine/Admission.antt =====
-- The bounds of the engine's tables, and that the firewall keeps them.
use mathlib.Core.Path.{subst}
use kepos.Common.{
  ℕ, suc, ◌+◌, ◌-◌, ◌≤◌, Bool, true, false, not, ◌&&◌, ◌||◌, none, some, List, [], ◌∷◌, ◌++◌, leb,
  ◌==◌, length, length-append, All, ◌≡◌, ◌≢◌, refl, arith, if_cases, Bool-cases, Option-cases, inl,
  inr, unsome, ◌<◌,
}
use kepos.Common.Text.{Text, text_eq, has}
use kepos.Common.Maps.{get, has_key, length-set, All-set}
use kepos.Engine.{
  Peer, Setup, Engine, Note, by_key, firewall, reserve, reject_unknown, admit_peer, unexpired,
  last_minute, add_stream, delete_stream, log_admission, destroy, note, accepts, recent,
}

-- At most eight keys and streams enrol at once, and 32 attempts are remembered; only keys of no
-- configured peer enrol, and only configured peers have a session.
pub record Bounded (setup : Setup) (q : Engine) : Type 0 where
  pub enrolling : length q.enrollment_streams + length q.reservations ≤ 8
  pub attempts : length q.attempts ≤ 32
  pub strangers : All (λ (e : Text × ℕ). by_key setup.peers e.0 ≡ none) q.reservations
  pub members : All (λ (e : Text × ℕ). by_key setup.peers e.0 ≢ none) q.sessions

length-unexpired : (m : List (Text × ℕ)) (now : ℕ) → length (unexpired m now) ≤ length m
unfolding unexpired
length-unexpired [] now = omega arith
length-unexpired ((k, e) ∷ m) now =
    let rest = length-unexpired m now in
    if_cases (λ (x : List (Text × ℕ)). length x ≤ suc (length m)) (leb e now) _ _ (λ e. omega arith)
      (λ e. omega arith)

All-unexpired :
    (P : Text → Type 0) (m : List (Text × ℕ)) (now : ℕ)
    → All (λ (e : Text × ℕ). P e.0) m
    → All (λ (e : Text × ℕ). P e.0) (unexpired m now)
unfolding unexpired
All-unexpired P [] now h = tt
All-unexpired P ((k, e) ∷ m) now h =
    if_cases (All (λ (e : Text × ℕ). P e.0)) (leb e now) _ _ (λ e. All-unexpired P m now h.1)
      (λ e. (h.0, All-unexpired P m now h.1))

length-last_minute : (xs : List ℕ) (now : ℕ) → length (last_minute xs now) ≤ length xs
unfolding last_minute
length-last_minute [] now = omega arith
length-last_minute (a ∷ xs) now =
    let rest = length-last_minute xs now in
    if_cases (λ (x : List ℕ). length x ≤ suc (length xs)) (leb 60000 (now - a)) _ _
      (λ e. omega arith) (λ e. omega arith)

pub length-add_stream : (s : ℕ) (xs : List ℕ) → length (add_stream s xs) ≤ length xs + 1
unfolding add_stream
length-add_stream s xs =
    let more = length-append xs (s ∷ []) in
    if_cases (λ (x : List ℕ). length x ≤ length xs + 1) (has xs s) _ _ (λ e. omega arith)
      (λ e. omega arith)

pub length-delete_stream : (s : ℕ) (xs : List ℕ) → length (delete_stream s xs) ≤ length xs
unfolding delete_stream
length-delete_stream s [] = omega arith
length-delete_stream s (x ∷ xs) =
    let rest = length-delete_stream s xs in
    if_cases (λ (y : List ℕ). length y ≤ suc (length xs)) (x == s) _ _ (λ e. omega arith)
      (λ e. omega arith)

neither : (a b c : Bool) → (a || b || c) ≡ false → (a ≡ false) × (b ≡ false)
neither false false c e = (refl, refl)
neither false true c e = absurd (cc)
neither true b c e = absurd (cc)

-- The peer that a key is looked up to has that key.
pub by_key-key :
    (ps : List Peer) (key : Text) (p : Peer) → by_key ps key ≡ some p → text_eq p.key key ≡ true
unfolding by_key
by_key-key [] key p e = cc
by_key-key (x ∷ ps) key p e = elim (Option-cases (by_key ps key)) [
  | inr (y, later) ↦
      let same = unsome (rw (later, by_key) at e) in
      subst (λ (z : Peer). text_eq z.key key ≡ true) same (by_key-key ps key y later)
  | inl missing ↦ elim (Bool-cases (text_eq x.key key)) [
    | inl same ↦
        subst (λ (z : Peer). text_eq z.key key ≡ true)
          (unsome (rw same at (rw (missing, by_key) at e))) same
    | inr other ↦ absurd (let e' = rw other at (rw (missing, by_key) at e) in cc)
  ]
]

module _ (setup : Setup) where
  log_admission-Bounded :
      (q : Engine) (p : Peer) (message : Text) (now : ℕ)
      → Bounded setup q
      → Bounded setup (log_admission q p message now)
  unfolding log_admission
  log_admission-Bounded q p message now h =
      if_cases (Bounded setup) (recent (get q.admission_logs (p.key ++ b':' ∷ message)) now 5000) _
        _ (λ e. h)
        (λ e. record {
          enrolling = h.enrolling;
          attempts = h.attempts;
          strangers = h.strangers;
          members = h.members;
        })

  pub noted-Bounded : (q : Engine) (n : Note) → Bounded setup q → Bounded setup (note q n)
  noted-Bounded q n h = record {
    enrolling = h.enrolling;
    attempts = h.attempts;
    strangers = h.strangers;
    members = h.members;
  }

  pub destroyed-Bounded : (q : Engine) (s : ℕ) → Bounded setup q → Bounded setup (destroy q s)
  destroyed-Bounded q s h = record {
    enrolling = h.enrolling;
    attempts = h.attempts;
    strangers = h.strangers;
    members = h.members;
  }

  reject_unknown-Bounded :
      (q : Engine) (now : ℕ) → Bounded setup q → Bounded setup (reject_unknown q now).0
  unfolding reject_unknown
  reject_unknown-Bounded q now h =
      if_cases (λ (r : Engine × Bool). Bounded setup r.0) (recent q.last_unknown now 5000) _ _
        (λ e. h)
        (λ e. record {
          enrolling = h.enrolling;
          attempts = h.attempts;
          strangers = h.strangers;
          members = h.members;
        })

  reserve-Bounded :
      (q : Engine) (key : Text) (now : ℕ)
      → by_key setup.peers key ≡ none
      → Bounded setup q
      → Bounded setup (reserve q key now).0
  unfolding reserve
  reserve-Bounded q key now unknown h =
      let kept = unexpired q.reservations now in
      let fewer = length-unexpired q.reservations now in
      let tries = last_minute q.attempts now in
      let shorter = length-last_minute q.attempts now in
      let grown = length-set kept key (now + 10000) in
      let longer = length-append tries (now ∷ []) in
      let old = h.enrolling in
      let rate = h.attempts in
      let strangers =
        All-unexpired (λ k. by_key setup.peers k ≡ none) q.reservations now h.strangers in
      if_cases (λ (r : Engine × Bool). Bounded setup r.0)
        (leb 32 (length tries)
          || leb 8 (length q.enrollment_streams + length kept)
          || has_key kept key)
        _ _
        (λ e. record {
          enrolling = omega arith;
          attempts = omega arith;
          strangers = strangers;
          members = h.members;
        })
        (λ e.
          let (few, apart) = neither (leb 32 (length tries)) _ _ e in
          let seats : length q.enrollment_streams + length kept < 8 = ground arith in
          let slots : length tries < 32 = ground arith in
          record {
            enrolling = omega arith;
            attempts = omega arith;
            strangers =
                All-set (λ k. by_key setup.peers k ≡ none) kept key (now + 10000) unknown strangers;
            members = h.members;
          })

  admit_peer-Bounded :
      (q : Engine) (p : Peer) (key : Text) (now : ℕ)
      → Bounded setup q
      → Bounded setup (admit_peer q p key now).0
  unfolding admit_peer
  admit_peer-Bounded q p key now h =
      if_cases (λ (r : Engine × Bool). Bounded setup r.0) (has_key q.sessions key) _ _
        (λ e. log_admission-Bounded q p _ now h)
        (λ e.
          if_cases (λ (r : Engine × Bool). Bounded setup r.0)
            (recent (get q.last_admissions key) now 1000) _ _
            (λ e. log_admission-Bounded q p _ now h)
            (λ e. noted-Bounded _ _ (
              log_admission-Bounded _ p _ now (record {
                enrolling = h.enrolling;
                attempts = h.attempts;
                strangers = h.strangers;
                members = h.members;
              }))))

  pub firewall-Bounded :
      (q : Engine) (key : Text) (now : ℕ)
      → Bounded setup q
      → Bounded setup (firewall setup q key now).0
  unfolding firewall
  firewall-Bounded q key now h = elim (Option-cases (by_key setup.peers key)) [
    | inl unknown ↦
        rw (unknown, firewall)
          (if_cases (λ (r : Engine × Bool). Bounded setup r.0) (setup.enrollment && not q.stopping)
            _ _ (λ e. reserve-Bounded q key now unknown h)
            (λ e. reject_unknown-Bounded _ now (noted-Bounded q _ h)))
    | inr (peer, known) ↦
        rw (known, firewall)
          (if_cases (λ (r : Engine × Bool). Bounded setup r.0) (not (accepts peer)) _ _
            (λ e. reject_unknown-Bounded q now h) (λ e. admit_peer-Bounded q peer key now h))
  ]
