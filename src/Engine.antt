-- ===== src/Engine.antt =====
-- src/vpn/engine.ts: who may connect. The firewall of the DHT server, the handler of connections,
-- and the sessions and enrolment streams that they open and that end. A stream is a number, the clock
-- is an argument, and `Date.now` differences are natural because every use of one asks whether it is
-- below or above a positive bound.
pub mod Admission
pub mod Histories
pub mod Rate
pub mod Enrolling
pub mod Members
pub mod Traffic
mod Runs
use kepos.Common.{
  ℕ, ◌+◌, ◌-◌, Bool, true, false, not, ◌&&◌, ◌||◌, Option, none, some, List, [], ◌∷◌, ◌++◌, leb,
  ltb, ◌==◌, if◌then◌else◌, length,
}
use kepos.Common.Text.{Text, text_eq, has, codes}
use kepos.Common.Maps.{get, set, del, has_key}

pub data Connection : Type 0 where
  dial accept : Connection

pub record Peer : Type 0 where
  pub label : Text
  pub key : Text
  pub direction : Connection

-- What `startVpnEngine` is called with: the peers, and whether it can enrol.
pub record Setup : Type 0 where
  pub peers : List Peer
  pub enrollment : Bool

pub data Note : Type 0 where
  unknown_rejected : Note
  admission : Text → Text → Note
  accepted opened mismatched : Text → Note
  event_unknown event_accepted : Note

pub record Engine : Type 0 where
  pub sessions : List (Text × ℕ)
  pub last_admissions : List (Text × ℕ)
  pub admission_logs : List (Text × ℕ)
  pub last_unknown : Option ℕ
  pub streams : List ℕ
  pub destroyed : List ℕ
  pub reservations : List (Text × ℕ)
  pub enrollment_streams : List ℕ
  pub attempts : List ℕ
  pub stopping : Bool
  pub notes : List Note

abbrev pub new_engine : Engine
new_engine = record {
  sessions = [];
  last_admissions = [];
  admission_logs = [];
  last_unknown = none;
  streams = [];
  destroyed = [];
  reservations = [];
  enrollment_streams = [];
  attempts = [];
  stopping = false;
  notes = [];
}

-- `new Map(peers.map((peer) => [peer.key, peer]))`: of peers with one key, the last.
pub by_key : List Peer → Text → Option Peer
by_key [] key = none
by_key (p ∷ ps) key =
    let later = by_key ps key in
    elim later [ some q ↦ some q | none ↦ if text_eq p.key key then some p else none ]

-- `Set.add` and `Set.delete` of a stream.
pub add_stream : ℕ → List ℕ → List ℕ
add_stream s xs = if has xs s then xs else xs ++ s ∷ []

pub delete_stream : ℕ → List ℕ → List ℕ
delete_stream s [] = []
delete_stream s (x ∷ xs) = let rest = delete_stream s xs in if x == s then rest else x ∷ rest

abbrev pub note : Engine → Note → Engine
note q n = record q { notes = q.notes ++ n ∷ [] }

abbrev pub destroy : Engine → ℕ → Engine
destroy q stream = record q { destroyed = q.destroyed ++ stream ∷ [] }

-- `last !== undefined && timestamp - last < span`
abbrev pub recent : Option ℕ → ℕ → ℕ → Bool
recent none now span = false
recent (some last) now span = ltb (now - last) span

pub log_admission : Engine → Peer → Text → ℕ → Engine
log_admission q peer message now =
    let key = peer.key ++ b':' ∷ message in
    if recent (get q.admission_logs key) now 5000
    then q
    else note (record q { admission_logs = set q.admission_logs key now })
        (admission peer.label message)

-- The two loops that drop what has expired.
pub unexpired : List (Text × ℕ) → ℕ → List (Text × ℕ)
unexpired [] now = []
unexpired ((key, expiry) ∷ m) now =
    let rest = unexpired m now in if leb expiry now then rest else (key, expiry) ∷ rest

pub last_minute : List ℕ → ℕ → List ℕ
last_minute [] now = []
last_minute (a ∷ later) now =
    let rest = last_minute later now in if leb 60000 (now - a) then rest else a ∷ later

-- An unknown key may be let in to enrol.
pub reserve : Engine → Text → ℕ → Engine × Bool
unfolding unexpired last_minute
reserve q key now =
    let reservations = unexpired q.reservations now in
    let attempts = last_minute q.attempts now in
    if leb 32 (length attempts)
      || leb 8 (length q.enrollment_streams + length reservations)
      || has_key reservations key
    then (record q { reservations = reservations; attempts = attempts }, true)
    else (
      record q {
        reservations = set reservations key (now + 10000);
        attempts = attempts ++ now ∷ [];
      },
      false,
    )

pub reject_unknown : Engine → ℕ → Engine × Bool
reject_unknown q now =
    if recent q.last_unknown now 5000
    then (q, true)
    else (note (record q { last_unknown = some now }) unknown_rejected, true)

-- A peer that is configured to accept.
pub admit_peer : Engine → Peer → Text → ℕ → Engine × Bool
unfolding log_admission
admit_peer q peer key now =
    if has_key q.sessions key
    then (log_admission q peer (codes "rejected because a session is already active") now, true)
    else if recent (get q.last_admissions key) now 1000
    then (log_admission q peer (codes "rejected by handshake retry rate limit") now, true)
    else (
      note
          (log_admission (record q { last_admissions = set q.last_admissions key now }) peer
            (codes "authenticated handshake admitted") now)
          event_accepted,
      false,
    )

abbrev pub accepts : Peer → Bool
accepts peer = elim peer.direction [ accept ↦ true | dial ↦ false ]

-- The answer is true if the connection is refused.
pub firewall : Setup → Engine → Text → ℕ → Engine × Bool
unfolding by_key reserve reject_unknown admit_peer
firewall setup q key now = elim (by_key setup.peers key) [
  | none ↦
      if setup.enrollment && not q.stopping
      then reserve q key now
      else reject_unknown (note q event_unknown) now
  | some peer ↦ if not (accepts peer) then reject_unknown q now else admit_peer q peer key now
]

pub attach_enrollment : Engine → ℕ → Engine
unfolding add_stream
attach_enrollment q stream =
    if q.stopping || leb 8 (length q.enrollment_streams) then destroy q stream else record q {
      streams = add_stream stream q.streams;
      enrollment_streams = add_stream stream q.enrollment_streams;
    }

pub attach : Engine → Peer → ℕ → Engine
unfolding add_stream
attach q peer stream =
    if q.stopping || has_key q.sessions peer.key then destroy q stream else record q {
      streams = add_stream stream q.streams;
      sessions = set q.sessions peer.key stream;
    }

-- The handler of a connection that the firewall let through.
pub on_connection : Setup → Engine → Text → ℕ → Engine
unfolding by_key attach attach_enrollment
on_connection setup q key stream =
    let reserved = has_key q.reservations key in
    let q' = record q { reservations = del q.reservations key } in
    elim (by_key setup.peers key) [
      | none ↦
          if setup.enrollment && reserved && not q.stopping
          then attach_enrollment q' stream
          else destroy q' stream
      | some peer ↦
          if not (accepts peer) || q.stopping
          then destroy q' stream
          else attach (note q' (accepted peer.label)) peer stream
    ]

-- A dial begins.
unfoldable pub on_dial : Engine → ℕ → Engine
unfolding add_stream
on_dial q stream = record q { streams = add_stream stream q.streams }

-- A dialled stream has connected; `remote` is the key of the other side.
pub on_dialled : Engine → Peer → Text → ℕ → Engine
unfolding attach delete_stream
on_dialled q peer remote stream =
    if q.stopping
    then destroy (record q { streams = delete_stream stream q.streams }) stream
    else if not (text_eq remote peer.key)
    then destroy
        (record (note q (mismatched peer.label)) { streams = delete_stream stream q.streams })
        stream
    else attach (note q (opened peer.label)) peer stream

-- The `close` event of a session's stream.
pub on_close : Engine → Peer → ℕ → Engine
unfolding delete_stream
on_close q peer stream =
    let q' = record q { streams = delete_stream stream q.streams } in
    elim (get q.sessions peer.key) [
      | none ↦ q'
      | some s ↦ if s == stream then record q' { sessions = del q.sessions peer.key } else q'
    ]

-- The end of the one exchange of an enrolment stream.
pub on_enrolled : Engine → ℕ → Engine
unfolding delete_stream
on_enrolled q stream =
    destroy
      (record q {
        enrollment_streams = delete_stream stream q.enrollment_streams;
        streams = delete_stream stream q.streams;
      })
      stream

-- The part of `stop` that comes before the devices are closed.
pub stop : Engine → Engine
stop q =
    if q.stopping
    then q
    else record q { stopping = true; sessions = []; destroyed = q.destroyed ++ q.streams }
