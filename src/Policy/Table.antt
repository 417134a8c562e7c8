-- ===== src/Policy/Table.antt =====
-- src/vpn/packet-policy.ts: the record of a flow, and the map of flows, in the order of insertion.
pub mod Laws
use kepos.Common.{
  ℕ, ◌-◌, ◌*◌, Bool, true, false, not, ◌&&◌, ◌||◌, Option, none, some, List, [], ◌∷◌, leb, ◌==◌,
  if◌then◌else◌,
}
use kepos.Common.Text.{Text, text_eq}

pub data Direction : Type 0 where
  incoming outgoing : Direction

abbrev pub direction_eq : Direction → Direction → Bool
direction_eq incoming incoming = true
direction_eq outgoing outgoing = true
direction_eq _ _ = false

-- A field that may be undefined is an `Option`.
pub record Flow : Type 0 where
  pub initiator : Direction
  pub sequence : ℕ
  pub replied : Bool
  pub established : Bool
  pub response_sequence : Option ℕ
  pub fin_in : Option ℕ
  pub fin_out : Option ℕ
  pub ack_in : Option ℕ
  pub ack_out : Option ℕ
  pub closed_at : Option ℕ
  pub last_seen : ℕ

abbrev pub Flows : Type 0
Flows = List (Text × Flow)

unfoldable pub find : Text → Flows → Option Flow
find key [] = none
find key ((k, flow) ∷ rest) = if text_eq k key then some flow else find key rest

-- `set`: in place if the key is there, else at the end.
unfoldable pub put : Text → Flow → Flows → Flows
put key flow [] = (key, flow) ∷ []
put key flow ((k, old) ∷ rest) =
    if text_eq k key then (k, flow) ∷ rest else (k, old) ∷ put key flow rest

-- `delete` of the map, and of a set of keys: what has this key goes, and there is one at most.
unfoldable pub delete : Text → Flows → Flows
delete key [] = []
delete key ((k, flow) ∷ rest) =
    let kept = delete key rest in if text_eq k key then kept else (k, flow) ∷ kept

unfoldable pub without : Text → List Text → List Text
without key [] = []
without key (k ∷ rest) = let kept = without key rest in if text_eq k key then kept else k ∷ kept

-- `add` of a set.

unfoldable pub add_key : Text → List Text → List Text
add_key key [] = key ∷ []
add_key key (k ∷ rest) = if text_eq k key then k ∷ rest else k ∷ add_key key rest

abbrev pub handshake_idle_ms : ℕ
handshake_idle_ms = 5 * 60_000

abbrev pub closed_grace_ms : ℕ
closed_grace_ms = 60_000

-- The test of the sweep. `-` stops at 0 where `now` is earlier, and both limits are positive.
abbrev closed_long : ℕ → Option ℕ → Bool
closed_long now none = false
closed_long now (some closed_at) = leb closed_grace_ms (now - closed_at)

unfoldable pub stale : ℕ → Flow → Bool
stale now flow =
    closed_long now flow.closed_at
    || not flow.established && leb handshake_idle_ms (now - flow.last_seen)
