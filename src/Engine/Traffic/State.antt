-- ===== src/Engine/Traffic/State.antt =====
-- src/vpn/engine.ts: the members, the sessions and the device, and the attachment of a stream.
use kepos.Common.{ℕ, Bool, true, false, not, ◌||◌, List, [], ◌∷◌, ◌++◌, if◌then◌else◌}
use kepos.Common.Text.{Text, codes}
use kepos.Common.Maps.{set, has_key}
use kepos.Policy.State.{Ports, Policy, create}
use kepos.Engine.Enrolling.{Answer}

-- "Kepos VPN IPv4 v1\0\0\0"
abbrev pub hello : List ℕ
hello = codes "Kepos VPN IPv4 v1" ++ 0 ∷ 0 ∷ 0 ∷ []

pub record Member : Type 0 where
  pub label : Text
  pub key : Text
  pub address : Text
  pub ports : Ports

pub record Network : Type 0 where
  pub local_address : Text
  pub local_key : Text
  pub members : List Member
  pub enrollment : Bool

-- `first` is the variable of the handler's closure.
pub record Session : Type 0 where
  pub stream : ℕ
  pub policy : Policy
  pub ready : Bool
  pub first : Bool

pub data Event : Type 0 where
  status : Text → Bool → Event
  connected timed_out : Text → Event
  failed : Text → Bool → Event
  packet_busy source_mismatch policy_rejected policy_admitted : Event

pub record Traffic : Type 0 where
  pub sessions : List (Text × Session)
  pub stopping : Bool
  pub device : Bool
  pub tun_writing : Bool
  pub to_device : List (Text × List ℕ)
  pub to_peers : List (ℕ × List ℕ)
  pub answers : List (ℕ × Answer)
  pub committed : ℕ  -- calls of `changed`
  pub rejection_logs : List (Text × ℕ)
  pub ended : List ℕ
  pub destroyed : List ℕ
  pub events : List Event

abbrev pub new_traffic : Traffic
new_traffic = record {
  sessions = [];
  stopping = false;
  device = true;
  tun_writing = false;
  to_device = [];
  to_peers = [];
  answers = [];
  committed = 0;
  rejection_logs = [];
  ended = [];
  destroyed = [];
  events = [];
}

abbrev pub emit : Traffic → Event → Traffic
emit q e = record q { events = q.events ++ e ∷ [] }

abbrev pub destroy : Traffic → ℕ → Traffic
destroy q stream = record q { destroyed = q.destroyed ++ stream ∷ [] }

abbrev pub put : Traffic → Text → Session → Traffic
put q key s = record q { sessions = set q.sessions key s }

abbrev pub new_session : Network → Member → ℕ → Session
new_session n m stream = record {
  stream = stream;
  policy = create n.local_address m.address m.ports (not n.enrollment);
  ready = false;
  first = true;
}

-- `attach`, with the greeting that is sent first.
unfoldable pub attach : Network → Traffic → Member → ℕ → Traffic
attach n q m stream =
    if q.stopping || has_key q.sessions m.key then destroy q stream else record q {
      sessions = set q.sessions m.key (new_session n m stream);
      to_peers = q.to_peers ++ (stream, hello) ∷ [];
    }
