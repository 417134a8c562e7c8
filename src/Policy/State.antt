-- ===== src/Policy/State.antt =====
-- src/vpn/packet-policy.ts: the state of the class PacketPolicy, and the methods that only change it.
pub mod Sweep
use kepos.Common.{ℕ, ◌+◌, Bool, true, false, List, [], ◌∷◌, leb, if◌then◌else◌, not}
use kepos.Common.Text.{Text, has}
use kepos.Policy.Table.{Direction, incoming, outgoing, Flow, Flows, delete, without, stale}
use kepos.Policy.Tcp.{Segment}

abbrev pub max_flows : ℕ
max_flows = 4096

pub data Ports : Type 0 where
  all : Ports
  only : List ℕ → Ports

-- `ports === "all" || ports.has(port)`
abbrev pub grants : Ports → ℕ → Bool
grants all port = true
grants (only ports) port = has ports port

-- `closed` is the set of the keys of closed flows, in the order of insertion.
pub record Policy : Type 0 where
  pub local_address : Text
  pub peer_address : Text
  pub ports : Ports
  pub allow_outbound : Bool
  pub flows : Flows
  pub closed : List Text
  pub next_sweep : ℕ

abbrev pub opposite : Direction → Direction
opposite incoming = outgoing
opposite outgoing = incoming

-- The address that a packet of this direction comes from; it goes to that of the other direction.
abbrev pub source_of : Policy → Direction → Text
source_of q incoming = q.peer_address
source_of q outgoing = q.local_address

-- The constructor.
unfoldable pub create : Text → Text → Ports → Bool → Policy
create local peer ports allow = record {
  local_address = local;
  peer_address = peer;
  ports = ports;
  allow_outbound = allow;
  flows = [];
  closed = [];
  next_sweep = 0;
}

unfoldable pub clear : Policy → Policy
clear q = record q { flows = []; closed = [] }

unfoldable pub remove : Policy → Text → Policy
remove q key = record q { flows = delete key q.flows; closed = without key q.closed }

-- The sweep goes through the flows and removes those that are over.
unfoldable pub sweep_flows : ℕ → Flows → Flows
sweep_flows now [] = []
sweep_flows now ((key, flow) ∷ rest) =
    let kept = sweep_flows now rest in if stale now flow then kept else (key, flow) ∷ kept

unfoldable pub sweep_closed : ℕ → Flows → List Text → List Text
sweep_closed now [] closed = closed
sweep_closed now ((key, flow) ∷ rest) closed =
    sweep_closed now rest (if stale now flow then without key closed else closed)

unfoldable pub sweep : Policy → ℕ → Policy
unfolding sweep_flows sweep_closed
sweep q now =
    if leb q.next_sweep now
    then record q {
      flows = sweep_flows now q.flows;
      closed = sweep_closed now q.flows q.closed;
      next_sweep = now + 1000;
    }
    else q

-- `direction === "in" && ports !== "all" && !ports.has(destinationPort)`
abbrev pub ungranted : Policy → Segment → Direction → Bool
ungranted q s incoming = not (grants q.ports s.destination_port)
ungranted q s outgoing = false

-- `direction === "out" && !allowOutboundInitiation`
abbrev pub forbidden : Policy → Direction → Bool
forbidden q incoming = false
forbidden q outgoing = not q.allow_outbound
