-- ===== src/PacketFraming.antt =====
-- src/vpn/framing.ts: the class PacketFraming, and VPN_MTU of src/vpn/packet-policy.ts.
-- A packet or a frame is a list of bytes. The streams are the environment's: the reader's is given
-- as the chunks that it yields and how it ends, the writer's answers are arguments of each call.
pub mod Receiving
pub mod Bounds
pub mod Sending
pub mod Runs
use kepos.Common.{
  ℕ, ◌+◌, ◌/◌, ◌%◌, Bool, true, false, ◌||◌, Option, none, some, List, [], ◌∷◌, ◌++◌, ltb,
  if◌then◌else◌, length,
}
use kepos.Common.Outcome.{Outcome, done, thrown, Run, ◌>>=◌, return, throw}
use kepos.Framing.{Protocol, receive_frames}

abbrev pub vpn_mtu : ℕ
vpn_mtu = 1400

-- The errors that the class throws, and those that come from the streams and from `deliver`.
pub data VpnError : Type 0 where
  invalid_packet_length concurrent_writes stream_closed closed_during_write : VpnError
  invalid_frame_length truncated_frame : VpnError
  foreign : ℕ → VpnError

-- `length < 20 || length > VPN_MTU`
abbrev pub bad_length : ℕ → Bool
bad_length n = ltb n 20 || ltb vpn_mtu n

abbrev pub packet_protocol :
    {S : Type 0} → (List ℕ → Run VpnError S (Unit {0})) → Protocol VpnError S
packet_protocol deliver = record {
  invalid = bad_length;
  invalid_length = invalid_frame_length;
  truncated = truncated_frame;
  deliver = deliver;
}

-- How `receive` ends. `destroyed` says that it destroyed both streams.
pub record Received (S : Type 0) : Type 0 where
  pub outcome : Outcome VpnError S (Unit {0})
  pub destroyed : Bool

abbrev pub close_on_error : {S : Type 0} → Outcome VpnError S (Unit {0}) → Received S
close_on_error (done u s) = record { outcome = done u s; destroyed = false }
close_on_error (thrown e s) = record { outcome = thrown e s; destroyed = true }

-- `receive`: the loop, and the `catch` that destroys the streams and throws again.
pub receive :
    {S : Type 0}
    → (List ℕ → Run VpnError S (Unit {0}))
    → List (List ℕ)
    → Option VpnError
    → S
    → Received S
receive deliver chunks failure s =
    close_on_error (receive_frames (packet_protocol deliver) chunks failure s)

-- The frame that `send` builds: the length in two bytes, high byte first, and the packet.
abbrev pub encode : List ℕ → List ℕ
encode packet = (length packet / 256) ∷ (length packet % 256) ∷ packet

-- The object with its writable stream: the frames handed to `write` so far, oldest first.
pub record Sender : Type 0 where
  pub writing : Bool
  pub written : List (List ℕ)
  pub destroyed : Bool

abbrev pub fresh : Sender
fresh = record { writing = false; written = []; destroyed = false }

pub data Sent : Type 0 where
  resolved pending : Sent
  rejected : VpnError → Sent

-- `write` answers `room`; without room the call waits, unless the stream is destroyed by then.
after_write : Sender → Bool → Bool → Sender × Sent
after_write q true gone = (record q { writing = false }, resolved)
after_write q false true = (record q { writing = false }, rejected closed_during_write)
after_write q false false = (record q { writing = true }, pending)

pub send : Sender → List ℕ → (room gone : Bool) → Sender × Sent
unfolding after_write
send q packet room gone =
    if bad_length (length packet)
    then (q, rejected invalid_packet_length)
    else if q.writing
    then (q, rejected concurrent_writes)
    else if q.destroyed
    then (q, rejected stream_closed)
    else after_write (record q { written = q.written ++ encode packet ∷ []; destroyed = gone }) room
        gone

pub data Event : Type 0 where
  drain close : Event
  error : ℕ → Event

-- The handlers of a call that waits. With no call waiting there are no handlers.
pub settle : Sender → Event → Sender × Option Sent
settle q drain = if q.writing then (record q { writing = false }, some resolved) else (q, none)
settle q close =
    if q.writing
    then (record q { writing = false; destroyed = true }, some (rejected closed_during_write))
    else (record q { destroyed = true }, none)
settle q (error n) =
    if q.writing
    then (record q { writing = false; destroyed = true }, some (rejected (foreign n)))
    else (record q { destroyed = true }, none)
