-- ===== src/Engine/Traffic/Genuine.antt =====
-- What reaches the device, in every history of the engine's traffic.
use kepos.Common.{ℕ, Bool, List}
use kepos.Common.Text.{Text}
use kepos.Engine.Enrolling.{Enrolled}
use kepos.Engine.Traffic.{
  on_frame, on_written, on_failure, on_end, on_timeout, on_close, on_packet, stop,
}
use kepos.Engine.Traffic.State.{Member, Network, Traffic, new_traffic, attach}
use kepos.Engine.Traffic.Sessions.{
  on_failure-Sound, on_end-Sound, on_timeout-Sound, on_close-Sound, on_packet-Sound, stop-Sound,
}
use kepos.Engine.Traffic.Frames.{on_frame-Sound}
use kepos.Engine.Traffic.Known.{In, Sound, attach-Sound}

-- The states of the traffic: the events of any streams and of the device, in any order. A stream
-- is attached for a member of the configuration.
pub data History (n : Network) : Traffic → Type 0 where
  begin : History n new_traffic
  attached :
      {q : Traffic} (m : Member) (stream : ℕ)
      → In n.members m
      → History n q
      → History n (attach n q m stream)
  framed :
      {q : Traffic} (m : Member) (stream : ℕ) (packet : List ℕ) (ask : Text → Enrolled)
      (sent : Bool) (now : ℕ)
      → History n q
      → History n (on_frame n q m stream packet ask sent now).0
  written : {q : Traffic} → History n q → History n (on_written q)
  broken : {q : Traffic} (m : Member) (stream : ℕ) → History n q → History n (on_failure q m stream)
  ended :
      {q : Traffic} (m : Member) (stream : ℕ) (first : Bool)
      → History n q
      → History n (on_end q m stream first)
  expired :
      {q : Traffic} (m : Member) (stream : ℕ) → History n q → History n (on_timeout q m stream)
  closed : {q : Traffic} (m : Member) (stream : ℕ) → History n q → History n (on_close q m stream)
  read :
      {q : Traffic} (packet : List ℕ) (sent : Bool) (now : ℕ)
      → History n q
      → History n (on_packet n q packet sent now)
  stopped : {q : Traffic} → History n q → History n (stop q)

-- In every history of attached streams, frames, ends and packets, what was written to the device is
-- genuine: a packet that came by the session of a peer is a well-formed IPv4 packet (20 to 1400 bytes,
-- version 4, no options, no fragment, its length, time to live and checksum right) from the address of
-- that peer to our own, and is TCP or ICMP. Every session in the map is that of a configured peer,
-- with its addresses and grants, in a state of the policy that satisfies the policy's invariant.
pub History-Sound : (n : Network) {q : Traffic} → History n q → Sound n q
unfolding on_written
History-Sound n begin = record { sessions = tt; delivered = tt }
History-Sound n (attached m stream known h) = attach-Sound n _ m stream known (History-Sound n h)
History-Sound n (framed m stream packet ask sent now h) =
    on_frame-Sound n _ m stream packet ask sent now (History-Sound n h)
History-Sound n (written h) =
    let s = History-Sound n h in record { sessions = s.sessions; delivered = s.delivered }
History-Sound n (broken m stream h) = on_failure-Sound n _ m stream (History-Sound n h)
History-Sound n (ended m stream first h) = on_end-Sound n _ m stream first (History-Sound n h)
History-Sound n (expired m stream h) = on_timeout-Sound n _ m stream (History-Sound n h)
History-Sound n (closed m stream h) = on_close-Sound n _ m stream (History-Sound n h)
History-Sound n (read packet sent now h) = on_packet-Sound n _ packet sent now (History-Sound n h)
History-Sound n (stopped h) = stop-Sound n _ (History-Sound n h)
