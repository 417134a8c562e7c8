-- ===== src/Lib.antt =====
-- Verification library of Kepos, the peer VPN.
--
-- A VPN engine keeps one connection to each peer. Packets cross a connection in length-prefixed
-- frames (src/vpn/framing.ts), and a stateful policy for each peer decides which packets pass
-- (src/vpn/packet-policy.ts). A receiver enrols devices by invitations (src/vpn/invitation.ts) and
-- gives each an address of its pool (src/vpn/receiver-state.ts).
--
-- Common: shared notation, lists, text, and asynchronous code as a state and error monad.
-- Framing: the loop of `receive`, over the checks, errors and handler in which its users differ.
--   Framing.Stream is the specification by the whole byte stream, and Framing.Chunks the refinement.
-- PacketFraming: the class of that name: `receive`, `send` and the events that end a waiting call.
-- WorkletFraming: src/vpn/worklet-framing.ts, the framing between the app and its VPN process, over the
--   same loop; its chain of writes is a queue. WorkletFraming.Order has the histories of the queue.
-- WorkletBridge: src/vpn/worklet-bridge.ts, as a state machine over its frames, its writes and what its
--   engine does. WorkletBridge.State has its variables and its shutdown, Messages what it
--   reads, and Histories the runs.
-- Packet: the functions `checksum`, `address`, `reaches` and `ipv4` of src/vpn/packet-policy.ts.
--   Packet.Wellformed says what headers are accepted.
-- Policy: the class PacketPolicy. Policy.Table has the map of flows, Policy.Tcp the checks of a
--   segment, Policy.Handshake the state machine of a flow, Policy.State the object, and Policy the
--   methods `admit` and `admitIcmp`. The other children hold proofs.
-- Invitation: src/vpn/invitation.ts. Invitation.Texts and Invitation.Requests hold its round trips.
-- ReceiverState: src/vpn/receiver-state.ts, the store that the receiver keeps. ReceiverState.Addresses
--   has the addresses and the pool, ReceiverState.Durable the data, the write and the queue,
--   ReceiverState.Enrollment the choice of a device, and ReceiverState the operations. Of `open` there
--   is the case of a new directory. ReceiverState.Histories has the histories of operations.
-- Receiver: src/vpn/receiver.ts, which runs the commands, the enrolments and the restarts of the engine
--   over the store one after another. Receiver.State has the launch and the restart, Receiver.Current and
--   Receiver.Histories the invariant.
-- Engine: the part of src/vpn/engine.ts that decides who may connect: the firewall, the handler of
--   connections, the ends of streams, the outcome of a dial, and `stop`. Engine.Histories has the
--   states that these reach in any order.
--   Engine.Members has its peers, Engine.Enrolling the answers to enrolment requests and the names of
--   errors in the log, and Engine.Traffic the sessions: the handlers of frames, of the packets of the
--   device and of the ends of streams, over the policy of each peer.
-- Pair: src/vpn/pair.ts, as a state machine over the events of the connection. Pair.Answers runs it
--   against the answers of the engine.
-- Config: src/config.ts, the parser of the configuration, over values as the TOML library gives them.
--   Config.Values has the checks of single values.
--   Config.Toml has src/config-toml.ts, src/cli/options.ts and src/mux/route.ts, over the TOML library.
-- LinuxTun: src/vpn/linux-tun.ts, the conflicts of addresses and routes.
-- RuntimeLock: src/runtime/runtime-lock.ts and src/runtime/cleanup.ts, over the calls of the file system.
-- Acceptance: src/vpn/acceptance-diagnostics.ts, the events that an acceptance build reports.
--
-- Bytes are numbers below 256. Streams, clocks and handlers are arguments. The receiving loop runs on
-- fuel, the length of the chunk, since every round takes a byte; Framing.Chunks shows that no byte is
-- left. The search for an address runs as many rounds as the range has numbers, and a text is printed
-- with more rounds than it has digits. The carry loop of `checksum` has three rounds of fuel, and two
-- end it for any sum of 32 bits.
--
-- Text as JSON is outside: `JSON.parse` is a parameter, and a message that is sent is the value that
-- `JSON.stringify` is given.
--
-- Not modelled: of the engine its start and the retries of a dial, of the receiver its control socket
-- and the reading of its file, the helper process of the TUN device and the command
-- line; HyperDHT, the file system, iproute2 and the processes around them, which the code only calls.
pub mod Acceptance
pub mod Common
pub mod Config
pub mod Engine
pub mod Framing
pub mod Invitation
pub mod LinuxTun
pub mod Packet
pub mod PacketFraming
pub mod Pair
pub mod Policy
pub mod Receiver
pub mod ReceiverState
pub mod RuntimeLock
pub mod WorkletBridge
pub mod WorkletFraming
