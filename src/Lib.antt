-- ===== src/Lib.antt =====
-- A verification library for mistlib, a peer-to-peer overlay network with storage. It models the core
-- crate, mistlib-core, whose parts work together so: the router numbers, forwards and drops envelopes;
-- the transport admits and schedules its frames; the statistics watch whether the neighbours answer;
-- the signaling client finds peers by relays; and the storage names, sends and evicts blocks.
--
-- The parts and their files, by paths below mistlib-core/src:
--   Types, Messages      types.rs, action.rs, error.rs, overlay/message.rs, signaling/message.rs
--   Util                 util.rs, `TtlCache`, with the admission of the two dedupe caches; what is
--                        proved of it is in Util/Admission (its size), Util/Held (what it keeps) and
--                        Util/Ledger (its answers)
--   Overlay/RoutingTable overlay/routing_table.rs, and `sync_connected_nodes` of overlay/router.rs
--   Overlay/Router       overlay/router: Reorder (reorder.rs), Dedupe (dedupe.rs), Sequence
--                        (`with_next_seq`), Forward (envelope.rs, send.rs, strategies.rs)
--   Stats                stats.rs and stats/ping.rs: the liveness of the neighbours; the counters
--                        of the traffic are in Stats/Traffic
--   Transport            transport/send.rs (LaneQueue, ByteBudget), transport/reliable_unordered.rs
--                        (Capability)
--   Signaling/Nostr      signaling/nostr: Dedupe (dedupe.rs), Session (session.rs), Outbox (outbox.rs),
--                        Discovery (`DiscoveryTable` of identity.rs), Crypto (crypto.rs, crypto/, and
--                        the hexadecimal digits of util.rs)
--   Storage              storage: Cid (cid.rs), Frames (the frames of protocol.rs), Wants
--                        (`WantRegistry` of protocol.rs with the counters of telemetry.rs), Manager
--                        (types.rs), Pins (pin.rs), MetaKeys (meta.rs)
--   Base                 names and lemmas that the other modules share: tests, lists, maps, sets,
--                        ordered maps, machine words
--   Tests                runs at concrete inputs
--
-- A struct is a record with the struct's fields, an enum a data type with its cases, and a method a
-- function from the state to the results and the state after. A mutex that a method holds throughout
-- makes it one step. Instants and durations are numbers of one unit, and a clock that a method reads is
-- its argument. A `HashMap` is an association list whose order stands for the order of iteration; a
-- `BTreeMap` is a list in the order of its keys. Numbers are natural numbers, with the reduction modulo
-- 2 ^ w, or the saturation, written out where the code adds to a word that can overflow. Logging is
-- left out.
--
-- Loops are recursion on the list that they go over. The loop of `evict_oldest_until_below_limit` runs on
-- fuel, one unit for each entry, and removes an entry in every turn but the last; the inner loop of
-- `base32lower_encode` has as much fuel as there are bits; the loop that drains the reorder buffer has as
-- much as there are buffered messages, and the one that drains the bits of `decode_base64url_no_pad` as
-- much as there are bits.
--
-- The receivers of the channels that the registry of wanted blocks sends on are held by others: which of
-- them are closed is an argument of each operation, and what is sent is a list of notices. A panic in it
-- is a result of its own.
--
-- Code that is not of the repository is a parameter: the encoding of envelopes and its inverse
-- (bincode), SHA-256, the encoding of varints, the curve, the key derivation and the cipher of the
-- signaling, random numbers, and the parser of JSON. So are the strategies, which the router only calls,
-- and the transport's admission. Not modelled: floating-point code (round-trip times, spatial
-- eviction, pacing, density), the runtime's tasks and channels, the native and the browser transports,
-- signatures, the storage's asynchronous engine and configuration.
pub mod Base
pub mod Messages
pub mod Overlay
pub mod Signaling
pub mod Stats
pub mod Storage
pub mod Tests
pub mod Transport
pub mod Types
pub mod Util
