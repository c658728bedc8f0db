-- ===== src/Signaling/Nostr.antt =====
-- mistlib-core/src/signaling/nostr.
pub mod Dedupe
pub mod Session
pub mod Outbox
pub mod Discovery
pub mod Crypto
