-- ===== src/Signaling.antt =====
-- mistlib-core/src/signaling.
pub mod Nostr
