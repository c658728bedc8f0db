-- ===== src/Signaling/Nostr/Crypto.antt =====
-- mistlib-core/src/signaling/nostr/crypto.rs and crypto/: the padding of a payload, its armor in base64url,
-- and what is sealed between two identities. The curve, the key derivation and the cipher are parameters.
pub mod Padding
pub mod Armor
pub mod Cipher
pub mod Opened
pub mod RoundTrip
