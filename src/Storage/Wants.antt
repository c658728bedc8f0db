-- ===== src/Storage/Wants.antt =====
-- `WantRegistry` of mistlib-core/src/storage/protocol.rs: the blocks that a node has asked for, and the
-- chunks that came in for them.
pub mod Order
pub mod State
pub mod Registry
pub mod Requests
pub mod Peers
pub mod Api
pub mod Counts
pub mod Assembly
pub mod Limits
pub mod Admitted
pub mod Chunks
pub mod Runs
pub mod Kept
pub mod Asked
pub mod Parts
pub mod Stored
pub mod Backed
pub mod Honest
