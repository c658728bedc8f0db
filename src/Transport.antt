-- ===== src/Transport.antt =====
-- mistlib-core/src/transport.
pub mod LaneQueue
pub mod ByteBudget
pub mod Capability
