-- ===== src/Overlay/Router/Reorder.antt =====
-- mistlib-core/src/overlay/router/reorder.rs, by what is proved of it.
pub mod Defs
pub mod Invariant
pub mod Order
pub mod Stream
pub mod Lossless
pub mod Sources
pub mod Wrap
