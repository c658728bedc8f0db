-- ===== src/Overlay/Router.antt =====
-- mistlib-core/src/overlay/router.rs and its children.
pub mod Reorder
pub mod Dedupe
pub mod Sequence
pub mod Forward
