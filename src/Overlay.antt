-- ===== src/Overlay.antt =====
-- mistlib-core/src/overlay.
pub mod RoutingTable
pub mod Router
