-- ===== src/Tests.antt =====
-- Concrete runs of the operations, and the theorems at concrete inputs.
mod Reorder
mod Router
mod Links
mod Storage
mod Wants
mod Nostr
