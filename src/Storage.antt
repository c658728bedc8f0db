-- ===== src/Storage.antt =====
-- mistlib-core/src/storage: content identifiers, the frames of the storage protocol, and the index of
-- the stored blocks.
pub mod Cid
pub mod Frames
pub mod Manager
pub mod Wants
pub mod Pins
pub mod MetaKeys
