-- ===== src/Sync.antt =====
-- The sync protocol (routers/api/sync).
pub mod EntityType
pub mod RequestType
pub mod Ack
pub mod Entities
pub mod Fields
pub mod Convert
pub mod Deletes
pub mod Fk
pub mod Fetch
pub mod Overrides
pub mod Stream
pub mod DeleteBuffer
pub mod Generate
pub mod Routes
