-- ===== src/Sync.antt =====
-- Gossip sync (src/sync/mod.rs): what the room said, offered again to those who missed it.
pub mod RateLimit
pub mod Budget
pub mod PacketId
pub mod Archive
pub mod Stores
pub mod History
pub mod TypeFlags
pub mod Request
pub mod Gcs
pub mod TypeSets
pub mod Codec
pub mod Responder
pub mod Bits
pub mod Reader
pub mod Reading
pub mod Filter
pub mod Decoded
pub mod Sorted
pub mod Members
pub mod Replies
