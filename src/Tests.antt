-- ===== src/Tests.antt =====
-- Concrete stores, codecs and caches, and the theorems of the library applied to them.
pub mod Store
pub mod Codec
pub mod Paths
pub mod Trees
pub mod Bands
pub mod Blocks
pub mod Files
pub mod Shelf
pub mod Archive
pub mod Reads
pub mod Backups
pub mod Copies
pub mod Sessions
