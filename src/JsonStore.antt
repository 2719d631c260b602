-- ===== src/JsonStore.antt =====
-- The storage package: internal/storage/jsonstore.
pub mod Model
pub mod Commit
pub mod Recovery
pub mod Reads
pub mod Lines
pub mod Files
