-- ===== src/Library.antt =====
-- internal/library: the projection of the store into a browsable directory tree.
pub mod Path
pub mod Names
pub mod Payload
pub mod Syncer
pub mod Exporter
pub mod Projector
