-- ===== src/Creator.antt =====
-- internal/creator: the creators that are tracked, from requests and from a file.
pub mod Service
pub mod Syncer
