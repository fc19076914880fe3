-- ===== src/Discovery.antt =====
-- internal/discovery.
pub mod Scorer
pub mod Service
pub mod Keywords
