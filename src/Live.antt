-- ===== src/Live.antt =====
-- internal/live: the in-process event stream.
pub mod Broker
