-- ===== src/Worker.antt =====
-- internal/worker: the handler of the jobs, its rate limiter and its storage policy.
pub mod Limiter
pub mod Handler
pub mod Policy
pub mod Waiting
pub mod Usage
pub mod Snapshot
pub mod Publishing
pub mod Ranking
pub mod Deletion
pub mod Cleanup
pub mod Download
pub mod Check
pub mod Fetch
