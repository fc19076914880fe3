-- ===== src/Jobs.antt =====
-- The jobs table and the pool of workers that take jobs from it.
pub mod Table
pub mod Pool
pub mod Enqueue
pub mod Service
