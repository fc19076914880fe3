-- ===== src/Examples.antt =====
-- Runs on concrete inputs.
mod Queues
mod Store
mod Disk
mod Figures
mod Tables
mod Reviews
mod Searches
