-- ===== src/Repo.antt =====
-- internal/repo and internal/repo/mysql: the records, and the tables behind the repositories.
pub mod Payload
pub mod Models
pub mod Videos
pub mod VideoFiles
pub mod Creators
pub mod Listing
pub mod Candidates
pub mod CandidateDetails
