-- ===== src/Brokers.antt =====
-- src/modules/brokers.
pub mod Reconstruction
pub mod Replay
pub mod Completeness
pub mod Profiles
pub mod Memberships
pub mod Submission
pub mod Requirements
