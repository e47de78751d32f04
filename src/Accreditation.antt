-- ===== src/Accreditation.antt =====
-- src/modules/accreditation: the four-party accreditation record, the lender's review of it, and
-- the training that follows an approval.
pub mod Guards
pub mod Decisions
pub mod Reads
pub mod Requests
pub mod Parties
pub mod Training
pub mod Rows
pub mod Effects
pub mod History
pub mod Changes
pub mod Arrivals
pub mod Activation
pub mod Sweeps
pub mod Operations
pub mod Transitions
pub mod Laws
pub mod Leavers
pub mod Refinement
pub mod Steps
pub mod Invariant
pub mod Terminal
pub mod Isolation
pub mod Authority
pub mod Admission
pub mod Outcomes
