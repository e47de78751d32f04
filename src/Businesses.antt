-- ===== src/Businesses.antt =====
-- src/modules/businesses/businesses.repository.ts. `endAffiliation` stands in
-- Accreditation.Parties, with what it calls.
pub mod Completeness
pub mod Repository
pub mod Affiliations
pub mod Principals
pub mod Editing
pub mod Submission
pub mod Membership
pub mod Endings
