-- ===== src/Tests.antt =====
-- The theorems at concrete inputs.
pub mod Sample
mod Accreditation
mod Parts
mod Requests
mod Accounts
mod Sessions
mod Businesses
mod Passwords
mod Profiles
