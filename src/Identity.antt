-- ===== src/Identity.antt =====
-- src/modules/identity/identity.repository.ts: accounts, passwords and sessions.
pub mod Crypto
pub mod Accounts
pub mod SignIn
pub mod Sessions
pub mod Passwords
pub mod Mfa
pub mod Revocation
pub mod Operations
pub mod Spent
pub mod Rotation
pub mod Replacement
pub mod Resets
pub mod SingleUse
pub mod Hashes
pub mod RoundTrips
pub mod Recovery
pub mod SignOut
pub mod BackupCodes
