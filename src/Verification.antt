-- ===== src/Verification.antt =====
-- src/modules/verification: the results of the checks on brokers and businesses.
pub mod CheckResults
pub mod Current
