-- ===== src/Relationships.antt =====
-- src/modules/relationships: the relationships under which brokers share their data.
pub mod Repository
pub mod Operations
pub mod Billing
pub mod Sharing
