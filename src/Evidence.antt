-- ===== src/Evidence.antt =====
-- src/modules/evidence: the documents that a broker or a business is asked for.
pub mod Catalogue
pub mod Coverage
