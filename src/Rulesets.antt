-- ===== src/Rulesets.antt =====
-- src/modules/rulesets: versioned requirement sets as data, their validation at publication, and
-- the evaluation of a definition against the facts of a broker.
pub mod Types
pub mod Evaluator
pub mod Outstanding
pub mod Validation
pub mod Repository
pub mod Publication
