-- ===== src/Db.antt =====
-- The PostgreSQL database as the repositories use it: the authorization context of a transaction
-- (src/db/authorization-context.ts), the rows of the tables, the row-level security policies that
-- the migrations leave in force, and the transaction monad. Timestamps are seconds; a uuid is a
-- number, since uuids are only compared.
pub mod Context
pub mod Schema
pub mod Errors
pub mod Policies
pub mod Transaction
pub mod Inversion
pub mod Ordering
pub mod Keys
