-- ===== src/Notifications.antt =====
-- src/modules/notifications: what is written to whom, in the transaction of the change that it is
-- about.
pub mod Templates
pub mod Repository
pub mod Effects
pub mod Mandatory
pub mod Reads
