-- ===== src/Bank.antt =====
-- src/bank.rs: the lifecycle of a bank and its processing of one transaction. The account store is
-- shared between banks, so it is an argument of the operations and no field.
pub mod Lifecycle
pub mod Processing
pub mod Blockhashes
pub mod Infos
pub mod Conserved
pub mod Final
mod Tests
