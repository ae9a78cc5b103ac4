-- ===== src/Rpc.antt =====
-- src/rpc: the server that hands transactions to the banking stage and answers for the bank.
pub mod Json
pub mod Handlers
pub mod Server
pub mod Wire
pub mod Sent
pub mod Samples
mod Tests
