-- ===== src/Banking.antt =====
-- src/banking_stage.rs with src/tx_recorder.rs and src/committer.rs.
pub mod Recorder
pub mod Committer
mod Tests
pub mod Stage
