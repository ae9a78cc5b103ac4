-- ===== src/Transactions.antt =====
-- The data of src/transactions.rs and the error types that a transaction can end with.
pub mod Errors
pub mod Metas
pub mod Verify
mod Tests
use tiny_solana.Common.{ℕ, Bool, true, false, List}
use tiny_solana.Types.{Pubkey, Hash, Signature, Bytes}

pub record AccountMeta : Type 0 where
  pub pubkey : Pubkey
  pub is_signer : Bool
  pub is_writable : Bool

pub record Instruction : Type 0 where
  pub program_id : Pubkey
  pub accounts : List AccountMeta
  pub payload : Bytes

pub record Message : Type 0 where
  pub account_keys : List Pubkey
  pub recent_blockhash : Hash
  pub instructions : List Instruction

pub record Transaction : Type 0 where
  pub signatures : List Signature
  pub message : Message
