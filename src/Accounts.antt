-- ===== src/Accounts.antt =====
-- The account record of src/accounts.rs.
pub mod Store
pub mod Overlay
pub mod Merkle
pub mod RocksDb
mod DbTests
mod Tests
use tiny_solana.Common.{ℕ, Bool, false, []}
use tiny_solana.Types.{Pubkey, Bytes}

pub record Account : Type 0 where
  pub pubkey : Pubkey
  pub lamports : ℕ
  pub contents : Bytes
  pub owner : Pubkey
  pub executable : Bool
  pub rent_epoch : ℕ

-- `Account::default()`
abbrev pub default_account : Account
default_account = record {
  pubkey = 0;
  lamports = 0;
  contents = [];
  owner = 0;
  executable = false;
  rent_epoch = 0;
}
