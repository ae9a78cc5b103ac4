-- ===== src/Transactions/Errors.antt =====
-- The error enumerations of src/transactions.rs, src/runtime.rs and src/accounts.rs.
use Prim.Native.String.{String, ◌++◌}
use tiny_solana.Common.{ℕ, Bool, true, false}
use tiny_solana.Types.{Pubkey}

-- `accounts::AccountError`
pub data AccountError : Type 0 where
  not_found : Pubkey → AccountError

-- `runtime::ProgramError`
pub data ProgramError : Type 0 where
  account_not_found : Pubkey → ProgramError
  invalid_instruction_data insufficient_funds not_enough_account_keys : ProgramError
  missing_required_signature readonly_account_written account_not_executable : ProgramError
  account_owner_mismatch invalid_account_data account_borrow_failed invalid_argument : ProgramError
  custom : ℕ → ProgramError
  internal_error : String → ProgramError

-- `transactions::TransactionError`
pub data TransactionError : Type 0 where
  invalid_signature : TransactionError
  account_error : AccountError → TransactionError
  program_error : ProgramError → TransactionError
  blockhash_not_found blockhash_expired account_in_use : TransactionError
  would_exceed_max_block_cost_limit : TransactionError

-- `TransactionError::is_retryable`
unfoldable pub is_retryable : TransactionError → Bool
is_retryable account_in_use = true
is_retryable would_exceed_max_block_cost_limit = true
is_retryable _ = false

-- `Display for TransactionError`; the derived `Debug` of the inner errors is a parameter.
unfoldable pub error_text :
    (AccountError → String) → (ProgramError → String) → TransactionError → String
error_text account program invalid_signature = "invalid signature"
error_text account program (account_error e) = "account error: " ++ account e
error_text account program (program_error e) = "program error: " ++ program e
error_text account program blockhash_not_found = "blockhash not found"
error_text account program blockhash_expired = "blockhash has expired"
error_text account program account_in_use = "account is in use"
error_text account program would_exceed_max_block_cost_limit =
    "transaction would exceed max block cost limit"
