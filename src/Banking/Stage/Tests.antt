-- ===== src/Banking/Stage/Tests.antt =====
-- A batch of three transactions, the first two of which share an account.
use tiny_solana.Common.{◌≡◌, ◌⊎◌, get_elem?, refl, none, some, ◌+◌, true, [], ◌∷◌, arith}
use tiny_solana.Common.Result.{Result, ok, err, panic}
use tiny_solana.Common.KeyMap.{KeyMap}
use tiny_solana.Accounts.{Account}
use tiny_solana.Accounts.Store.{in_memory}
use tiny_solana.Transactions.{Transaction}
use tiny_solana.Transactions.Errors.{
  TransactionError, program_error, insufficient_funds, invalid_signature,
}
use tiny_solana.Runtime.{lamports, set_lamports, ◌>>=◌, raise, Executor}
use tiny_solana.AccountLocks.{new}
use tiny_solana.CostModel.{
  would_fit, calculate_cost, sum, new_model, new_tracker, max_block_units,
  max_writable_account_units,
}
use tiny_solana.Bank.Lifecycle as Lifecycle
use tiny_solana.Bank.Lifecycle.{acquire_freeze_lock}
use tiny_solana.Bank.Processing.{
  check_preflight_rules, prepare_account_infos, prepare_metas, process_single_transaction,
  load_and_verify_accounts, execute_instructions,
}
use tiny_solana.Banking.Stage.Single.{recorded}
use tiny_solana.Banking.Stage.Outcome.{process_batch_single, process_batch_fails}
use tiny_solana.Accounts.Overlay
use tiny_solana.Accounts.Overlay.{OverlayStore, write_back}
use tiny_solana.Banking.Stage.{Stage, StageError}
use tiny_solana.Banking.Stage.Batch.{process_batch, verify_all}
use tiny_solana.Banking.Stage.Invalid.{process_batch-invalid}
use tiny_solana.Banking.Stage.Loops.{HoldSame}
use tiny_solana.Banking.Stage.Released.{process_batch-HoldSame}
use tiny_solana.Samples.{transaction, account, pay, look, idle, toy_digest}

-- A program that pays one lamport to its first account; it fails without accounts.
abbrev faucet : Executor
faucet instruction context [] = raise insufficient_funds
faucet instruction context (info ∷ _) = do n ← lamports info; set_lamports info (n + 1)

abbrev stage : Stage (KeyMap Account)
stage = record {
  locks = new;
  tracker = new_tracker max_block_units max_writable_account_units;
  tx_sender = record { connected = true; sent = [] };
  poh_record_sender = record { connected = true; sent = [] };
  bank = Lifecycle.new;
  accounts = (1, account 1 10) ∷ [];
  program_cache = [];
  final_results = [];
}

-- Signatures are valid unless there is none.
abbrev signed : Transaction → Result TransactionError (Unit {0})
signed tx = elim tx.signatures [ [] ↦ err invalid_signature | _ ∷ _ ↦ ok tt ]

process_batch-HoldSame_example :
    HoldSame stage
      (process_batch faucet toy_digest in_memory signed new_model (pay ∷ look ∷ idle ∷ []) stage).1
process_batch-HoldSame_example =
    process_batch-HoldSame faucet toy_digest in_memory signed new_model (pay ∷ look ∷ idle ∷ [])
      stage (record { counted = λ k. tt; readers = λ k. omega arith; freezers = omega arith })

-- A transaction without a signature, between two that are signed.
abbrev unsigned : Transaction
unsigned = record pay { signatures = [] }

all_checked :
    verify_all faucet toy_digest in_memory signed (pay ∷ unsigned ∷ idle ∷ [])
    ≡ some (ok tt ∷ err invalid_signature ∷ ok tt ∷ [])
unfolding verify_all
all_checked = refl

process_batch-invalid_example :
    let r =
      process_batch faucet toy_digest in_memory signed new_model
        (pay ∷ unsigned ∷ idle ∷ [])
        stage in
    (get_elem? r.1.final_results 1 ≡ some (some invalid_signature))
    × ((r.0 ≡ ok r.1.final_results) ⊎ (((x : StageError) × (r.0 ≡ err x)) ⊎ (r.0 ≡ panic)))
process_batch-invalid_example =
    process_batch-invalid faucet toy_digest in_memory signed new_model (pay ∷ unsigned ∷ idle ∷ [])
      stage 1 unsigned invalid_signature (ok tt ∷ err invalid_signature ∷ ok tt ∷ []) all_checked
      refl refl

-- A transaction whose only instruction names no account, which the program refuses.
abbrev refused : Transaction
refused = transaction [] []

fits : would_fit stage.tracker (calculate_cost new_model refused) ≡ ok tt
unfolding would_fit calculate_cost sum
fits = refl

refused_runs :
    process_single_transaction faucet in_memory
      (acquire_freeze_lock stage.bank)
      refused
      (sum (calculate_cost new_model refused))
      []
      stage.accounts
    ≡ (err (program_error insufficient_funds), [])
unfolding acquire_freeze_lock process_single_transaction check_preflight_rules
    load_and_verify_accounts execute_instructions prepare_account_infos prepare_metas
refused_runs = refl

process_batch_fails_example :
    let r = process_batch faucet toy_digest in_memory signed new_model (refused ∷ []) stage in
    (r.0 ≡ ok (some (program_error insufficient_funds) ∷ []))
    × (r.1.accounts ≡ stage.accounts)
    × (r.1.poh_record_sender ≡ recorded toy_digest 77 stage.poh_record_sender)
    × (r.1.tx_sender ≡ stage.tx_sender)
process_batch_fails_example =
    process_batch_fails faucet toy_digest in_memory signed new_model refused stage [] 77 []
      (program_error insufficient_funds) refl fits refl refl refl refused_runs

pay_fits : would_fit stage.tracker (calculate_cost new_model pay) ≡ ok tt
unfolding would_fit calculate_cost sum
pay_fits = refl

abbrev paid : OverlayStore (KeyMap Account)
paid = record {
  dirty = (1, account 1 11) ∷ (2, record (account 2 0) { owner = 0 }) ∷ [];
  parent = stage.accounts;
}

pay_runs :
    process_single_transaction faucet in_memory
      (acquire_freeze_lock stage.bank)
      pay
      (sum (calculate_cost new_model pay))
      []
      stage.accounts
    ≡ (ok paid, [])
unfolding acquire_freeze_lock process_single_transaction check_preflight_rules
    load_and_verify_accounts execute_instructions prepare_account_infos prepare_metas Overlay.load
pay_runs = refl

pay_written : write_back in_memory paid.dirty stage.accounts ≡ some paid.dirty
unfolding write_back
pay_written = refl

pay_batch :
    let r = process_batch faucet toy_digest in_memory signed new_model (pay ∷ []) stage in
    (r.0 ≡ ok (none ∷ []))
    × (r.1.accounts ≡ paid.dirty)
    × (r.1.poh_record_sender ≡ recorded toy_digest 77 stage.poh_record_sender)
    × (r.1.tx_sender ≡ stage.tx_sender)
pay_batch =
    process_batch_single faucet toy_digest in_memory signed new_model pay stage [] 77 [] paid
      paid.dirty refl pay_fits refl refl refl pay_runs pay_written
