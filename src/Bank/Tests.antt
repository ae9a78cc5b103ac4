-- ===== src/Bank/Tests.antt =====
-- Runs of the bank.
use tiny_solana.Accounts.{Account}
use tiny_solana.Accounts.Overlay.{OverlayStore}
use tiny_solana.Accounts.Store.{in_memory}
use tiny_solana.Bank.Blockhashes.{initial, next, locked, check_preflight_rules-Reach}
use tiny_solana.Bank.Conserved.{system_executor, execute_instructions_system-total}
use tiny_solana.Bank.Infos.{prepare_account_infos-Describe, Describe, AreWritableOnce}
use tiny_solana.Bank.Lifecycle.{Bank, new, acquire_freeze_lock}
use tiny_solana.Bank.Processing.{
  check_preflight_rules, prepare_account_infos, prepare_metas, process_single_transaction,
  load_and_verify_accounts, execute_instructions,
}
use tiny_solana.Common.{
  arith, Option, none, ◌≡◌, ◌≤◌, refl, true, false, List, [], ◌∷◌, length, some,
}
use tiny_solana.Common.KeyMap.{KeyMap}
use tiny_solana.Common.Result.{Result, ok, err, panic}
use tiny_solana.Programs.System.{SystemInstruction, transfer, process_transfer, move_lamports}
use tiny_solana.Runtime.{AccountInfo, Executor}
use tiny_solana.Runtime.Cells.{total}
use tiny_solana.Samples.{machine, account, pay, instruction, readable, writable, info, transaction}
use tiny_solana.Transactions.{Instruction}
use tiny_solana.Transactions.Errors.{TransactionError}
use tiny_solana.Types.{Bytes}
use tiny_solana.Accounts.Overlay

abbrev locked_bank : Bank
locked_bank = acquire_freeze_lock new

check_preflight_rules-Reach_example :
    (check_preflight_rules locked_bank pay ≡ ok tt) × (length locked_bank.blockhash_queue ≤ 150)
unfolding acquire_freeze_lock
check_preflight_rules-Reach_example = check_preflight_rules-Reach pay (next initial (locked refl))

abbrev paying : List AccountInfo
paying = info 2 1 true ∷ record (info 1 0 false) { is_writable = false } ∷ []

prepared :
    prepare_account_infos
      (1 ∷ 2 ∷ [])
      (account 1 10 ∷ account 2 20 ∷ [])
      (instruction (writable 2 ∷ readable 1 ∷ []))
    ≡ ok paying
unfolding prepare_account_infos prepare_metas
prepared = refl

prepare_account_infos-Describe_example :
    Describe (1 ∷ 2 ∷ []) (account 1 10 ∷ account 2 20 ∷ []) (writable 2 ∷ readable 1 ∷ []) paying
    × AreWritableOnce paying
prepare_account_infos-Describe_example =
    prepare_account_infos-Describe (1 ∷ 2 ∷ []) (account 1 10 ∷ account 2 20 ∷ [])
      (instruction (writable 2 ∷ readable 1 ∷ [])) paying prepared

-- A program that pays 5 lamports from its first account to its second.
abbrev payer : Executor
payer ix ctx infos = process_transfer 5 infos

abbrev funds : KeyMap Account
funds = (1, account 1 10) ∷ (2, account 2 20) ∷ []

abbrev stored : Result TransactionError (OverlayStore (KeyMap Account)) → KeyMap Account
stored (ok o) = o.dirty
stored (err e) = []
stored panic = []

-- The payer's account comes out reduced.
pays :
    stored (process_single_transaction payer in_memory new pay 1000 [] funds).0
    ≡ (1, account 1 5) ∷ (2, account 2 25) ∷ []
unfolding process_single_transaction check_preflight_rules load_and_verify_accounts
    execute_instructions prepare_account_infos prepare_metas process_transfer move_lamports
    Overlay.load
pays = refl

-- Where the transaction lists the payer's key twice, the payer's old account is stored over it.
pays_twice_listed :
    stored
      (process_single_transaction payer in_memory new
        (transaction (1 ∷ 2 ∷ 1 ∷ []) (writable 1 ∷ writable 2 ∷ []))
        1000
        []
        funds).0
    ≡ (1, account 1 10) ∷ (2, account 2 25) ∷ []
unfolding process_single_transaction check_preflight_rules load_and_verify_accounts
    execute_instructions prepare_account_infos prepare_metas process_transfer move_lamports
    Overlay.load
pays_twice_listed = refl

-- One byte of instruction data is a transfer of that many lamports.
abbrev decode_transfer : Bytes → Option SystemInstruction
decode_transfer [] = none
decode_transfer (n ∷ _) = some (transfer n)

-- Two transfers of 5 lamports, from account 1 to account 2 and back.
abbrev there_and_back : List Instruction
there_and_back =
    instruction (writable 1 ∷ writable 2 ∷ []) ∷ instruction (writable 2 ∷ writable 1 ∷ []) ∷ []

execute_instructions_system-total_example :
    total
      (execute_instructions
        (system_executor decode_transfer)
        (1 ∷ 2 ∷ [])
        there_and_back
        1000
        (machine (account 1 10 ∷ account 2 20 ∷ []))).1.cells
    ≡ 30
execute_instructions_system-total_example =
    execute_instructions_system-total decode_transfer (1 ∷ 2 ∷ []) there_and_back 1000
      (machine (account 1 10 ∷ account 2 20 ∷ [])) (omega arith)
