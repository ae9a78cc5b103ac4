-- ===== src/Client/Executed.antt =====
-- The instruction of the client's transaction, run by the system program.
use tiny_solana.Common.{
  ℕ, suc, ◌-◌, ◌≤◌, ◌≡◌, refl, ap, ◌∙◌, true, false, some, List, [], ◌∷◌, arith, ◌==◌,
}
use tiny_solana.Common.Result.{Result, ok, err, panic}
use tiny_solana.Common.Word.{saturating_add}
use tiny_solana.Common.KeyMap.{KeyMap}
use tiny_solana.Types.{Pubkey, Bytes}
use tiny_solana.Accounts.{Account}
use tiny_solana.Transactions.{Instruction}
use tiny_solana.Transactions.Errors.{TransactionError}
use tiny_solana.Programs.Ids.{system_program_id}
use tiny_solana.Programs.System.{SystemInstruction, transfer, move_lamports, process_transfer}
use tiny_solana.Programs.System
use tiny_solana.Runtime.{AccountInfo, Executor, Machine}
use tiny_solana.Executors.{ExecutorDeps, executor}
use tiny_solana.Executors.Depth.{chained_execute-system}
use tiny_solana.Bank.Processing.{
  position, info_of, prepare_metas, prepare_account_infos, context_of, fresh, start_machine,
  run_with, execute_instructions,
}
use tiny_solana.Client.{writable_meta}

abbrev pub transfer_instruction : Pubkey → Pubkey → Bytes → Instruction
transfer_instruction from to payload = record {
  program_id = system_program_id;
  accounts = writable_meta from true ∷ writable_meta to false ∷ [];
  payload = payload;
}

abbrev transfer_infos : Pubkey → Pubkey → Account → Account → List AccountInfo
transfer_infos from to a b =
    info_of (writable_meta from true) 0 a ∷ info_of (writable_meta to false) 1 b ∷ []

at_from : (from to : Pubkey) → position from (from ∷ to ∷ system_program_id ∷ []) ≡ some 0
at_from from to = ground arith

at_to :
    (from to : Pubkey)
    → (from == to) ≡ false
    → position to (from ∷ to ∷ system_program_id ∷ []) ≡ some 1
at_to from to ne = ground arith

prepare_transfer :
    (from to : Pubkey) (a b c : Account) (payload : Bytes)
    → (from == to) ≡ false
    → prepare_account_infos
        (from ∷ to ∷ system_program_id ∷ [])
        (a ∷ b ∷ c ∷ [])
        (transfer_instruction from to payload)
      ≡ ok (transfer_infos from to a b)
unfolding prepare_account_infos prepare_metas
prepare_transfer from to a b c payload ne = rw (at_from from to, at_to from to ne) refl

-- The payer and the receiver after the transfer.
abbrev pub less : ℕ → Account → Account
less n a = record a { lamports = a.lamports - n }

abbrev pub more : ℕ → Account → Account
more n b = record b { lamports = saturating_add b.lamports n }

transfer_cells :
    (from to : Pubkey) (n : ℕ) (a b c : Account) (cache : KeyMap Bytes)
    → n ≤ a.lamports
    → process_transfer n (transfer_infos from to a b) (start_machine (a ∷ b ∷ c ∷ []) cache)
      ≡ (ok tt, start_machine (less n a ∷ more n b ∷ c ∷ []) cache)
unfolding process_transfer move_lamports
transfer_cells from to n a b c cache h = ground arith

-- A transaction of one instruction.
execute_one :
    (execute : Executor) (keys : List Pubkey) (ix : Instruction) (budget : ℕ) (m m' : Machine)
    (infos : List AccountInfo)
    → prepare_account_infos keys m.cells ix ≡ ok infos
    → execute ix (context_of ix budget) infos (fresh m) ≡ (ok tt, m')
    → execute_instructions execute keys (ix ∷ []) budget m ≡ (ok tt, m')
unfolding execute_instructions
execute_one execute keys ix budget m m' infos e run =
    let step : run_with execute ix budget m (prepare_account_infos keys m.cells ix) ≡ (ok tt, m') =
      rw e (rw run refl) in
    ap
      (λ (p : Result TransactionError (Unit {0}) × Machine).
        elim p.0 as (λ _. Result TransactionError (Unit {0}) × Machine) [
          | ok _ ↦ (ok tt, p.1)
          | err x ↦ (err x, p.1)
          | panic ↦ (panic, p.1)
        ])
      step

module _ {Rent Executable : Type 0} (deps : ExecutorDeps Rent Executable) where
  pub execute_transfer :
      (depth budget n : ℕ) (from to : Pubkey) (a b c : Account) (payload : Bytes)
      (cache : KeyMap Bytes)
      → deps.decode_system payload ≡ some (transfer n)
      → (from == to) ≡ false
      → n ≤ a.lamports
      → execute_instructions
          (executor deps (suc depth))
          (from ∷ to ∷ system_program_id ∷ [])
          (transfer_instruction from to payload ∷ [])
          budget
          (start_machine (a ∷ b ∷ c ∷ []) cache)
        ≡ (ok tt, start_machine (less n a ∷ more n b ∷ c ∷ []) cache)
  unfolding executor System.entrypoint
  execute_transfer depth budget n from to a b c payload cache d ne h =
      let ix = transfer_instruction from to payload in
      let m = start_machine (a ∷ b ∷ c ∷ []) cache in
      let infos = transfer_infos from to a b in
      execute_one (executor deps (suc depth)) _ ix budget m _ infos
        (prepare_transfer from to a b c payload ne)
        (chained_execute-system deps (executor deps depth) ix (context_of ix budget) infos m refl
          ∙ rw d (transfer_cells from to n a b c cache h))
