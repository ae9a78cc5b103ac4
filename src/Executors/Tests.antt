-- ===== src/Executors/Tests.antt =====
-- Runs of the executors.
use tiny_solana.Common.{suc, ◌≡◌, ◌≢◌, refl, ◌⊎◌, true, false, [], ◌∷◌}
use tiny_solana.Common.Result.{ok, err}
use tiny_solana.Types.{Pubkey}
use tiny_solana.Accounts.{Account}
use tiny_solana.Transactions.{Instruction}
use tiny_solana.Transactions.Errors.{ProgramError, internal_error}
use tiny_solana.Runtime.{AccountInfo, Machine, push_call}
use tiny_solana.Programs.Ids.{system_program_id, bpf_loader_upgradeable_program_id}
use tiny_solana.Programs.System
use tiny_solana.Programs.System.{SystemInstruction, transfer}
use tiny_solana.Executors.{programs, chained_execute, rbpf_execute, executor}
use tiny_solana.Executors.Depth.{executor_depth}
use tiny_solana.Executors.Calls.{IsProgram, chained_execute_guarded, rbpf_execute_fails}
use tiny_solana.Executors.Samples.{decode_transfer, deps}
use tiny_solana.Samples.{account, info, machine, context, instruction}

abbrev calling : Pubkey → Instruction
calling k = record (instruction []) { program_id = k }

abbrev program_account : Account
program_account = record (account 5 1) {
  owner = bpf_loader_upgradeable_program_id;
  contents = 7 ∷ [];
}

abbrev loaded : Machine
loaded = machine (account 1 100 ∷ program_account ∷ [])

abbrev program_info : AccountInfo
program_info = record (info 5 1 false) { executable = true }

executor_depth_example : executor deps (suc (suc 3)) ≡ executor deps 2
executor_depth_example = executor_depth deps 3

chained_execute_guarded_example :
    ((x : ProgramError) × (chained_execute deps
          (programs deps (executor deps 1))
          (calling 5)
          (context [])
          (program_info ∷ [])
          loaded
        ≡ (err x, loaded)))
    ⊎ (IsProgram deps (executor deps 1) 5 (program_info ∷ []) loaded
        × (chained_execute deps
              (programs deps (executor deps 1))
              (calling 5)
              (context [])
              (program_info ∷ [])
              loaded
            ≡ rbpf_execute deps (calling 5) (context []) (program_info ∷ []) loaded))
chained_execute_guarded_example =
    chained_execute_guarded deps (executor deps 1) (calling 5) (context []) (program_info ∷ [])
      loaded refl

-- The system program takes the data of the token instruction for a transfer of 30 lamports.
process_set_authority_fails :
    (System.entrypoint decode_transfer
      (context (30 ∷ []))
      (info 2 1 false ∷ [])
      (push_call system_program_id loaded)).0
    ≡ err (internal_error "transfer requires 2 accounts")
unfolding System.entrypoint System.process_transfer
process_set_authority_fails = refl

rbpf_execute_fails_example :
    rbpf_execute deps (calling 5) (context []) (program_info ∷ []) loaded ≢ (ok tt, loaded)
rbpf_execute_fails_example =
    rbpf_execute_fails deps (calling 5) (context []) (program_info ∷ []) loaded loaded
