-- ===== src/Executors.antt =====
-- The executors of src/runtime.rs: the table of native programs, the VM for other programs, and the
-- chain of both, which calls itself through `invoke`. The VM is a parameter.
pub mod Depth
pub mod Calls
pub mod Samples
mod Tests
use Prim.Native.String.{String, ◌++◌}
use tiny_solana.Common.{
  ℕ, zero, suc, ◌%◌, ◌^◌, ◌≡◌, Bool, true, false, not, Option, none, some, List, [], ◌∷◌, ◌==◌,
  if◌then◌else◌,
}
use tiny_solana.Common.Result.{Result, ok, err, panic}
use tiny_solana.Common.KeyMap
use tiny_solana.Common.KeyMap.{KeyMap}
use tiny_solana.Types.{Pubkey, Bytes}
use tiny_solana.Transactions.{Instruction}
use tiny_solana.Transactions.Errors.{
  ProgramError, account_not_found, account_not_executable, account_owner_mismatch, internal_error,
  custom,
}
use tiny_solana.Runtime.{
  AccountInfo, InvokeContext, Machine, Action, Executor, pure, raise, abort, ◌>>=◌, ◌>>◌, raise_if,
  or_raise, or_abort, lift, borrow_data, owner, consume, get_remaining,
}
use tiny_solana.Runtime.Memory.{serialize_parameters}
use tiny_solana.Runtime.Memory.Read.{deserialize_parameters}
use tiny_solana.Programs.Ids.{
  system_program_id, token_program_id, bpf_loader_upgradeable_program_id,
}
use tiny_solana.Programs.System
use tiny_solana.Programs.System.{SystemInstruction}
use tiny_solana.Programs.Token
use tiny_solana.Programs.Token.{TokenDeps}
use tiny_solana.Programs.Loader
use tiny_solana.Programs.Loader.{LoaderDeps}

-- What the VM hands back: its `ProgramResult`, the instructions it ran, and the input memory.
pub data ProgramResult : Type 0 where
  returned : (code : ℕ) → ProgramResult
  failed : (message : String) → ProgramResult

pub record VmOutcome : Type 0 where
  pub instruction_count : ℕ
  pub program_result : ProgramResult
  pub input_mem : Bytes

-- What the executors take from bincode, solana_program and solana_rbpf. `from_elf` and `verify` give
-- the text of their error, and `execute_program` may log, panic and use the context.
pub record ExecutorDeps (Rent Executable : Type 0) : Type 0 where
  pub decode_system : Bytes → Option SystemInstruction
  pub token : TokenDeps Rent
  pub loader : LoaderDeps Rent
  pub from_elf : Bytes → Result String Executable
  pub verify : Executable → Result String (Unit {0})
  pub map_memory : Bytes → Result String (Unit {0})
  pub execute_program : Executable → Bytes → InvokeContext → Action VmOutcome

-- `ProgramEntrypoint`
abbrev pub ProgramEntrypoint : Type 0
ProgramEntrypoint = InvokeContext → List AccountInfo → Action (Unit {0})

-- `map_err(|e| ProgramError::InternalError(format!("…{}", e)))?`
abbrev pub or_internal : {A : Type 0} → String → Result String A → Action A
or_internal what (ok a) = pure a
or_internal what (err message) = raise (internal_error (what ++ message))
or_internal what panic = abort

-- `accounts.iter().find(|a| a.pubkey == program_id)`
abbrev pub find_account : Pubkey → List AccountInfo → Option AccountInfo
find_account k [] = none
find_account k (info ∷ infos) =
    let rest = find_account k infos in if info.pubkey == k then some info else rest

module _ {Rent Executable : Type 0} (deps : ExecutorDeps Rent Executable) where
  -- `NativeProgramExecutor::new`; a program calls others through the executor.
  abbrev pub programs : Executor → KeyMap ProgramEntrypoint
  programs execute =
      KeyMap.insert bpf_loader_upgradeable_program_id (Loader.entrypoint deps.loader execute) (
        KeyMap.insert token_program_id (Token.entrypoint deps.token execute)
          (KeyMap.insert system_program_id (System.entrypoint deps.decode_system) []))

  -- `NativeProgramExecutor::execute`
  abbrev pub run_entrypoint : Option ProgramEntrypoint → Executor
  run_entrypoint none instruction ctx accounts = raise (account_not_found instruction.program_id)
  run_entrypoint (some program_entrypoint) instruction ctx accounts =
      program_entrypoint ctx accounts

  unfoldable pub native_execute : KeyMap ProgramEntrypoint → Executor
  native_execute table instruction ctx accounts =
      run_entrypoint (KeyMap.lookup instruction.program_id table) instruction ctx accounts

  -- The bytecode of the program, which is put into the cache first if it is not there.
  unfoldable pub load_bytecode : Pubkey → List AccountInfo → Action Bytes
  load_bytecode program_id accounts m = elim (KeyMap.lookup program_id m.program_cache) [
    | some bytecode ↦ (ok bytecode, m)
    | none ↦
        (do
          info ←
              or_raise (find_account program_id accounts)
                (internal_error "program account not found in accounts list")
          raise_if (not info.executable) account_not_executable
          bytecode ← borrow_data info
          λ s. (
            ok bytecode,
            record s { program_cache = KeyMap.insert program_id bytecode s.program_cache },
          ))
          m
  ]

  abbrev pub result_code : ProgramResult → Action ℕ
  result_code (returned code) = pure code
  result_code (failed message) = raise (internal_error ("ebpf error: " ++ message))

  -- What follows a run of the VM.
  unfoldable pub finish_run : InvokeContext → List AccountInfo → VmOutcome → Action (Unit {0})
  finish_run ctx accounts outcome = do
    code ← result_code outcome.program_result
    raise_if (not (code == 0)) (custom (code % 2 ^ 32))
    consume outcome.instruction_count
    (λ m. raise_if (get_remaining ctx m == 0) (internal_error "computational budget exceeded") m)
    deserialize_parameters accounts outcome.input_mem

  -- `RbpfProgramExecutor::execute`
  unfoldable pub rbpf_execute : Executor
  rbpf_execute instruction ctx accounts = do
    bytecode ← load_bytecode instruction.program_id accounts
    executable ← or_internal "failed to load elf: " (deps.from_elf bytecode)
    or_internal "elf verification failed: " (deps.verify executable)
    input_mem ← λ m. lift (serialize_parameters m.cells accounts instruction.payload) m
    or_internal "memory mapping: " (deps.map_memory input_mem)
    outcome ← deps.execute_program executable input_mem ctx
    finish_run ctx accounts outcome

  -- `ChainedProgramExecutor::execute`
  unfoldable pub chained_execute : KeyMap ProgramEntrypoint → Executor
  chained_execute table instruction ctx accounts =
      if KeyMap.contains_key instruction.program_id table
      then native_execute table instruction ctx accounts
      else (do
        info ←
            or_raise (find_account instruction.program_id accounts)
              (account_not_found instruction.program_id)
        raise_if (not info.executable) account_not_executable
        k ← owner info
        raise_if (not (k == bpf_loader_upgradeable_program_id)) account_owner_mismatch
        rbpf_execute instruction ctx accounts)

  -- The executor that the bank holds, cut off at a depth of calls.
  unfoldable pub executor : ℕ → Executor
  executor zero = λ instruction ctx accounts. abort
  executor (suc depth) = chained_execute (programs (executor depth))
