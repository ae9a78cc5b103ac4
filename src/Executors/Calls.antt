-- ===== src/Executors/Calls.antt =====
-- What the executors run, and with what data.
use tiny_solana.Common.{
  ℕ, ◌%◌, ◌^◌, ◌≡◌, ◌≢◌, refl, ap, inl, inr, ◌⊎◌, true, false, not, some, List, [], ◌∷◌, ◌==◌,
  ==_iff, Bool-cases, Option-cases, get_elem?,
}
use tiny_solana.Common.Result.{ok, err}
use tiny_solana.Common.KeyMap
use tiny_solana.Types.{Pubkey, Bytes}
use tiny_solana.Accounts.{Account}
use tiny_solana.Transactions.{Instruction}
use tiny_solana.Transactions.Errors.{
  ProgramError, account_not_executable, account_owner_mismatch, account_not_found,
  account_borrow_failed, custom,
}
use tiny_solana.Runtime.{
  AccountInfo, InvokeContext, Machine, Action, Executor, ◌>>=◌, raise_if, invoke, push_call,
  consume, lift,
}
use tiny_solana.Runtime.Actions.{>>=-ok}
use tiny_solana.Programs.Ids.{system_program_id, bpf_loader_upgradeable_program_id}
use tiny_solana.Programs.System
use tiny_solana.Programs.System.{SystemInstruction, assign, create_assign_instruction}
use tiny_solana.Programs.Token
use tiny_solana.Executors.{
  ExecutorDeps, VmOutcome, programs, find_account, chained_execute, rbpf_execute, finish_run,
  result_code, load_bytecode, or_internal,
}
use tiny_solana.Runtime.Memory.{serialize_parameters}
use tiny_solana.Executors.Depth.{chained_execute-system}

module _ {Rent Executable : Type 0} (deps : ExecutorDeps Rent Executable) (e : Executor) where
  -- The account of a program that the VM may run.
  pub record IsProgram (k : Pubkey) (accounts : List AccountInfo) (m : Machine) : Type 0 where
    pub info : AccountInfo
    pub account : Account
    pub found : find_account k accounts ≡ some info
    pub executable : info.executable ≡ true
    pub cell : get_elem? m.cells info.account ≡ some account
    pub owned : account.owner ≡ bpf_loader_upgradeable_program_id

  -- An instruction for a program that is not native either ends with an error and changes nothing, or
  -- is run by the VM executor, and then its program is among the accounts, executable and owned by
  -- the loader.
  pub chained_execute_guarded :
      (instruction : Instruction) (ctx : InvokeContext) (accounts : List AccountInfo) (m : Machine)
      → KeyMap.contains_key instruction.program_id (programs deps e) ≡ false
      → ((x : ProgramError) × (chained_execute deps (programs deps e) instruction ctx accounts m
            ≡ (err x, m)))
        ⊎ (IsProgram instruction.program_id accounts m
            × (chained_execute deps (programs deps e) instruction ctx accounts m
                ≡ rbpf_execute deps instruction ctx accounts m))
  unfolding chained_execute
  chained_execute_guarded instruction ctx accounts m foreign =
      elim (Option-cases (find_account instruction.program_id accounts)) [
        | inl absent ↦ inl (account_not_found instruction.program_id, rw (foreign, absent) refl)
        | inr (info, found) ↦ elim (Bool-cases info.executable) [
          | inr plain ↦ inl (account_not_executable, rw (foreign, found, plain) refl)
          | inl runs ↦ elim (Option-cases (get_elem? m.cells info.account)) [
            | inl missing ↦ inl (account_borrow_failed, rw (foreign, found, runs, missing) refl)
            | inr (account, cell) ↦
                elim (Bool-cases (account.owner == bpf_loader_upgradeable_program_id)) [
                  | inr stranger ↦
                      inl (account_owner_mismatch, rw (foreign, found, runs, cell, stranger) refl)
                  | inl same ↦ inr (
                    record {
                      info = info;
                      account = account;
                      found = found;
                      executable = runs;
                      cell = cell;
                      owned = (==_iff account.owner bpf_loader_upgradeable_program_id).0 same;
                    },
                    rw (foreign, found, runs, cell, same) refl,
                  )
                ]
          ]
        ]
      ]

  -- A token instruction that changes an authority, if the authority signed and the system instruction
  -- has an encoding, ends as the system program does on the target with the data of the token
  -- instruction itself: the data of the instruction that was built are not used.
  pub process_set_authority_data :
      (k : Pubkey) (ctx : InvokeContext) (target authority : AccountInfo) (rest : List AccountInfo)
      (m : Machine) (b : Bytes)
      → authority.is_signer ≡ true
      → deps.token.encode_system (assign k) ≡ some b
      → (Token.process_set_authority deps.token
          (chained_execute deps (programs deps e))
          k
          ctx
          (target ∷ authority ∷ rest)
          m).0
        ≡ (System.entrypoint deps.decode_system ctx (target ∷ []) (push_call system_program_id m)).0
  unfolding Token.process_set_authority create_assign_instruction invoke
  process_set_authority_data k ctx target authority rest m b signed encoded =
      rw (signed, encoded)
        (ap (λ p. p.0)
          (chained_execute-system deps e _ ctx (target ∷ []) (push_call system_program_id m) refl))

-- An action that never ends with a value.
abbrev Fails : {A : Type 0} → Action A → Type 0
Fails {A} c = (m m' : Machine) (a : A) → c m ≢ (ok a, m')

module _ {A B : Type 0} where
  Fails-right : (c : Action A) (f : A → Action B) → ((a : A) → Fails (f a)) → Fails (c >>= f)
  Fails-right c f h m m' b e = let (a, m1, e1, e2) = >>=-ok c f m m' b e in h a m1 m' b e2

  Fails-left : (c : Action A) (f : A → Action B) → Fails c → Fails (c >>= f)
  Fails-left c f h m m' b e = let (a, m1, e1, e2) = >>=-ok c f m m' b e in h m m1 a e1

consume-Fails : (n : ℕ) → Fails (consume n)
unfolding consume
consume-Fails n m m' u e = cc

module _ {Rent Executable : Type 0} (deps : ExecutorDeps Rent Executable) where
  finish_run-Fails :
      (ctx : InvokeContext) (accounts : List AccountInfo) (outcome : VmOutcome)
      → Fails (finish_run deps ctx accounts outcome)
  unfolding finish_run
  finish_run-Fails ctx accounts outcome =
      Fails-right (result_code deps outcome.program_result) _ (λ code.
        Fails-right (raise_if (not (code == 0)) (custom (code % 2 ^ 32))) _ (λ _.
          Fails-left (consume outcome.instruction_count) _
            (consume-Fails outcome.instruction_count)))

  -- No program that the VM runs ends successfully: whatever the VM does, the instruction ends with an
  -- error or a panic, since charging the instructions that were counted panics.
  pub rbpf_execute_fails :
      (instruction : Instruction) (ctx : InvokeContext) (accounts : List AccountInfo)
      (m m' : Machine)
      → rbpf_execute deps instruction ctx accounts m ≢ (ok tt, m')
  unfolding rbpf_execute
  rbpf_execute_fails instruction ctx accounts m m' =
      Fails-right (load_bytecode deps instruction.program_id accounts) _
        (λ bytecode.
          Fails-right (or_internal "failed to load elf: " (deps.from_elf bytecode)) _ (λ executable.
            Fails-right (or_internal "elf verification failed: " (deps.verify executable)) _ (λ _.
              Fails-right (λ s. lift (serialize_parameters s.cells accounts instruction.payload) s)
                _
                (λ input_mem.
                  Fails-right (or_internal "memory mapping: " (deps.map_memory input_mem)) _ (λ _.
                    Fails-right (deps.execute_program executable input_mem ctx) _
                      (finish_run-Fails ctx accounts))))))
        m m' tt
