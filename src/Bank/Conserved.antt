-- ===== src/Bank/Conserved.antt =====
-- The lamports of the loaded accounts while the instructions of a transaction run.
use tiny_solana.Common.{ℕ, ◌<◌, ◌≡◌, refl, ◌∙◌, Option, List, [], ◌∷◌, arith}
use tiny_solana.Common.Result.{Result, ok, err, panic}
use tiny_solana.Common.Word.{u64_mod}
use tiny_solana.Types.{Pubkey, Bytes}
use tiny_solana.Accounts.{Account}
use tiny_solana.Transactions.{AccountMeta, Instruction}
use tiny_solana.Transactions.Errors.{TransactionError}
use tiny_solana.Runtime.{AccountInfo, InvokeContext, Machine, Executor}
use tiny_solana.Runtime.Cells.{total, HaveCells}
use tiny_solana.Programs.System.{SystemInstruction, entrypoint}
use tiny_solana.Programs.System.Effects.{entrypoint-total}
use tiny_solana.Bank.Processing.{
  prepare_account_infos, run_with, execute_instructions, context_of, fresh,
}
use tiny_solana.Bank.Infos.{Describe, prepare_account_infos-Describe}

Describe-HaveCells :
    (keys : List Pubkey) (cells : List Account) (metas : List AccountMeta)
    (infos : List AccountInfo)
    → Describe keys cells metas infos
    → HaveCells infos cells
Describe-HaveCells keys cells [] [] d = tt
Describe-HaveCells keys cells [] (x ∷ infos) d = elim d [ ]
Describe-HaveCells keys cells (meta ∷ metas) [] d = elim d [ ]
Describe-HaveCells keys cells (meta ∷ metas) (x ∷ infos) d =
    let (_, _, _, _, within, rest) = d in (within, Describe-HaveCells keys cells metas infos rest)

-- An executor that moves lamports between the accounts it is given, and makes none.
abbrev pub KeepsTotal : Executor → Type 0
KeepsTotal execute =
    (ix : Instruction) (ctx : InvokeContext) (infos : List AccountInfo) (m : Machine)
    → HaveCells infos m.cells
    → total m.cells < u64_mod
    → total (execute ix ctx infos m).1.cells ≡ total m.cells

module _ (execute : Executor) (keeps : KeepsTotal execute) where
  run_with-total :
      (keys : List Pubkey) (ix : Instruction) (budget : ℕ) (m : Machine)
      (r : Result TransactionError (List AccountInfo))
      → prepare_account_infos keys m.cells ix ≡ r
      → total m.cells < u64_mod
      → total (run_with execute ix budget m r).1.cells ≡ total m.cells
  run_with-total keys ix budget m (ok infos) e bounded =
      let (described, _) = prepare_account_infos-Describe keys m.cells ix infos e in
      keeps ix (context_of ix budget) infos (fresh m)
        (Describe-HaveCells keys m.cells ix.accounts infos described) bounded
  run_with-total keys ix budget m (err x) e bounded = refl
  run_with-total keys ix budget m panic e bounded = refl

  execute_instructions-total :
      (keys : List Pubkey) (ixs : List Instruction) (budget : ℕ) (m : Machine)
      → total m.cells < u64_mod
      → total (execute_instructions execute keys ixs budget m).1.cells ≡ total m.cells
  unfolding execute_instructions
  execute_instructions-total keys [] budget m bounded = refl
  execute_instructions-total keys (ix ∷ ixs) budget m bounded =
      let (r, m') = run_with execute ix budget m (prepare_account_infos keys m.cells ix) in
      let same =
        run_with-total keys ix budget m (prepare_account_infos keys m.cells ix) refl bounded in
      go r refl same
        (execute_instructions-total keys ixs budget m' (omega (arith, same, bounded)) ∙ same)
    where
      go :
          (r : Result TransactionError (Unit {0}))
          → (run_with execute ix budget m (prepare_account_infos keys m.cells ix)).0 ≡ r
          → total (run_with execute ix budget m (prepare_account_infos keys m.cells ix)).1.cells
            ≡ total m.cells
          → total
              (execute_instructions execute keys ixs budget
                (run_with execute ix budget m (prepare_account_infos keys m.cells ix)).1).1.cells
            ≡ total m.cells
          → total (execute_instructions execute keys (ix ∷ ixs) budget m).1.cells ≡ total m.cells
      go (ok u) e here there = rw (e, execute_instructions) there
      go (err x) e here there = rw (e, execute_instructions) here
      go panic e here there = rw (e, execute_instructions) here

-- The system program behind the interface of an executor.
abbrev pub system_executor : (Bytes → Option SystemInstruction) → Executor
system_executor decode ix ctx infos = entrypoint decode ctx infos

-- However a transaction of system instructions ends, the lamports in the accounts that were loaded
-- for it add up to what they were, whatever keys and flags its metas name. All lamports together are
-- a `u64`.
pub execute_instructions_system-total :
    (decode : Bytes → Option SystemInstruction) (keys : List Pubkey) (ixs : List Instruction)
    (budget : ℕ) (m : Machine)
    → total m.cells < u64_mod
    → total (execute_instructions (system_executor decode) keys ixs budget m).1.cells
      ≡ total m.cells
execute_instructions_system-total decode keys ixs budget m bounded =
    execute_instructions-total (system_executor decode)
      (λ ix ctx infos m' h b. entrypoint-total decode ctx infos m' h b) keys ixs budget m bounded
