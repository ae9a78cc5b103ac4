-- ===== src/Programs/System.antt =====
-- src/programs/system_program.rs. Instruction data is decoded by bincode, which is a parameter.
pub mod Effects
pub mod Authority
pub mod Contents
mod Tests
use tiny_solana.Common.{
  ℕ, ◌+◌, ◌-◌, ◌^◌, ◌≡◌, Bool, true, false, not, ◌||◌, Option, none, some, List, [], ◌∷◌, leb, ltb,
  replicate, if◌then◌else◌,
}
use tiny_solana.Common.Result.{Result, ok, err, panic}
use tiny_solana.Common.Word.{saturating_add, saturating_sub}
use tiny_solana.Types.{Pubkey, Bytes}
use tiny_solana.Transactions.{Instruction, AccountMeta}
use tiny_solana.Transactions.Errors.{
  ProgramError, invalid_instruction_data, insufficient_funds, not_enough_account_keys,
  missing_required_signature, internal_error,
}
use tiny_solana.Programs.Ids.{system_program_id}
use tiny_solana.Runtime.{
  AccountInfo, InvokeContext, Action, pure, raise, abort, ◌>>=◌, ◌>>◌, raise_if, lamports,
  set_lamports, set_owner, set_data,
}

pub data SystemInstruction : Type 0 where
  transfer : (lamports : ℕ) → SystemInstruction
  assign : (owner : Pubkey) → SystemInstruction
  create_account : (lamports space : ℕ) (owner : Pubkey) → SystemInstruction

abbrev pub signing : Pubkey → AccountMeta
signing k = record { pubkey = k; is_signer = true; is_writable = true }

abbrev pub with_data : List AccountMeta → Option Bytes → Result ProgramError Instruction
with_data metas none = err invalid_instruction_data
with_data metas (some b) =
    ok (record { program_id = system_program_id; accounts = metas; payload = b })

-- Serialization by bincode, `none` for its error.
module _ (encode : SystemInstruction → Option Bytes) where
  -- `create_assign_instruction`
  unfoldable pub create_assign_instruction : Pubkey → Pubkey → Result ProgramError Instruction
  create_assign_instruction target new_owner =
      with_data (signing target ∷ []) (encode (assign new_owner))

  -- `create_account_instruction`
  unfoldable pub create_account_instruction :
      Pubkey → Pubkey → ℕ → ℕ → Pubkey → Result ProgramError Instruction
  create_account_instruction from to lamports space owner =
      with_data (signing from ∷ signing to ∷ []) (encode (create_account lamports space owner))

-- Both instructions that pay move the lamports in the same two statements.
unfoldable pub move_lamports : AccountInfo → AccountInfo → ℕ → Action (Unit {0})
move_lamports from to amount = do
  from_lamports ← lamports from
  set_lamports from (saturating_sub from_lamports amount)
  to_lamports ← lamports to
  set_lamports to (saturating_add to_lamports amount)

unfoldable pub process_transfer : ℕ → List AccountInfo → Action (Unit {0})
process_transfer amount (from ∷ to ∷ _) = do
  raise_if (not from.is_signer) missing_required_signature
  balance ← lamports from
  raise_if (ltb balance amount) insufficient_funds
  move_lamports from to amount
process_transfer amount _ = raise (internal_error "transfer requires 2 accounts")

unfoldable pub process_assign : Pubkey → List AccountInfo → Action (Unit {0})
process_assign owner (target ∷ _) = do
  raise_if (not target.is_signer) missing_required_signature
  set_owner target owner
process_assign owner _ = raise (internal_error "assign requires 1 account")

-- `vec![0; space as usize]` panics on more than `isize::MAX` bytes; that memory runs out is left out.
abbrev pub zeroed : ℕ → Action Bytes
zeroed space m = if ltb space (2 ^ 63) then pure (replicate space 0) m else abort m

unfoldable pub process_create_account : ℕ → ℕ → Pubkey → List AccountInfo → Action (Unit {0})
process_create_account amount space owner (from ∷ to ∷ _) = do
  raise_if (not from.is_signer || not to.is_signer) missing_required_signature
  balance ← lamports from
  raise_if (ltb balance amount) insufficient_funds
  move_lamports from to amount
  bytes ← zeroed space
  set_data to bytes
  set_owner to owner
process_create_account amount space owner _ = raise not_enough_account_keys

abbrev pub dispatch : Option SystemInstruction → List AccountInfo → Action (Unit {0})
dispatch none accounts = raise invalid_instruction_data
dispatch (some (transfer n)) accounts = process_transfer n accounts
dispatch (some (assign k)) accounts = process_assign k accounts
dispatch (some (create_account n s k)) accounts = process_create_account n s k accounts

-- `system_program::entrypoint`
unfoldable pub entrypoint :
    (Bytes → Option SystemInstruction) → InvokeContext → List AccountInfo → Action (Unit {0})
entrypoint decode ctx accounts = dispatch (decode ctx.instruction_data) accounts
