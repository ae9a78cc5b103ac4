-- ===== src/Programs/Token.antt =====
-- src/programs/token_program.rs. The rent sysvar of solana_program and bincode are parameters.
pub mod Ledger
pub mod Transfers
pub mod Conserved
pub mod Supply
mod Tests
use tiny_solana.Common.{
  ℕ, zero, suc, ◌+◌, ◌-◌, ◌≡◌, Bool, true, false, not, ◌||◌, Option, none, some, List, [], ◌∷◌, ltb,
  ◌==◌, length, if◌then◌else◌,
}
use tiny_solana.Common.Result.{Result, ok, err, panic}
use tiny_solana.Common.Word.{saturating_add, saturating_sub}
use tiny_solana.Types.{Pubkey, Bytes}
use tiny_solana.Codec.{Codec}
use tiny_solana.Transactions.{Instruction}
use tiny_solana.Transactions.Errors.{
  ProgramError, invalid_instruction_data, custom, invalid_account_data, internal_error,
}
use tiny_solana.Runtime.{
  AccountInfo, InvokeContext, Machine, Action, Executor, pure, raise, abort, ◌>>=◌, ◌>>◌, raise_if,
  or_raise, or_abort, lamports, borrow_data, copy_front, invoke,
}
use tiny_solana.Programs.System.{SystemInstruction, create_assign_instruction}

pub data TokenError : Type 0 where
  not_enough_account_keys missing_required_signature authority_mismatch : TokenError
  token_account_mint_mismatch source_not_owned_by_signer mint_mismatch : TokenError
  already_initialized mint_not_initialized not_rent_exempt insufficient_funds : TokenError

-- `e as u32`
abbrev pub code_of : TokenError → ℕ
code_of not_enough_account_keys = 0
code_of missing_required_signature = 1
code_of authority_mismatch = 2
code_of token_account_mint_mismatch = 3
code_of source_not_owned_by_signer = 4
code_of mint_mismatch = 5
code_of already_initialized = 6
code_of mint_not_initialized = 7
code_of not_rent_exempt = 8
code_of insufficient_funds = 9

-- `From<TokenError> for ProgramError`
abbrev pub program_error_of : TokenError → ProgramError
program_error_of insufficient_funds = ProgramError.insufficient_funds
program_error_of not_enough_account_keys = ProgramError.not_enough_account_keys
program_error_of missing_required_signature = ProgramError.missing_required_signature
program_error_of e = custom (code_of e)

pub record Mint : Type 0 where
  pub mint_authority : Pubkey
  pub supply : ℕ
  pub decimals : ℕ
  pub is_initialized : Bool

pub record TokenAccount : Type 0 where
  pub mint : Pubkey
  pub owner : Pubkey
  pub amount : ℕ
  pub is_initialized : Bool

-- `Mint::LEN`
abbrev pub mint_len : ℕ
mint_len = 32 + 8 + 1 + 1

-- `TokenAccount::LEN`
abbrev pub token_account_len : ℕ
token_account_len = 32 + 32 + 8 + 1

pub data TokenInstruction : Type 0 where
  mint transfer : (amount : ℕ) → TokenInstruction
  set_authority : (new_authority : Pubkey) → TokenInstruction
  initialize_mint : (decimals : ℕ) (mint_authority : Pubkey) → TokenInstruction
  initialize_account : TokenInstruction

-- What the program takes from bincode and from solana_program.
pub record TokenDeps (Rent : Type 0) : Type 0 where
  pub decode_instruction : Bytes → Option TokenInstruction
  pub mints : Codec Mint
  pub token_accounts : Codec TokenAccount
  pub decode_rent : Bytes → Option Rent
  pub is_exempt : Rent → ℕ → ℕ → Bool
  pub encode_system : SystemInstruction → Option Bytes

abbrev pub fail_if : Bool → TokenError → Action (Unit {0})
fail_if b e = raise_if b (program_error_of e)

-- `T::unpack_from_slice(&info.try_borrow_data()?)?`
abbrev pub unpack : {A : Type 0} → Codec A → AccountInfo → Action A
unpack codec info = do b ← borrow_data info; or_raise (codec.decode b) invalid_account_data

-- `value.pack_into_slice(&mut info.try_borrow_mut_data()?)`
abbrev pub pack : {A : Type 0} → Codec A → A → AccountInfo → Action (Unit {0})
pack codec value info = do b ← or_abort (codec.encode value); copy_front info b

module _ {Rent : Type 0} (deps : TokenDeps Rent) where
  unfoldable pub process_mint : ℕ → List AccountInfo → Action (Unit {0})
  process_mint amount (authority ∷ mint_info ∷ destination ∷ _) = do
    fail_if (not authority.is_signer) missing_required_signature
    old ← unpack deps.mints mint_info
    fail_if (not (old.mint_authority == authority.pubkey)) authority_mismatch
    account ← unpack deps.token_accounts destination
    fail_if (not (account.mint == mint_info.pubkey)) token_account_mint_mismatch
    pack deps.mints (record old { supply = saturating_add old.supply amount }) mint_info
    pack deps.token_accounts (record account { amount = saturating_add account.amount amount })
        destination
  process_mint amount _ = raise (program_error_of not_enough_account_keys)

  unfoldable pub process_transfer : ℕ → List AccountInfo → Action (Unit {0})
  process_transfer amount (owner ∷ source ∷ destination ∷ _) = do
    fail_if (not owner.is_signer) missing_required_signature
    from ← unpack deps.token_accounts source
    fail_if (not (from.owner == owner.pubkey)) source_not_owned_by_signer
    to ← unpack deps.token_accounts destination
    fail_if (not (from.mint == to.mint)) mint_mismatch
    fail_if (ltb from.amount amount) insufficient_funds
    pack deps.token_accounts (record from { amount = saturating_sub from.amount amount }) source
    pack deps.token_accounts (record to { amount = saturating_add to.amount amount }) destination
  process_transfer amount _ = raise (program_error_of not_enough_account_keys)

  unfoldable pub process_initialize_mint : ℕ → Pubkey → List AccountInfo → Action (Unit {0})
  process_initialize_mint decimals mint_authority (mint_info ∷ rent_info ∷ _) = do
    rent_data ← borrow_data rent_info
    rent ←
        or_raise (deps.decode_rent rent_data) (internal_error "failed to deserialize rent sysvar")
    old ← unpack deps.mints mint_info
    fail_if old.is_initialized already_initialized
    balance ← lamports mint_info
    contents ← borrow_data mint_info
    fail_if (not (deps.is_exempt rent balance (length contents))) not_rent_exempt
    pack deps.mints
        (record {
          mint_authority = mint_authority;
          supply = 0;
          decimals = decimals;
          is_initialized = true;
        })
        mint_info
  process_initialize_mint decimals mint_authority _ =
      raise (program_error_of not_enough_account_keys)

  unfoldable pub process_initialize_account : List AccountInfo → Action (Unit {0})
  process_initialize_account (account_info ∷ mint_info ∷ owner_info ∷ rent_info ∷ _) = do
    rent_data ← borrow_data rent_info
    rent ←
        or_raise (deps.decode_rent rent_data) (internal_error "failed to deserialize rent sysvar")
    old ← unpack deps.token_accounts account_info
    fail_if old.is_initialized already_initialized
    balance ← lamports account_info
    contents ← borrow_data account_info
    fail_if (not (deps.is_exempt rent balance (length contents))) not_rent_exempt
    of_mint ← unpack deps.mints mint_info
    fail_if (not of_mint.is_initialized) mint_not_initialized
    pack deps.token_accounts
        (record {
          mint = mint_info.pubkey;
          owner = owner_info.pubkey;
          amount = 0;
          is_initialized = true;
        })
        account_info
  process_initialize_account _ = raise (program_error_of not_enough_account_keys)

  module _ (execute : Executor) where
    abbrev pub invoke_built :
        Result ProgramError Instruction → InvokeContext → List AccountInfo → Action (Unit {0})
    invoke_built (ok instruction) ctx accounts = invoke execute ctx instruction accounts
    invoke_built (err e) ctx accounts = raise e
    invoke_built panic ctx accounts = abort

    unfoldable pub process_set_authority :
        Pubkey → InvokeContext → List AccountInfo → Action (Unit {0})
    process_set_authority new_authority ctx (target ∷ current_authority ∷ _) = do
      fail_if (not current_authority.is_signer) missing_required_signature
      invoke_built (create_assign_instruction deps.encode_system target.pubkey new_authority) ctx
          (target ∷ [])
    process_set_authority new_authority ctx _ = raise (program_error_of not_enough_account_keys)

    abbrev pub dispatch :
        Option TokenInstruction → InvokeContext → List AccountInfo → Action (Unit {0})
    dispatch none ctx accounts = raise invalid_instruction_data
    dispatch (some (mint n)) ctx accounts = process_mint n accounts
    dispatch (some (transfer n)) ctx accounts = process_transfer n accounts
    dispatch (some (set_authority k)) ctx accounts = process_set_authority k ctx accounts
    dispatch (some (initialize_mint d k)) ctx accounts = process_initialize_mint d k accounts
    dispatch (some initialize_account) ctx accounts = process_initialize_account accounts

    -- `token_program::entrypoint`
    unfoldable pub entrypoint : InvokeContext → List AccountInfo → Action (Unit {0})
    entrypoint ctx accounts = dispatch (deps.decode_instruction ctx.instruction_data) ctx accounts
