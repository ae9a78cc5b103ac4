-- ===== src/Programs/Loader.antt =====
-- src/programs/bpf_loader_program.rs. Bincode and the sysvars of solana_program are parameters.
pub mod Close
pub mod Steps
pub mod Data
pub mod Written
pub mod Deploy
pub mod Pack
pub mod Write
pub mod Authority
mod Tests
use tiny_solana.Common.{
  ℕ, zero, suc, ◌+◌, ◌-◌, ◌≡◌, Bool, true, false, not, Option, none, some, List, [], ◌∷◌, ◌++◌, ltb,
  leb, ◌==◌, length, take, drop, if◌then◌else◌,
}
use tiny_solana.Common.Result.{Result, ok, err, panic}
use tiny_solana.Common.Word.{saturating_add, saturating_sub, wrapping_add}
use tiny_solana.Types.{Pubkey, Bytes}
use tiny_solana.Transactions.Errors.{
  ProgramError, invalid_instruction_data, custom, internal_error, account_borrow_failed,
}
use tiny_solana.Runtime.{
  AccountInfo, InvokeContext, Action, Executor, pure, raise, abort, ◌>>=◌, ◌>>◌, raise_if, or_raise,
  or_abort, lift, get_cell, put_cell, lamports, set_lamports, set_data, borrow_data, invoke,
}
use tiny_solana.Runtime.Memory.Read.{slice}
use tiny_solana.Programs.System.{SystemInstruction, create_account_instruction}

pub data BpfLoaderError : Type 0 where
  not_enough_account_keys invalid_account_data invalid_buffer_account : BpfLoaderError
  invalid_program_account immutable_buffer incorrect_authority : BpfLoaderError
  missing_required_signature account_already_initialized account_data_too_small : BpfLoaderError
  account_not_rent_exempt max_data_length_too_small invalid_argument : BpfLoaderError
  buffer_account_too_small : BpfLoaderError

-- `e as u32`
abbrev pub code_of : BpfLoaderError → ℕ
code_of not_enough_account_keys = 0
code_of invalid_account_data = 1
code_of invalid_buffer_account = 2
code_of invalid_program_account = 3
code_of immutable_buffer = 4
code_of incorrect_authority = 5
code_of missing_required_signature = 6
code_of account_already_initialized = 7
code_of account_data_too_small = 8
code_of account_not_rent_exempt = 9
code_of max_data_length_too_small = 10
code_of invalid_argument = 11
code_of buffer_account_too_small = 12

-- `From<BpfLoaderError> for ProgramError`
abbrev pub program_error_of : BpfLoaderError → ProgramError
program_error_of invalid_account_data = ProgramError.invalid_account_data
program_error_of missing_required_signature = ProgramError.missing_required_signature
program_error_of not_enough_account_keys = ProgramError.not_enough_account_keys
program_error_of e = custom (code_of e)

pub data UpgradeableLoaderState : Type 0 where
  uninitialized : UpgradeableLoaderState
  buffer : (authority_address : Option Pubkey) → UpgradeableLoaderState
  program : (programdata_address : Pubkey) → UpgradeableLoaderState
  program_data : (slot : ℕ) (authority_address : Option Pubkey) → UpgradeableLoaderState

pub data LoaderInstruction : Type 0 where
  initialize_buffer : LoaderInstruction
  write : (offset : ℕ) (bytes : Bytes) → LoaderInstruction
  deploy_with_max_data_len : (max_data_len : ℕ) → LoaderInstruction
  upgrade : LoaderInstruction
  set_authority : (new_authority : Option Pubkey) → LoaderInstruction
  close : LoaderInstruction

-- What the program takes from bincode and from solana_program. `serialize_into` gives the bytes
-- that are written at the front of a slice of so many bytes.
pub record LoaderDeps (Rent : Type 0) : Type 0 where
  pub decode_instruction : Bytes → Option LoaderInstruction
  pub decode_state : Bytes → Option UpgradeableLoaderState
  pub serialized_size : UpgradeableLoaderState → Option ℕ
  pub serialize_into : ℕ → UpgradeableLoaderState → Option Bytes
  pub decode_rent : Bytes → Option Rent
  pub minimum_balance : Rent → ℕ → ℕ
  pub decode_clock_slot : Bytes → Option ℕ
  pub encode_system : SystemInstruction → Option Bytes

abbrev pub fail : BpfLoaderError → Action (Unit {0})
fail e = raise (program_error_of e)

abbrev pub fail_if : Bool → BpfLoaderError → Action (Unit {0})
fail_if b e = raise_if b (program_error_of e)

-- `unwrap_or_default()`
abbrev pub or_default : Option UpgradeableLoaderState → UpgradeableLoaderState
or_default none = uninitialized
or_default (some state) = state

abbrev pub is_uninitialized : UpgradeableLoaderState → Bool
is_uninitialized uninitialized = true
is_uninitialized _ = false

-- `authority_address == Some(k)`
abbrev pub is_authority : Option Pubkey → Pubkey → Bool
is_authority none k = false
is_authority (some j) k = j == k

abbrev pub first_key : List AccountInfo → Option Pubkey
first_key [] = none
first_key (info ∷ _) = some info.pubkey

-- `data[start..end].copy_from_slice(bytes)`
unfoldable pub copy_into : AccountInfo → ℕ → ℕ → Bytes → Action (Unit {0})
copy_into info start end bytes = do
  old ← borrow_data info
  place ← slice old start end
  if length place == length bytes
      then set_data info (take start old ++ (bytes ++ drop end old))
      else abort

-- The lamports of an account go to another, and it is left empty.
unfoldable pub drain : AccountInfo → AccountInfo → Action (Unit {0})
drain from to = do
  balance ← lamports to
  extra ← lamports from
  set_lamports to (saturating_add balance extra)
  set_lamports from 0
  set_data from []

module _ {Rent : Type 0} (deps : LoaderDeps Rent) where
  abbrev pub size_of_buffer_metadata : Action ℕ
  size_of_buffer_metadata = or_abort (deps.serialized_size (buffer (some 0)))

  abbrev pub size_of_programdata_metadata : Action ℕ
  size_of_programdata_metadata = or_abort (deps.serialized_size (program_data 0 (some 0)))

  abbrev pub size_of_programdata : ℕ → Action ℕ
  size_of_programdata len = do
    metadata_len ← size_of_programdata_metadata
    pure (saturating_add len metadata_len)

  -- `PackableState::pack_into_account`
  unfoldable pub pack_into_account : UpgradeableLoaderState → AccountInfo → Action (Unit {0})
  pack_into_account state info = do
    metadata_len ←
        or_raise (deps.serialized_size state) (internal_error "failed to get serialized size")
    old ← borrow_data info
    fail_if (ltb (length old) metadata_len) account_data_too_small
    bytes ←
        or_raise (deps.serialize_into metadata_len state)
          (internal_error "failed to serialize state into account")
    set_data info (bytes ++ drop (length bytes) old)

  unfoldable pub process_initialize_buffer : List AccountInfo → Action (Unit {0})
  process_initialize_buffer (buffer_info ∷ rest) = do
    contents ← borrow_data buffer_info
    fail_if (not (is_uninitialized (or_default (deps.decode_state contents))))
        account_already_initialized
    pack_into_account (buffer (first_key rest)) buffer_info
  process_initialize_buffer [] = fail not_enough_account_keys

  -- The checks on the state of a buffer, and the write.
  abbrev pub write_buffer :
      UpgradeableLoaderState → ℕ → Bytes → AccountInfo → AccountInfo → Action (Unit {0})
  write_buffer (buffer none) offset bytes buffer_info authority_info = fail immutable_buffer
  write_buffer (buffer (some k)) offset bytes buffer_info authority_info = do
    fail_if (not (k == authority_info.pubkey)) incorrect_authority
    fail_if (not authority_info.is_signer) missing_required_signature
    metadata_len ← size_of_buffer_metadata
    let start_index = wrapping_add metadata_len offset
    old ← borrow_data buffer_info
    let end_index = wrapping_add start_index (length bytes)
    fail_if (ltb (length old) end_index) account_data_too_small
    copy_into buffer_info start_index end_index bytes
  write_buffer _ offset bytes buffer_info authority_info = fail invalid_buffer_account

  unfoldable pub process_write : ℕ → Bytes → List AccountInfo → Action (Unit {0})
  process_write offset bytes (buffer_info ∷ authority_info ∷ _) = do
    contents ← borrow_data buffer_info
    state ← or_raise (deps.decode_state contents) (program_error_of invalid_account_data)
    write_buffer state offset bytes buffer_info authority_info
    pack_into_account state buffer_info
  process_write offset bytes _ = fail not_enough_account_keys

  -- The state with a new authority, if the state has the authority that is given.
  abbrev pub with_authority :
      Option Pubkey → Pubkey → UpgradeableLoaderState → Action UpgradeableLoaderState
  with_authority new_authority k (buffer authority_address) = do
    fail_if (not (is_authority authority_address k)) incorrect_authority
    pure (buffer new_authority)
  with_authority new_authority k (program_data slot authority_address) = do
    fail_if (not (is_authority authority_address k)) incorrect_authority
    pure (program_data slot new_authority)
  with_authority new_authority k _ = raise (program_error_of invalid_argument)

  unfoldable pub process_set_authority : Option Pubkey → List AccountInfo → Action (Unit {0})
  process_set_authority new_authority (target_info ∷ authority_info ∷ _) = do
    fail_if (not authority_info.is_signer) missing_required_signature
    contents ← borrow_data target_info
    state ← or_raise (deps.decode_state contents) (program_error_of invalid_account_data)
    changed ← with_authority new_authority authority_info.pubkey state
    pack_into_account changed target_info
  process_set_authority new_authority _ = fail not_enough_account_keys

  unfoldable pub process_close : List AccountInfo → Action (Unit {0})
  process_close (account_to_close ∷ recipient ∷ authority_info ∷ _) = do
    fail_if (not authority_info.is_signer) missing_required_signature
    drain account_to_close recipient
  process_close _ = fail not_enough_account_keys

  module _ (execute : Executor) (ctx : InvokeContext) where
    -- The length of the code in a buffer.
    abbrev pub code_len : ℕ → AccountInfo → Action ℕ
    code_len max_data_len buffer_info = do
      contents ← borrow_data buffer_info
      metadata_len ← size_of_buffer_metadata
      fail_if (ltb (length contents) metadata_len) buffer_account_too_small
      let len = saturating_sub (length contents) metadata_len
      fail_if (ltb max_data_len len) max_data_length_too_small
      pure len

    -- Creates the account of the program data.
    unfoldable pub create_programdata :
        Rent → ℕ → AccountInfo → AccountInfo → AccountInfo → Action (Unit {0})
    create_programdata rent max_data_len payer_info programdata_info system_program_info = do
      programdata_len ← size_of_programdata max_data_len
      balance ← lamports programdata_info
      create_account_ix ← lift (
          create_account_instruction deps.encode_system payer_info.pubkey programdata_info.pubkey
            (saturating_sub (deps.minimum_balance rent programdata_len) balance) programdata_len
            ctx.program_id)
      invoke execute ctx create_account_ix
          (payer_info ∷ programdata_info ∷ system_program_info ∷ [])

    -- Copies the code; the data of both accounts is borrowed, that of the second for writing.
    unfoldable pub copy_code : ℕ → AccountInfo → AccountInfo → Action (Unit {0})
    copy_code len buffer_info programdata_info = do
      metadata_len ← size_of_programdata_metadata
      offset ← size_of_buffer_metadata
      contents ← borrow_data buffer_info
      raise_if (buffer_info.account == programdata_info.account) account_borrow_failed
      code ← slice contents offset (wrapping_add offset len)
      copy_into programdata_info metadata_len (wrapping_add metadata_len len) code

    -- Writes the program account.
    unfoldable pub finish_program : AccountInfo → AccountInfo → Action (Unit {0})
    finish_program programdata_info program_info = do
      pack_into_account (program programdata_info.pubkey) program_info
      a ← get_cell program_info.account
      put_cell program_info.account (record a { owner = ctx.program_id; executable = true })

    unfoldable pub process_deploy : ℕ → List AccountInfo → Action (Unit {0})
    process_deploy max_data_len
          (payer ∷ programdata ∷ program_info ∷ buffer_info ∷ rent_info ∷ clock_info
            ∷ system_program ∷ authority ∷ _) =
        do
          fail_if (not authority.is_signer) missing_required_signature
          rent_data ← borrow_data rent_info
          rent ← or_raise (deps.decode_rent rent_data) ProgramError.invalid_argument
          buffer_data_len ← code_len max_data_len buffer_info
          create_programdata rent max_data_len payer programdata system_program
          clock_data ← borrow_data clock_info
          slot ← or_raise (deps.decode_clock_slot clock_data) ProgramError.invalid_argument
          pack_into_account (program_data slot (some authority.pubkey)) programdata
          copy_code buffer_data_len buffer_info programdata
          finish_program programdata program_info
          drain buffer_info payer
    process_deploy max_data_len _ = fail not_enough_account_keys

    abbrev pub dispatch : Option LoaderInstruction → List AccountInfo → Action (Unit {0})
    dispatch none accounts = raise invalid_instruction_data
    dispatch (some initialize_buffer) accounts = process_initialize_buffer accounts
    dispatch (some (write offset bytes)) accounts = process_write offset bytes accounts
    dispatch (some (deploy_with_max_data_len n)) accounts = process_deploy n accounts
    dispatch (some upgrade) accounts = raise (internal_error "upgrade not implemented")
    dispatch (some (set_authority k)) accounts = process_set_authority k accounts
    dispatch (some close) accounts = process_close accounts

    -- `bpf_loader_program::entrypoint`
    unfoldable pub entrypoint : List AccountInfo → Action (Unit {0})
    entrypoint accounts = dispatch (deps.decode_instruction ctx.instruction_data) accounts
