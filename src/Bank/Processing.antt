-- ===== src/Bank/Processing.antt =====
-- `Bank` and one transaction: the checks, the loading of its accounts, its instructions, and the
-- overlay that holds its result. The program executor is a parameter.
use tiny_solana.Common.{
  ℕ, suc, ◌&&◌, Option, none, some, List, [], ◌∷◌, ltb, ◌==◌, get_elem?, if◌then◌else◌,
}
use tiny_solana.Common.Result.{Result, ok, err, panic, ◌>>=◌, ◌>>◌, err_if}
use tiny_solana.Common.Word.{saturating_add}
use tiny_solana.Common.KeySet
use tiny_solana.Common.KeyMap
use tiny_solana.Common.KeyMap.{KeyMap}
use tiny_solana.Types.{Pubkey, Hash, Bytes}
use tiny_solana.Accounts.{Account, default_account}
use tiny_solana.Accounts.Store.{AccountStore}
use tiny_solana.Accounts.Overlay.{OverlayStore}
use tiny_solana.Accounts.Overlay
use tiny_solana.Transactions.{AccountMeta, Instruction, Transaction}
use tiny_solana.Transactions.Errors.{
  ProgramError, internal_error, TransactionError, program_error, blockhash_not_found,
  blockhash_expired,
}
use tiny_solana.Programs.Ids.{system_program_id}
use tiny_solana.Runtime.{AccountInfo, InvokeContext, Machine, Executor}
use tiny_solana.Bank.Lifecycle.{Bank, BlockhashInfo, max_blockhash_queue_depth}

-- `iter().find(|info| info.hash == …)`
abbrev pub find : Hash → List BlockhashInfo → Option BlockhashInfo
find h [] = none
find h (x ∷ q) = if x.hash == h then some x else find h q

abbrev pub check_age : ℕ → Option BlockhashInfo → Result TransactionError (Unit {0})
check_age slot none = err blockhash_not_found
check_age slot (some info) =
    if ltb (saturating_add info.created_at_slot max_blockhash_queue_depth) slot
    then err blockhash_expired
    else ok tt

-- `Bank::check_preflight_rules`
unfoldable pub check_preflight_rules : Bank → Transaction → Result TransactionError (Unit {0})
check_preflight_rules b tx =
    if b.is_frozen
    then err (program_error (internal_error "bank is frozen"))
    else check_age b.slot (find tx.message.recent_blockhash b.blockhash_queue)

abbrev pub add_one : Option ℕ → Option ℕ
add_one none = none
add_one (some i) = some (suc i)

-- `iter().position(|key| key == pubkey)`
abbrev pub position : Pubkey → List Pubkey → Option ℕ
position k [] = none
position k (x ∷ keys) = if x == k then some 0 else add_one (position k keys)

abbrev pub info_of : AccountMeta → ℕ → Account → AccountInfo
info_of meta index account = record {
  pubkey = meta.pubkey;
  is_signer = meta.is_signer;
  is_writable = meta.is_writable;
  account = index;
  executable = account.executable;
  rent_epoch = account.rent_epoch;
}

-- `accounts.get(account_index).unwrap()`
abbrev pub unwrap_cell : Option Account → Result TransactionError Account
unwrap_cell none = panic
unwrap_cell (some a) = ok a

abbrev pub find_key : Option ℕ → Result TransactionError ℕ
find_key none = err (program_error (internal_error "instruction account not found in transaction"))
find_key (some i) = ok i

abbrev pub borrow_twice : TransactionError
borrow_twice = program_error (internal_error "account borrowed mutably more than once")

-- The infos of one instruction; `borrowed_mutably` is the set of the indices taken so far.
module _ (keys : List Pubkey) (cells : List Account) where
  unfoldable pub prepare_metas :
      List AccountMeta → List ℕ → Result TransactionError (List AccountInfo)
  prepare_metas [] borrowed_mutably = ok []
  prepare_metas (meta ∷ metas) borrowed_mutably = do
    index ← find_key (position meta.pubkey keys)
    err_if (meta.is_writable && KeySet.contains index borrowed_mutably) borrow_twice
    account ← unwrap_cell (get_elem? cells index)
    infos ←
        prepare_metas metas
          (if meta.is_writable then KeySet.insert index borrowed_mutably else borrowed_mutably)
    ok (info_of meta index account ∷ infos)

  -- `Bank::prepare_account_infos`
  unfoldable pub prepare_account_infos : Instruction → Result TransactionError (List AccountInfo)
  prepare_account_infos instruction = prepare_metas instruction.accounts []

abbrev pub context_of : Instruction → ℕ → InvokeContext
context_of instruction compute_budget = record {
  program_id = instruction.program_id;
  instruction_data = instruction.payload;
  compute_budget = compute_budget;
}

-- A new context has an empty log, an idle meter and an empty call stack.
abbrev pub fresh : Machine → Machine
fresh m = record m { log = []; compute_meter = 0; call_stack = [] }

-- `ProgramError` converts to `TransactionError` at a `?`.
abbrev pub lift : Result ProgramError (Unit {0}) → Result TransactionError (Unit {0})
lift (ok u) = ok u
lift (err e) = err (program_error e)
lift panic = panic

abbrev pub or_new : Pubkey → Option Account → Account
or_new k none = record default_account { pubkey = k; owner = system_program_id }
or_new k (some a) = a

module _ {S : Type 0} (ops : AccountStore S) where
  -- `Bank::load_and_verify_accounts`
  unfoldable pub load_and_verify_accounts : List Pubkey → OverlayStore S → List Account
  load_and_verify_accounts [] o = []
  load_and_verify_accounts (k ∷ keys) o =
      or_new k (Overlay.load ops o k) ∷ load_and_verify_accounts keys o

abbrev pub start_machine : List Account → KeyMap Bytes → Machine
start_machine cells cache = record {
  cells = cells;
  log = [];
  compute_meter = 0;
  call_stack = [];
  program_cache = cache;
}

-- `for account_rc in loaded_accounts_rc { temp_overlay.store(…)?; }`; an overlay's write succeeds.
abbrev pub store_all : {S : Type 0} → List Account → OverlayStore S → OverlayStore S
store_all [] o = o
store_all (a ∷ cells) o = store_all cells (record o { dirty = KeyMap.insert a.pubkey a o.dirty })

abbrev pub finish :
    {S : Type 0}
    → OverlayStore S
    → Result TransactionError (Unit {0}) × Machine
    → Result TransactionError (OverlayStore S) × KeyMap Bytes
finish o (ok _, m) = (ok (store_all m.cells o), m.program_cache)
finish o (err e, m) = (err e, m.program_cache)
finish o (panic, m) = (panic, m.program_cache)

module _ (execute : Executor) where
  abbrev pub run_with :
      Instruction
      → ℕ
      → Machine
      → Result TransactionError (List AccountInfo)
      → Result TransactionError (Unit {0}) × Machine
  run_with instruction budget m (ok infos) =
      let (r, m') = execute instruction (context_of instruction budget) infos (fresh m) in
      (lift r, m')
  run_with instruction budget m (err e) = (err e, m)
  run_with instruction budget m panic = (panic, m)

  -- `Bank::execute_instructions`
  unfoldable pub execute_instructions :
      List Pubkey → List Instruction → ℕ → Machine → Result TransactionError (Unit {0}) × Machine
  execute_instructions keys [] budget m = (ok tt, m)
  execute_instructions keys (ix ∷ ixs) budget m =
      let (r, m') = run_with ix budget m (prepare_account_infos keys m.cells ix) in
      elim r [
        | ok _ ↦ execute_instructions keys ixs budget m'
        | err e ↦ (err e, m')
        | panic ↦ (panic, m')
      ]

module _ (execute : Executor) {S : Type 0} (ops : AccountStore S) where
  -- `Bank::process_single_transaction`. The executor's program cache outlives the call.
  unfoldable pub process_single_transaction :
      Bank
      → Transaction
      → ℕ
      → KeyMap Bytes
      → S
      → Result TransactionError (OverlayStore S) × KeyMap Bytes
  process_single_transaction b tx compute_budget cache accounts =
      elim (check_preflight_rules b tx) [
        | err e ↦ (err e, cache)
        | panic ↦ (panic, cache)
        | ok _ ↦
            let o = Overlay.new accounts in
            finish o (
              execute_instructions execute tx.message.account_keys tx.message.instructions
                compute_budget
                (start_machine (load_and_verify_accounts ops tx.message.account_keys o) cache))
      ]

  -- `Bank::simulate_transaction`; the overlay is dropped, and the program cache stays.
  unfoldable pub simulate_transaction :
      Transaction → KeyMap Bytes → S → Result TransactionError (Unit {0}) × KeyMap Bytes
  simulate_transaction tx cache accounts =
      let o = Overlay.new accounts in
      let (r, m) =
        execute_instructions execute tx.message.account_keys tx.message.instructions 200_000
          (start_machine (load_and_verify_accounts ops tx.message.account_keys o) cache) in
      (r, m.program_cache)
