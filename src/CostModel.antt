-- ===== src/CostModel.antt =====
-- src/cost_model.rs: the cost of a transaction, and the tracker of a block's costs. The atomics are
-- relaxed and one thread at a time admits and refunds, so each call is a function of the state.
pub mod Costs
pub mod Ledger
pub mod Limits
mod Tests
use tiny_solana.Common.{
  ℕ, ◌+◌, ◌*◌, ◌/◌, ◌%◌, ◌≡◌, Bool, true, false, ◌||◌, Option, none, some, List, [], ◌∷◌, ◌==◌, ltb,
  if◌then◌else◌, length,
}
use tiny_solana.Common.Result.{Result, ok, err}
use tiny_solana.Common.Word.{u64_mod, saturating_add, wrapping_add, wrapping_sub}
use tiny_solana.Common.KeySet
use tiny_solana.Common.KeyMap
use tiny_solana.Common.KeyMap.{KeyMap}
use tiny_solana.Types.{Pubkey}
use tiny_solana.Transactions.{AccountMeta, Instruction, Transaction}
use tiny_solana.Programs.Ids.{system_program_id, token_program_id}

abbrev pub compute_unit_to_us_ratio : ℕ
compute_unit_to_us_ratio = 30

abbrev pub signature_cost_units : ℕ
signature_cost_units = compute_unit_to_us_ratio * 24

abbrev pub write_lock_units : ℕ
write_lock_units = compute_unit_to_us_ratio * 10

abbrev pub instruction_data_bytes_cost : ℕ
instruction_data_bytes_cost = 140 / compute_unit_to_us_ratio

abbrev pub max_block_units : ℕ
max_block_units = 60_000_000

abbrev pub max_writable_account_units : ℕ
max_writable_account_units = 24_000_000

abbrev pub builtin_program_cost : ℕ
builtin_program_cost = compute_unit_to_us_ratio * 10

abbrev pub bpf_program_cost : ℕ
bpf_program_cost = 200_000

pub data CostModelError : Type 0 where
  would_exceed_block_max_limit would_exceed_account_max_limit : CostModelError

pub record CostModel : Type 0 where
  pub builtin_programs : List Pubkey

-- `CostModel::new`
abbrev pub new_model : CostModel
new_model = record {
  builtin_programs = KeySet.insert token_program_id (KeySet.insert system_program_id []);
}

pub record TransactionCost : Type 0 where
  pub signature_cost : ℕ
  pub write_lock_cost : ℕ
  pub data_cost : ℕ
  pub execution_cost : ℕ
  pub writable_accounts : List Pubkey

-- The variables of the loop over the instructions.
pub record Totals : Type 0 where
  pub write_set : List Pubkey
  pub instruction_data_len : ℕ
  pub execution_cost : ℕ

abbrev pub add_writable : List Pubkey → List AccountMeta → List Pubkey
add_writable w [] = w
add_writable w (m ∷ ms) = add_writable (if m.is_writable then KeySet.insert m.pubkey w else w) ms

abbrev pub program_cost : CostModel → Pubkey → ℕ
program_cost model id =
    if KeySet.contains id model.builtin_programs then builtin_program_cost else bpf_program_cost

abbrev pub add_instruction : CostModel → Totals → Instruction → Totals
add_instruction model t ix = record {
  write_set = add_writable t.write_set ix.accounts;
  instruction_data_len = wrapping_add t.instruction_data_len (length ix.payload);
  execution_cost = wrapping_add t.execution_cost (program_cost model ix.program_id);
}

abbrev pub add_instructions : CostModel → Totals → List Instruction → Totals
add_instructions model t [] = t
add_instructions model t (ix ∷ ixs) = add_instructions model (add_instruction model t ix) ixs

abbrev pub no_totals : Totals
no_totals = record { write_set = []; instruction_data_len = 0; execution_cost = 0 }

-- `CostModel::calculate_cost`
unfoldable pub calculate_cost : CostModel → Transaction → TransactionCost
calculate_cost model tx =
    let t = add_instructions model no_totals tx.message.instructions in
    record {
      signature_cost = (length tx.signatures * signature_cost_units) % u64_mod;
      write_lock_cost = (length t.write_set * write_lock_units) % u64_mod;
      data_cost = (t.instruction_data_len * instruction_data_bytes_cost) % u64_mod;
      execution_cost = t.execution_cost;
      writable_accounts = t.write_set;
    }

-- `TransactionCost::sum`
unfoldable pub sum : TransactionCost → ℕ
sum c =
    saturating_add (saturating_add (saturating_add c.signature_cost c.write_lock_cost) c.data_cost)
      c.execution_cost

pub record CostTracker : Type 0 where
  pub block_cost_limit : ℕ
  pub account_cost_limit : ℕ
  pub block_cost : ℕ
  pub cost_by_writable_accounts : KeyMap ℕ

-- `CostTracker::new`
abbrev pub new_tracker : ℕ → ℕ → CostTracker
new_tracker block account = record {
  block_cost_limit = block;
  account_cost_limit = account;
  block_cost = 0;
  cost_by_writable_accounts = [];
}

abbrev pub account_exceeds : CostTracker → ℕ → Option ℕ → Bool
account_exceeds t cost none = false
account_exceeds t cost (some chained) = ltb t.account_cost_limit (saturating_add chained cost)

-- Whether the loop over the writable accounts returns an error.
abbrev pub some_account_exceeds : CostTracker → ℕ → List Pubkey → Bool
some_account_exceeds t cost [] = false
some_account_exceeds t cost (k ∷ ks) =
    account_exceeds t cost (KeyMap.lookup k t.cost_by_writable_accounts)
    || some_account_exceeds t cost ks

-- `CostTracker::would_fit`
unfoldable pub would_fit : CostTracker → TransactionCost → Result CostModelError (Unit {0})
would_fit t c =
    if ltb t.block_cost_limit (saturating_add t.block_cost (sum c))
    then err would_exceed_block_max_limit
    else if some_account_exceeds t (sum c) c.writable_accounts
    then err would_exceed_account_max_limit
    else ok tt

-- `entry(*account_key).or_insert(AccountCost(0))`
abbrev pub cost_or_zero : Option ℕ → ℕ
cost_or_zero none = 0
cost_or_zero (some n) = n

abbrev pub add_accounts : ℕ → List Pubkey → KeyMap ℕ → KeyMap ℕ
add_accounts cost [] m = m
add_accounts cost (k ∷ ks) m =
    add_accounts cost ks (KeyMap.insert k (wrapping_add (cost_or_zero (KeyMap.lookup k m)) cost) m)

-- `CostTracker::add_cost`
pub add_cost : CostTracker → TransactionCost → CostTracker
add_cost t c = record t {
  block_cost = wrapping_add t.block_cost (sum c);
  cost_by_writable_accounts = add_accounts (sum c) c.writable_accounts t.cost_by_writable_accounts;
}

-- `if let Some(mut entry) = … { entry.0 -= cost; }`
abbrev pub subtract_entry : ℕ → Pubkey → KeyMap ℕ → Option ℕ → KeyMap ℕ
subtract_entry cost k m none = m
subtract_entry cost k m (some n) = KeyMap.insert k (wrapping_sub n cost) m

abbrev pub subtract_accounts : ℕ → List Pubkey → KeyMap ℕ → KeyMap ℕ
subtract_accounts cost [] m = m
subtract_accounts cost (k ∷ ks) m =
    subtract_accounts cost ks (subtract_entry cost k m (KeyMap.lookup k m))

-- `CostTracker::subtract_cost`
pub subtract_cost : CostTracker → TransactionCost → CostTracker
subtract_cost t c = record t {
  block_cost = wrapping_sub t.block_cost (sum c);
  cost_by_writable_accounts =
      subtract_accounts (sum c) c.writable_accounts t.cost_by_writable_accounts;
}

-- `CostTracker::reset`
pub reset : CostTracker → CostTracker
reset t = record t { block_cost = 0; cost_by_writable_accounts = [] }
