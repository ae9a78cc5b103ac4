-- ===== src/Validator.antt =====
-- src/main.rs: what the validator starts with, and its loop that hands batches to the banking stage.
--
-- The queue of the banking stage is the list `sent` of its channel, from which received transactions
-- are taken away. The loop, the server and the proof of history run in threads of their own: between
-- two rounds of the loop any number of transactions may arrive.
pub mod Batches
pub mod Loop
pub mod Journey
mod Tests
use tiny_solana.Common.{
  ℕ, ◌*◌, Bool, true, false, Option, none, some, List, [], ◌∷◌, ◌++◌, length, leb, if◌then◌else◌,
}
use tiny_solana.Common.Result.{Result, ok, err, panic}
use tiny_solana.Types.{Pubkey, Hash, Digest}
use tiny_solana.Accounts.{Account, default_account}
use tiny_solana.Accounts.Store.{AccountStore}
use tiny_solana.Transactions.{Transaction}
use tiny_solana.Transactions.Errors.{TransactionError}
use tiny_solana.Programs.Ids.{system_program_id}
use tiny_solana.AccountLocks as AccountLocks
use tiny_solana.CostModel.{CostModel, new_tracker, max_block_units, max_writable_account_units}
use tiny_solana.Bank.Lifecycle as Lifecycle
use tiny_solana.Runtime.{Executor}
use tiny_solana.Banking.Recorder.{Channel}
use tiny_solana.Banking.Stage.{Stage, StageError}
use tiny_solana.Banking.Stage.Batch.{process_batch}

abbrev pub batch_size_limit : ℕ
batch_size_limit = 128

abbrev pub lamports_per_sol : ℕ
lamports_per_sol = 1_000_000_000

abbrev pub faucet_account : Pubkey → Account
faucet_account k = record default_account {
  pubkey = k;
  lamports = 1_000 * lamports_per_sol;
  owner = system_program_id;
}

-- `init_faucet`; `none` is the panic of `expect`.
unfoldable pub init_faucet : {S : Type 0} → AccountStore S → Pubkey → S → Option S
init_faucet ops k s = ops.store k (faucet_account k) s

-- `BankingStage::new` over a new bank, on channels that are connected and empty.
abbrev pub new_stage : {S : Type 0} → S → Stage S
new_stage accounts = record {
  locks = AccountLocks.new;
  tracker = new_tracker max_block_units max_writable_account_units;
  tx_sender = record { connected = true; sent = [] };
  poh_record_sender = record { connected = true; sent = [] };
  bank = Lifecycle.new;
  accounts = accounts;
  program_cache = [];
  final_results = [];
}

-- `while let Ok(tx) = tx_receiver.try_recv() { … }`: the batch so far and the queue.
unfoldable pub receive : List Transaction → List Transaction → List Transaction × List Transaction
receive received [] = (received, [])
receive received (tx ∷ queue) =
    let more = received ++ tx ∷ [] in
    let rest = receive more queue in
    if leb batch_size_limit (length more) then (more, queue) else rest

abbrev pub with_queue : {S : Type 0} → List Transaction → Stage S → Stage S
with_queue queue st = record st { tx_sender = record st.tx_sender { sent = queue } }

-- Whether the loop goes on: it ended at the exit flag, or a batch panicked.
pub data Status : Type 0 where
  running exited crashed : Status

module _ (execute : Executor) (sha256 : Digest) {S : Type 0} (ops : AccountStore S)
    (verify : Transaction → Result TransactionError (Unit {0})) (model : CostModel) where
  -- Results and errors of a batch are only logged.
  abbrev pub logged :
      Result StageError (List (Option TransactionError)) × Stage S → Status × Stage S
  logged (ok results, st) = (running, st)
  logged (err e, st) = (running, st)
  logged (panic, st) = (crashed, st)

  -- An empty batch is followed by a sleep.
  abbrev pub handle : List Transaction → Stage S → Status × Stage S
  handle [] st = (running, st)
  handle (tx ∷ batch) st = logged (process_batch execute sha256 ops verify model (tx ∷ batch) st)

  -- One round of the loop, given the exit flag.
  unfoldable pub turn : Bool → Stage S → Status × Stage S
  turn exit st =
      if exit
      then (exited, st)
      else (let (batch, queue) = receive [] st.tx_sender.sent in handle batch (with_queue queue st))
