-- ===== src/Client/Samples.antt =====
-- A client and a stage for tests.
use tiny_solana.Common.{
  ℕ, ◌+◌, ◌≡◌, refl, true, Option, none, some, [], ◌∷◌, arith, ◌==◌, inl, inr, Bool-cases,
}
use tiny_solana.Common.Result.{ok}
use tiny_solana.Common.KeyMap.{KeyMap}
use tiny_solana.Types.{Bytes}
use tiny_solana.Types.Keys.{Ed25519, IsSound, Keypair}
use tiny_solana.Accounts.{Account}
use tiny_solana.Accounts.Store.{in_memory}
use tiny_solana.Transactions.{Message, Transaction}
use tiny_solana.Programs.System.{SystemInstruction, transfer, assign, create_account}
use tiny_solana.Executors.Samples.{decode_transfer}
use tiny_solana.AccountLocks.{new}
use tiny_solana.CostModel.{
  new_model, new_tracker, max_block_units, max_writable_account_units, calculate_cost, would_fit,
  sum,
}
use tiny_solana.Bank.Lifecycle as Lifecycle
use tiny_solana.Bank.Processing.{check_preflight_rules}
use tiny_solana.Banking.Stage.{Stage}
use tiny_solana.Client.{create_transfer_transaction, transfer_message}
use tiny_solana.Client.Paid.{IsKeyed}
use tiny_solana.Samples.{account}

-- A signature is the successor of the key, and a key verifies its own.
abbrev pub toy_dalek : Ed25519 ℕ ℕ
toy_dalek = record {
  from_seed = λ b. 1;
  to_seed = λ s. [];
  verifying_key = λ s. s;
  key_bytes = λ v. v;
  verifying_from = λ k. some k;
  sign = λ s b. s + 1;
  verify = λ v b s. s == v + 1;
  verify_strict = λ v b s. s == v + 1;
}

pub toy_dalek-IsSound : IsSound toy_dalek
toy_dalek-IsSound = record { reads = λ v. refl; accepts = λ s b. (ground arith, ground arith) }

abbrev pub encode_transfer : SystemInstruction → Option Bytes
encode_transfer (transfer n) = some (n ∷ [])
encode_transfer (assign k) = none
encode_transfer (create_account n s k) = none

pub decode-encode :
    (i : SystemInstruction) (b : Bytes) → encode_transfer i ≡ some b → decode_transfer b ≡ some i
decode-encode (transfer n) [] e = absurd (ground arith)
decode-encode (transfer n) (m ∷ b) e = ground arith
decode-encode (assign k) b e = absurd (ground arith)
decode-encode (create_account n s k) b e = absurd (ground arith)

abbrev pub serialize : Message → Option Bytes
serialize m = some []

abbrev pub stage : Stage (KeyMap Account)
stage = record {
  locks = new;
  tracker = new_tracker max_block_units max_writable_account_units;
  tx_sender = record { connected = true; sent = [] };
  poh_record_sender = record { connected = true; sent = [] };
  bank = Lifecycle.new;
  accounts = (1, account 1 10) ∷ [];
  program_cache = [];
  final_results = [];
}

abbrev pub payer : Keypair ℕ
payer = record { signing_key = 1 }

abbrev pub paying : Transaction
paying = record { signatures = 2 ∷ []; message = transfer_message 1 2 0 (4 ∷ []) }

pub made : create_transfer_transaction toy_dalek encode_transfer serialize payer 2 4 0 ≡ some paying
unfolding create_transfer_transaction
made = refl

pub known : check_preflight_rules stage.bank paying ≡ ok tt
unfolding check_preflight_rules
known = refl

pub fits : would_fit stage.tracker (calculate_cost new_model paying) ≡ ok tt
unfolding would_fit calculate_cost sum
fits = refl

pub keyed : IsKeyed in_memory stage.accounts
keyed k a e = elim (Bool-cases (k == 1)) [
  | inl here ↦ ground arith
  | inr there ↦ absurd (ground arith)
]
