-- ===== src/Samples.antt =====
-- Small inputs that the tests of several modules share.
use tiny_solana.Common.{ℕ, ◌+◌, ◌*◌, ◌%◌, ◌^◌, Bool, true, false, List, [], ◌∷◌}
use tiny_solana.Types.{Pubkey, Bytes, Digest}
use tiny_solana.Accounts.{Account, default_account}
use tiny_solana.Transactions.{AccountMeta, Instruction, Transaction}
use tiny_solana.Runtime.{AccountInfo, InvokeContext, Machine}

abbrev pub writable : Pubkey → AccountMeta
writable k = record { pubkey = k; is_signer = true; is_writable = true }

abbrev pub readable : Pubkey → AccountMeta
readable k = record { pubkey = k; is_signer = false; is_writable = false }

abbrev pub instruction : List AccountMeta → Instruction
instruction metas = record { program_id = 0; accounts = metas; payload = 5 ∷ [] }

-- One instruction, signed by nobody in particular.
abbrev pub transaction : List Pubkey → List AccountMeta → Transaction
transaction keys metas = record {
  signatures = 77 ∷ [];
  message = record {
    account_keys = keys;
    recent_blockhash = 0;
    instructions = instruction metas ∷ [];
  };
}

-- Pays from account 1 to account 2.
abbrev pub pay : Transaction
pay = transaction (1 ∷ 2 ∷ []) (writable 1 ∷ writable 2 ∷ [])

-- Reads account 2 and writes account 3.
abbrev pub look : Transaction
look = transaction (2 ∷ 3 ∷ []) (readable 2 ∷ writable 3 ∷ [])

-- Reads account 4.
abbrev pub idle : Transaction
idle = transaction (4 ∷ []) (readable 4 ∷ [])

abbrev pub numbered : List (ℕ × Transaction)
numbered = (0, pay) ∷ (1, look) ∷ (2, idle) ∷ []

-- A digest that tells apart the inputs of the tests.
unfoldable pub toy_digest : Digest
toy_digest [] = 7
toy_digest (b ∷ bs) = (toy_digest bs * 257 + b) % 2 ^ 256

abbrev pub account : Pubkey → ℕ → Account
account k lamports = record default_account { pubkey = k; lamports = lamports }

abbrev pub info : Pubkey → ℕ → Bool → AccountInfo
info k cell signer = record {
  pubkey = k;
  is_signer = signer;
  is_writable = true;
  account = cell;
  executable = false;
  rent_epoch = 0;
}

abbrev pub machine : List Account → Machine
machine cells = record {
  cells = cells;
  log = [];
  compute_meter = 0;
  call_stack = [];
  program_cache = [];
}

abbrev pub context : Bytes → InvokeContext
context payload = record { program_id = 0; instruction_data = payload; compute_budget = 1000 }
