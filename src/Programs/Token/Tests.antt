-- ===== src/Programs/Token/Tests.antt =====
-- Runs of the token program.
use tiny_solana.Common.{
  ℕ, ◌≡◌, refl, sym, ap, ◌∙◌, inl, inr, Bool, true, false, Option, none, some, [], ◌∷◌, arith,
  length, replicate, ◌==◌, if◌then◌else◌, get_elem?, ==_iff, Bool-cases,
}
use tiny_solana.Common.Result.{ok}
use tiny_solana.Common.Word.{saturating_add}
use tiny_solana.Types.{Bytes}
use tiny_solana.Accounts.{Account}
use tiny_solana.Codec.{Codec, IsExact}
use tiny_solana.Runtime.{AccountInfo, Machine, copy_front}
use tiny_solana.Programs.Token.{Mint, TokenAccount, TokenDeps, token_account_len, process_transfer}
use tiny_solana.Programs.Token.Ledger.{held, decoded}
use tiny_solana.Programs.Token.Conserved.{process_transfer-held, process_transfer_aliased}
use tiny_solana.Samples.{account, info, machine}

abbrev flag : Bool → ℕ
flag true = 1
flag false = 0

flag-eq : (b : Bool) → flag b == 1 ≡ b
flag-eq true = refl
flag-eq false = refl

-- Codecs that write a number for a field and pad to the size of the state.
abbrev encode_mint : Mint → Bytes
encode_mint v = v.mint_authority ∷ v.supply ∷ v.decimals ∷ flag v.is_initialized ∷ replicate 38 0

abbrev decode_mint : Bytes → Option Mint
decode_mint (k ∷ s ∷ d ∷ i ∷ rest) =
    if length rest == 38
    then some (record { mint_authority = k; supply = s; decimals = d; is_initialized = i == 1 })
    else none
decode_mint _ = none

abbrev mint_codec : Codec Mint
mint_codec = record { encode = λ v. some (encode_mint v); decode = decode_mint }

abbrev encode_token : TokenAccount → Bytes
encode_token v = v.mint ∷ v.owner ∷ v.amount ∷ flag v.is_initialized ∷ replicate 69 0

abbrev decode_token : Bytes → Option TokenAccount
decode_token (k ∷ o ∷ n ∷ i ∷ rest) =
    if length rest == 69
    then some (record { mint = k; owner = o; amount = n; is_initialized = i == 1 })
    else none
decode_token _ = none

abbrev token_codec : Codec TokenAccount
token_codec = record { encode = λ v. some (encode_token v); decode = decode_token }

token_reads : (a : TokenAccount) → decode_token (encode_token a) ≡ some a
token_reads a =
    ap
      (λ b. some (record { mint = a.mint; owner = a.owner; amount = a.amount; is_initialized = b }))
      (flag-eq a.is_initialized)

token_size : (a : TokenAccount) (b : Bytes) → decode_token b ≡ some a → length b ≡ token_account_len
token_size a [] e = cc
token_size a (_ ∷ []) e = cc
token_size a (_ ∷ _ ∷ []) e = cc
token_size a (_ ∷ _ ∷ _ ∷ []) e = cc
token_size a (_ ∷ _ ∷ _ ∷ _ ∷ rest) e = elim (Bool-cases (length rest == 69)) [
  | inl sized ↦ omega (arith, (==_iff (length rest) 69).0 sized)
  | inr unsized ↦ absurd (ground arith)
]

token_codec-IsExact : IsExact token_codec token_account_len
token_codec-IsExact = record {
  decode-encode =
      λ a b e. let same : encode_token a ≡ b = cc in ap decode_token (sym same) ∙ token_reads a;
  length-encode = λ a b e. let same : encode_token a ≡ b = cc in ap length (sym same);
  length-decode = token_size;
}

abbrev deps : TokenDeps Bytes
deps = record {
  decode_instruction = λ b. none;
  mints = mint_codec;
  token_accounts = token_codec;
  decode_rent = λ b. some b;
  is_exempt = λ rent balance size. true;
  encode_system = λ i. none;
}

abbrev tokens : ℕ → Account
tokens n = record (account 2 50) {
  contents = encode_token (record { mint = 7; owner = 1; amount = n; is_initialized = true });
}

abbrev supplied : ℕ → Account
supplied n = record (account 7 50) {
  contents =
      encode_mint (record { mint_authority = 1; supply = n; decimals = 0; is_initialized = true });
}

-- A mint of 40 tokens, of which two accounts hold 30 and 10.
abbrev ledger : ℕ → ℕ → ℕ → Machine
ledger s a b = machine (account 1 100 ∷ supplied s ∷ tokens a ∷ tokens b ∷ [])

abbrev signer : AccountInfo
signer = info 1 0 true

abbrev mint_of : AccountInfo
mint_of = info 7 1 false

process_transfer_pays :
    process_transfer deps 5 (signer ∷ info 2 2 false ∷ info 3 3 false ∷ []) (ledger 40 30 10)
    ≡ (ok tt, ledger 40 25 15)
unfolding process_transfer copy_front
process_transfer_pays = refl

process_transfer-held_example :
    held deps.token_accounts 7 (ledger 40 25 15).cells
    ≡ held deps.token_accounts 7 (ledger 40 30 10).cells
process_transfer-held_example =
    process_transfer-held deps token_codec-IsExact 5 signer (info 2 2 false) (info 3 3 false) [] 7
      (ledger 40 30 10) (ledger 40 25 15) (omega arith) (omega arith) process_transfer_pays

process_transfer_pays_itself :
    process_transfer deps 5 (signer ∷ info 2 2 false ∷ info 2 2 false ∷ []) (ledger 40 30 10)
    ≡ (ok tt, ledger 40 35 10)
unfolding process_transfer copy_front
process_transfer_pays_itself = refl

process_transfer_aliased_example :
    (t : TokenAccount) × (decoded deps.token_accounts (get_elem? (ledger 40 30 10).cells 2)
      ≡ some t)
    × (decoded deps.token_accounts (get_elem? (ledger 40 35 10).cells 2)
        ≡ some (record t { amount = saturating_add t.amount 5 }))
process_transfer_aliased_example =
    process_transfer_aliased deps token_codec-IsExact 5 signer (info 2 2 false) (info 2 2 false) []
      (ledger 40 30 10) (ledger 40 35 10) refl process_transfer_pays_itself

abbrev before : Mint
before = record { mint_authority = 1; supply = 40; decimals = 0; is_initialized = true }
