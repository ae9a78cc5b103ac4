-- ===== src/Rpc/Handlers.antt =====
-- src/rpc/handlers.rs, src/rpc/error.rs and src/rpc/config.rs: the methods of the server.
use Prim.Native.String.{String, ◌++◌}
use tiny_solana.Common.{ℕ, Bool, false, Option, none, some, List, [], ◌∷◌, get_elem?}
use tiny_solana.Common.Result.{Result, ok, err, panic, ◌>>=◌, ok_or}
use tiny_solana.Common.Word.{wrapping_add}
use tiny_solana.Common.KeyMap.{KeyMap}
use tiny_solana.Types.{Pubkey, Signature, Bytes, default_hash}
use tiny_solana.Types.Text.{
  Base58, ParsePubkeyError, invalid_base58, invalid_length, from_str, to_string, signature_text,
}
use tiny_solana.Accounts.{Account}
use tiny_solana.Accounts.Store.{AccountStore}
use tiny_solana.Transactions.{Transaction}
use tiny_solana.Transactions.Errors.{ProgramError, AccountError}
use tiny_solana.Bank.Lifecycle.{Bank, BlockhashInfo, max_blockhash_queue_depth}
use tiny_solana.Banking.Recorder.{Channel}
use tiny_solana.Rpc.Json.{Json}

pub record RpcSendTransactionConfig : Type 0 where
  pub skip_preflight : Bool

pub data RpcError : Type 0 where
  invalid_params : String → RpcError
  internal_error : String → RpcError
  send_transaction_preflight_failure : (message : String) → RpcError

-- `Display for RpcError`
unfoldable pub rpc_error_text : RpcError → String
rpc_error_text (invalid_params s) = "invalid params: " ++ s
rpc_error_text (internal_error s) = "internal error: " ++ s
rpc_error_text (send_transaction_preflight_failure message) =
    "transaction simulation failed: " ++ message

-- What the handlers take from base64, bincode and the standard library: codecs, with the text of a
-- decoder's error, and texts of numbers and of derived `Debug`.
pub record RpcDeps : Type 0 where
  pub base58 : Base58
  pub base64_encode : Bytes → String
  pub base64_decode : String → Result String Bytes
  pub serialize : Transaction → Option Bytes
  pub deserialize : Bytes → Result String Transaction
  pub number_text : ℕ → String
  pub account_error_text : AccountError → String
  pub program_error_text : ProgramError → String
  pub send_error_text : String

-- `RpcState`, with the store and the executor's program cache that the bank refers to.
pub record RpcState (S : Type 0) : Type 0 where
  pub bank : Bank
  pub accounts : S
  pub program_cache : KeyMap Bytes
  pub tx_sender : Channel Transaction

pub record JsonRpcRequest (V : Type 0) : Type 0 where
  pub jsonrpc : String
  pub method : String
  pub params : V
  pub id : V

pub record JsonRpcResponse (V : Type 0) : Type 0 where
  pub jsonrpc : String
  pub result : V
  pub id : V

-- `map_err(|e| RpcError::InvalidParams(format!("…{}", e)))`
abbrev pub or_invalid : {A : Type 0} → String → Result String A → Result RpcError A
or_invalid what (ok a) = ok a
or_invalid what (err e) = err (invalid_params (what ++ e))
or_invalid what panic = panic

abbrev pub back : List BlockhashInfo → Option BlockhashInfo
back [] = none
back (x ∷ []) = some x
back (x ∷ y ∷ q) = back (y ∷ q)

module _ {V : Type 0} (json : Json V) (deps : RpcDeps) where
  abbrev pub flag_or_false : Option Bool → RpcSendTransactionConfig
  flag_or_false none = record { skip_preflight = false }
  flag_or_false (some b) = record { skip_preflight = b }

  -- The config, from the second parameter if there is one.
  abbrev pub read_config : Option V → Result RpcError RpcSendTransactionConfig
  read_config none = ok (record { skip_preflight = false })
  read_config (some v) = do
    flag ← or_invalid "param 1 (config) is invalid: " (json.read_flag v "skipPreflight")
    ok (flag_or_false flag)

  abbrev pub first : List V → Result RpcError V
  first [] = err (invalid_params "params array is empty")
  first (v ∷ _) = ok v

  -- What `handle_send_transaction` reads from its parameters.
  unfoldable pub read_transaction : V → Result RpcError (RpcSendTransactionConfig × Transaction)
  read_transaction params = do
    params_array ← or_invalid "params must be an array: " (json.read_array params)
    param ← first params_array
    tx_data_str ← or_invalid "param 0 (transaction) must be a string: " (json.read_string param)
    config ← read_config (get_elem? params_array 1)
    tx_bytes ← or_invalid "invalid base64: " (deps.base64_decode tx_data_str)
    tx ← or_invalid "failed to deserialize transaction: " (deps.deserialize tx_bytes)
    ok (config, tx)

  -- `signatures.get(0).map(|s| s.to_string()).unwrap_or_default()`
  abbrev pub signature_or_default : List Signature → String
  signature_or_default [] = ""
  signature_or_default (s ∷ _) = signature_text deps.base58 s

  abbrev pub parse_error_text : ParsePubkeyError → String
  parse_error_text invalid_base58 = "invalid base58 string"
  parse_error_text (invalid_length n) = "invalid length: expected 32, got " ++ deps.number_text n

  abbrev pub or_parse_error : Result ParsePubkeyError Pubkey → Result RpcError Pubkey
  or_parse_error (ok k) = ok k
  or_parse_error (err e) = err (invalid_params (parse_error_text e))
  or_parse_error panic = panic

  -- The key that `handle_get_balance` and `handle_get_account_info` are asked for.
  unfoldable pub read_pubkey : V → Result RpcError Pubkey
  read_pubkey params = do
    pubkey_str ←
        ok_or (json.as_str (json.index params 0)) (invalid_params "param 0 must be a string")
    or_parse_error (from_str deps.base58 pubkey_str)

  -- `From<Account> for RpcAccount`, as its value
  abbrev pub rpc_account : Account → V
  rpc_account a = json.object (
      ("lamports", json.number a.lamports)
      ∷ ("data", json.string (deps.base64_encode a.contents))
      ∷ ("owner", json.string (to_string deps.base58 a.owner))
      ∷ ("executable", json.boolean a.executable)
      ∷ ("rentEpoch", json.number a.rent_epoch)
      ∷ [])

  abbrev pub account_or_null : Option Account → V
  account_or_null none = json.null
  account_or_null (some a) = rpc_account a

  abbrev pub lamports_or_zero : Option Account → ℕ
  lamports_or_zero none = 0
  lamports_or_zero (some a) = a.lamports

  abbrev pub blockhash_value : Option BlockhashInfo → V
  blockhash_value (some info) = json.object (
      ("blockhash", json.string (to_string deps.base58 info.hash))
      ∷ (
        "lastValidBlockHeight",
        json.number (wrapping_add info.created_at_slot max_blockhash_queue_depth),
      )
      ∷ [])
  blockhash_value none = json.object (
      ("blockhash", json.string (to_string deps.base58 default_hash))
      ∷ ("lastValidBlockHeight", json.number 0)
      ∷ [])

  module _ {S : Type 0} (ops : AccountStore S) where
    unfoldable pub handle_get_balance : RpcState S → V → Result RpcError V
    handle_get_balance state params = do
      pubkey ← read_pubkey params
      ok (json.number (lamports_or_zero (ops.load state.accounts pubkey)))

    unfoldable pub handle_get_account_info : RpcState S → V → Result RpcError V
    handle_get_account_info state params = do
      pubkey ← read_pubkey params
      ok (account_or_null (ops.load state.accounts pubkey))

    unfoldable pub handle_get_latest_blockhash : RpcState S → Result RpcError V
    handle_get_latest_blockhash state = ok (blockhash_value (back state.bank.blockhash_queue))
