-- ===== src/Banking/Recorder.antt =====
-- src/tx_recorder.rs: the hash of a group of transactions, sent to the proof of history.
use tiny_solana.Common.{ℕ, Bool, List, [], ◌∷◌, ◌++◌, if◌then◌else◌}
use tiny_solana.Common.Result.{Result, ok, err, panic, ◌>>=◌}
use tiny_solana.Common.Digits.{be_bytes}
use tiny_solana.Types.{Hash, Signature, Bytes, Digest}
use tiny_solana.Transactions.{Transaction}
use tiny_solana.Poh.{PohError}

pub data RecorderError : Type 0 where
  poh : PohError → RecorderError
  send_error : RecorderError

-- `&tx.signatures[0].0`, which panics where there is none.
abbrev pub first_signature : List Signature → Result RecorderError Bytes
first_signature [] = panic
first_signature (s ∷ _) = ok (be_bytes 64 s)

-- What the hasher is fed.
unfoldable pub signature_bytes : List (ℕ × Transaction) → Result RecorderError Bytes
signature_bytes [] = ok []
signature_bytes ((_, tx) ∷ txs) = do
  first ← first_signature tx.signatures
  rest ← signature_bytes txs
  ok (first ++ rest)

-- The channel to the proof of history: whether it is connected, and what it was sent.
pub record Channel (A : Type 0) : Type 0 where
  pub connected : Bool
  pub sent : List A

abbrev pub send : {A : Type 0} → A → Channel A → Channel A
send a c = if c.connected then record c { sent = c.sent ++ a ∷ [] } else c

module _ (sha256 : Digest) where
  abbrev pub send_hash :
      Result RecorderError Bytes → Channel Hash → Result RecorderError (Unit {0}) × Channel Hash
  send_hash (ok bytes) c = (if c.connected then ok tt else err send_error, send (sha256 bytes) c)
  send_hash (err e) c = (err e, c)
  send_hash panic c = (panic, c)

  -- `TransactionRecorder::record_transactions`
  unfoldable pub record_transactions :
      List (ℕ × Transaction) → Channel Hash → Result RecorderError (Unit {0}) × Channel Hash
  record_transactions [] c = (ok tt, c)
  record_transactions (tx ∷ txs) c = send_hash (signature_bytes (tx ∷ txs)) c
