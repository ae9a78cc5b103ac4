-- ===== src/Validator/Journey.antt =====
-- A transfer from the client's request to the client's next question: src/bin/client.rs with the
-- server and the loop of src/main.rs.
use Prim.Native.String.{String}
use tiny_solana.Common.{
  ℕ, suc, ◌^◌, ◌<◌, ◌≤◌, ◌≡◌, ◌≢◌, ap, ◌∙◌, true, false, Option, none, some, List, [], ◌∷◌, arith,
}
use tiny_solana.Common.Result.{Result, ok}
use tiny_solana.Common.Word.{saturating_add, u64_mod}
use tiny_solana.Types.{Pubkey, Hash, Bytes, Digest}
use tiny_solana.Types.Text.{IsInverse}
use tiny_solana.Types.Keys.{Ed25519, IsSound, Keypair, pubkey}
use tiny_solana.Accounts.Store.{AccountStore, IsLawful, AlwaysStores}
use tiny_solana.Transactions.{Message, Transaction}
use tiny_solana.Transactions.Verify.{verify_signatures_sync}
use tiny_solana.Programs.Ids.{system_program_id}
use tiny_solana.Programs.System.{SystemInstruction, transfer}
use tiny_solana.Executors.{ExecutorDeps, executor}
use tiny_solana.AccountLocks.{new}
use tiny_solana.CostModel.{CostModel, calculate_cost, would_fit}
use tiny_solana.Bank.Processing.{check_preflight_rules}
use tiny_solana.Banking.Recorder.{send}
use tiny_solana.Runtime.{Executor}
use tiny_solana.Transactions.Errors.{TransactionError}
use tiny_solana.Banking.Stage.{Stage}
use tiny_solana.Banking.Stage.Batch.{process_batch}
use tiny_solana.Rpc.Json.{Json, IsJson}
use tiny_solana.Rpc.Handlers.{RpcDeps, RpcState, lamports_or_zero}
use tiny_solana.Rpc.Wire.{serve}
use tiny_solana.Client.{create_transfer_transaction}
use tiny_solana.Client.Signed.{create_transfer_transaction_ok, Built-message}
use tiny_solana.Client.Paid.{after_transfer-to, found, IsKeyed, simulate_transfer_message}
use tiny_solana.Client.Delivered.{process_batch-create_transfer_transaction}
use tiny_solana.Client.Requests.{ClientError, send_transaction, get_balance}
use tiny_solana.Client.Answered.{send_transaction-serve, get_balance-serve}
use tiny_solana.Validator.{running, turn, receive, handle, logged, with_queue}

-- What the server sees of the stage, and the stage after the server has worked on it.
abbrev pub rpc_of : {S : Type 0} → Stage S → RpcState S
rpc_of st = record {
  bank = st.bank;
  accounts = st.accounts;
  program_cache = st.program_cache;
  tx_sender = st.tx_sender;
}

abbrev pub with_rpc : {S : Type 0} → RpcState S → Stage S → Stage S
with_rpc r st = record st {
  bank = r.bank;
  accounts = r.accounts;
  program_cache = r.program_cache;
  tx_sender = r.tx_sender;
}

-- A turn that finds one transaction in the queue, whose batch succeeds.
turn_one :
    (execute : Executor) (sha256 : Digest) {S : Type 0} (ops : AccountStore S)
    (verify : Transaction → Result TransactionError (Unit {0})) (model : CostModel) (st : Stage S)
    (tx : Transaction) (results : List (Option TransactionError))
    → st.tx_sender.sent ≡ tx ∷ []
    → (process_batch execute sha256 ops verify model (tx ∷ []) (with_queue [] st)).0 ≡ ok results
    → turn execute sha256 ops verify model false st
      ≡ (running, (process_batch execute sha256 ops verify model (tx ∷ []) (with_queue [] st)).1)
unfolding turn receive
turn_one execute sha256 ops verify model st tx results queue done =
    let p = process_batch execute sha256 ops verify model (tx ∷ []) (with_queue [] st) in
    ap
      (λ q.
        handle execute sha256 ops verify model (receive [] q).0 (with_queue (receive [] q).1 st))
      queue
    ∙ ap (λ r. logged execute sha256 ops verify model (r, p.1)) done

module _ {SigningKey VerifyingKey Rent Executable V : Type 0}
    (dalek : Ed25519 SigningKey VerifyingKey) (deps : ExecutorDeps Rent Executable)
    (encode_system : SystemInstruction → Option Bytes) (serialize : Message → Option Bytes)
    (sha256 : Digest) {S : Type 0} (ops : AccountStore S) (json : Json V) (rpc : RpcDeps) where
  -- The client sends a transfer that it built, the loop takes its turn, and the client asks for the
  -- receiver's balance: the loop goes on, and the answer is the receiver's lamports before plus the
  -- amount, capped at the largest `u64`. The stage holds no locks and its queue is empty and
  -- connected, as is the channel to the proof of history; the preflight rules accept the transaction
  -- and its cost fits into the block; the store is lawful, its writes succeed, and it holds every
  -- account under its own key; payer, receiver and system program are different keys, the
  -- receiver's has 32 bytes, and the payer holds the amount. Of the libraries, ed25519 accepts what
  -- it signed, JSON and base58 read back what was written, and so do the codecs at this transaction.
  pub send_transaction-get_balance :
      IsSound dalek
      → ((i : SystemInstruction) (b : Bytes)
          → encode_system i ≡ some b
          → deps.decode_system b ≡ some i)
      → IsLawful ops
      → AlwaysStores ops
      → IsJson json
      → IsInverse rpc.base58
      → (depth : ℕ) (model : CostModel) (st : Stage S) (from : Keypair SigningKey) (to : Pubkey)
        (n : ℕ) (recent_blockhash : Hash) (tx : Transaction) (b : Bytes)
      → create_transfer_transaction dalek encode_system serialize from to n recent_blockhash
        ≡ some tx
      → rpc.serialize tx ≡ some b
      → rpc.deserialize b ≡ ok tx
      → rpc.base64_decode (rpc.base64_encode b) ≡ ok b
      → check_preflight_rules st.bank tx ≡ ok tt
      → would_fit st.tracker (calculate_cost model tx) ≡ ok tt
      → st.locks ≡ new
      → st.tx_sender ≡ record { connected = true; sent = [] }
      → st.poh_record_sender.connected ≡ true
      → IsKeyed ops st.accounts
      → pubkey dalek from ≢ to
      → pubkey dalek from ≢ system_program_id
      → to ≢ system_program_id
      → to < 256 ^ 32
      → n ≤ (found ops st.accounts (pubkey dalek from)).lamports
      → let execute = executor deps (suc depth) in
        let (sent, r) =
          send_transaction json
            (serve json rpc execute ops)
            rpc.base64_encode
            rpc.serialize
            tx
            (rpc_of st) in
        let (status, st') =
          turn execute sha256 ops
            (verify_signatures_sync serialize dalek.verifying_from dalek.verify_strict)
            model
            false
            (with_rpc r st) in
        let (balance, _) =
          get_balance json (serve json rpc execute ops) rpc.base58 to (rpc_of st') in
        (status ≡ running) × (balance ≡ ok (saturating_add (found ops st.accounts to).lamports n))
  send_transaction-get_balance sound inverse lawful always is_json base58 depth model st from to n
        recent_blockhash tx b made e1 e2 e3 pre fits free queue connected keyed d1 d2 d3 small
        funds =
      let execute = executor deps (suc depth) in
      let payer = pubkey dalek from in
      let verify = verify_signatures_sync serialize dalek.verifying_from dalek.verify_strict in
      let built =
        create_transfer_transaction_ok dalek encode_system serialize from to n recent_blockhash tx
          made in
      let simulated =
        simulate_transfer_message deps ops depth n st.accounts st.program_cache payer to tx
          built.payload
          (Built-message dalek encode_system serialize from to n recent_blockhash tx built)
          (inverse (transfer n) built.payload built.encoded) d1 funds in
      let open_ : st.tx_sender.connected ≡ true = ap (λ c. c.connected) queue in
      let asked =
        send_transaction-serve json is_json rpc execute ops tx b st.program_cache (rpc_of st) e1 e2
          e3 simulated open_ in
      let received : Stage S =
        with_rpc (record (rpc_of st) { tx_sender = send tx st.tx_sender }) st in
      let queued : received.tx_sender.sent ≡ tx ∷ [] = ap (λ c. (send tx c).sent) queue in
      let (done, stored) =
        process_batch-create_transfer_transaction dalek deps encode_system serialize sha256 ops
          sound inverse lawful always depth model (with_queue [] received) from to n
          recent_blockhash tx to made pre fits free connected keyed d1 d2 d3 funds in
      let u =
        (process_batch execute sha256 ops verify model (tx ∷ []) (with_queue [] received)).1 in
      let turned = turn_one execute sha256 ops verify model received tx (none ∷ []) queued done in
      let whole =
        ap
          (λ (p : Result ClientError String × RpcState S).
            turn execute sha256 ops verify model false (with_rpc p.1 st))
          asked
        ∙ turned in
      let paid : lamports_or_zero json rpc (ops.load u.accounts to)
          ≡ saturating_add (found ops st.accounts to).lamports n =
        ap (lamports_or_zero json rpc) (stored ∙ after_transfer-to ops st.accounts payer to n d1) in
      let within : lamports_or_zero json rpc (ops.load u.accounts to) < u64_mod =
        rw paid (ground arith) in
      let answer =
        get_balance-serve json is_json rpc execute ops base58 to (rpc_of u) small within in
      (
        ap (λ p. p.0) whole,
        ap (λ p. (get_balance json (serve json rpc execute ops) rpc.base58 to (rpc_of p.1)).0) whole
            ∙ ap (λ p. p.0) answer
            ∙ ap ok paid,
      )
