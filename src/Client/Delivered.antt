-- ===== src/Client/Delivered.antt =====
-- The client's transaction in a batch of its own: what the validator's store holds afterwards.
use tiny_solana.Common.{ℕ, suc, ◌≤◌, ◌≡◌, ◌≢◌, true, Option, none, some, [], ◌∷◌, ap, ◌∙◌}
use tiny_solana.Common.Result.{ok}
use tiny_solana.Types.{Pubkey, Hash, Bytes, Digest}
use tiny_solana.Types.Keys.{Ed25519, IsSound, Keypair, pubkey, sign_message}
use tiny_solana.Accounts.Store.{AccountStore, IsLawful, AlwaysStores}
use tiny_solana.Accounts.Overlay.{write_back_total}
use tiny_solana.Transactions.{Message, Transaction}
use tiny_solana.Transactions.Verify.{verify_signatures_sync}
use tiny_solana.Programs.Ids.{system_program_id}
use tiny_solana.Programs.System.{SystemInstruction}
use tiny_solana.Executors.{ExecutorDeps, executor}
use tiny_solana.AccountLocks.{new}
use tiny_solana.CostModel.{CostModel, calculate_cost, would_fit}
use tiny_solana.Bank.Lifecycle.{acquire_freeze_lock}
use tiny_solana.Bank.Processing.{check_preflight_rules}
use tiny_solana.Banking.Stage.{Stage}
use tiny_solana.Banking.Stage.Batch.{process_batch}
use tiny_solana.Banking.Stage.Outcome.{process_batch_single}
use tiny_solana.Client.{create_transfer_transaction}
use tiny_solana.Client.Signed.{
  Built-message, create_transfer_transaction_ok, Built-verify_signatures_sync,
}
use tiny_solana.Client.Paid.{
  found, transferred, after_transfer, transferred-load, IsKeyed, process_transfer_message,
}

module _ {SigningKey VerifyingKey Rent Executable : Type 0}
    (dalek : Ed25519 SigningKey VerifyingKey) (deps : ExecutorDeps Rent Executable)
    (encode_system : SystemInstruction → Option Bytes) (serialize : Message → Option Bytes)
    (sha256 : Digest) {S : Type 0} (ops : AccountStore S) where
  -- A transfer that the client built, in a batch of its own, is processed without an error, and then
  -- the payer holds the amount less, the receiver the amount more, capped at the largest `u64`, and
  -- every other key what it held, but for the system program's account, which is stored as it was
  -- loaded. The stage holds no locks and can send to the proof of history; the preflight rules accept
  -- the transaction and its cost fits into the block; the store is lawful, its writes succeed, and it
  -- holds every account under its own key; payer, receiver and system program are different keys,
  -- and the payer holds the amount. Ed25519 accepts what it signed, and instruction data is decoded
  -- to what was encoded.
  pub process_batch-create_transfer_transaction :
      IsSound dalek
      → ((i : SystemInstruction) (b : Bytes)
          → encode_system i ≡ some b
          → deps.decode_system b ≡ some i)
      → IsLawful ops
      → AlwaysStores ops
      → (depth : ℕ) (model : CostModel) (st : Stage S) (from : Keypair SigningKey) (to : Pubkey)
        (n : ℕ) (recent_blockhash : Hash) (tx : Transaction) (k : Pubkey)
      → create_transfer_transaction dalek encode_system serialize from to n recent_blockhash
        ≡ some tx
      → check_preflight_rules st.bank tx ≡ ok tt
      → would_fit st.tracker (calculate_cost model tx) ≡ ok tt
      → st.locks ≡ new
      → st.poh_record_sender.connected ≡ true
      → IsKeyed ops st.accounts
      → pubkey dalek from ≢ to
      → pubkey dalek from ≢ system_program_id
      → to ≢ system_program_id
      → n ≤ (found ops st.accounts (pubkey dalek from)).lamports
      → let r =
          process_batch
            (executor deps (suc depth))
            sha256
            ops
            (verify_signatures_sync serialize dalek.verifying_from dalek.verify_strict)
            model
            (tx ∷ [])
            st in
        let payer = pubkey dalek from in
        (r.0 ≡ ok (none ∷ []))
        × (ops.load r.1.accounts k ≡ after_transfer ops st.accounts payer to n k)
  unfolding check_preflight_rules acquire_freeze_lock
  process_batch-create_transfer_transaction sound inverse lawful always depth model st from to n
        recent_blockhash tx k made pre fits free connected keyed d1 d2 d3 funds =
      let payer = pubkey dalek from in
      let b =
        create_transfer_transaction_ok dalek encode_system serialize from to n recent_blockhash tx
          made in
      let entries = transferred ops st.accounts payer to n in
      let (s, written) = write_back_total ops always entries st.accounts in
      let ran =
        process_transfer_message deps ops depth _ n (acquire_freeze_lock st.bank) st.accounts
          st.program_cache payer to tx b.payload pre
          (Built-message dalek encode_system serialize from to n recent_blockhash tx b)
          (inverse _ _ b.encoded) keyed d1 d2 d3 funds in
      let (done, stored, _, _) =
        process_batch_single (executor deps (suc depth)) sha256 ops
          (verify_signatures_sync serialize dalek.verifying_from dalek.verify_strict) model tx st
          st.program_cache (sign_message dalek from b.bytes) [] _ s
          (Built-verify_signatures_sync dalek encode_system serialize sound from to n
            recent_blockhash tx b)
          fits free (ap (λ x. x.signatures) b.built) connected ran written in
      (
        done,
        ap (λ a. ops.load a k) stored
            ∙ transferred-load ops lawful st.accounts s payer to n k d1 d2 d3 written,
      )
