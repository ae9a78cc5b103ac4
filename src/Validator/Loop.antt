-- ===== src/Validator/Loop.antt =====
-- Rounds of the validator's loop, and transactions that arrive between them.
use tiny_solana.Common.{◌≡◌, refl, inl, inr, Bool, Option, List, [], ◌∷◌, Bool-cases, arith}
use tiny_solana.Common.Result.{Result, ok, err, panic}
use tiny_solana.Types.{Digest}
use tiny_solana.Accounts.Store.{AccountStore}
use tiny_solana.Transactions.{Transaction}
use tiny_solana.Transactions.Errors.{TransactionError}
use tiny_solana.AccountLocks as AccountLocks
use tiny_solana.AccountLocks.Release.{SameLocks}
use tiny_solana.CostModel.{CostModel}
use tiny_solana.Runtime.{Executor}
use tiny_solana.Banking.Recorder.{send}
use tiny_solana.Banking.Stage.{Stage, StageError}
use tiny_solana.Banking.Stage.Batch.{process_batch}
use tiny_solana.Banking.Stage.Loops.{HoldSame, HasRoom, HoldSame-trans, HoldSame-HasRoom}
use tiny_solana.Banking.Stage.Released.{process_batch-HoldSame}
use tiny_solana.Validator.{
  Status, running, exited, crashed, turn, handle, logged, receive, with_queue, new_stage,
}

-- The server or a requeue sends a transaction, or the loop takes a turn.
pub data Event : Type 0 where
  arrives : Transaction → Event
  takes_turn : (exit : Bool) → Event

module _ (execute : Executor) (sha256 : Digest) {S : Type 0} (ops : AccountStore S)
    (verify : Transaction → Result TransactionError (Unit {0})) (model : CostModel) where
  unfoldable pub apply : Event → Status × Stage S → Status × Stage S
  apply (arrives tx) (status, st) = (status, record st { tx_sender = send tx st.tx_sender })
  apply (takes_turn exit) (running, st) = turn execute sha256 ops verify model exit st
  apply (takes_turn exit) (exited, st) = (exited, st)
  apply (takes_turn exit) (crashed, st) = (crashed, st)

  unfoldable pub run : List Event → Status × Stage S → Status × Stage S
  run [] s = s
  run (e ∷ events) s = run events (apply e s)

  logged-stage :
      (r : Result StageError (List (Option TransactionError))) (st : Stage S)
      → (logged execute sha256 ops verify model (r, st)).1 ≡ st
  logged-stage (ok results) st = refl
  logged-stage (err e) st = refl
  logged-stage panic st = refl

  handle-HoldSame :
      (batch : List Transaction) (st : Stage S)
      → HasRoom st
      → HoldSame st (handle execute sha256 ops verify model batch st).1
  handle-HoldSame [] st room = ((λ k. (refl, refl)), refl)
  handle-HoldSame (tx ∷ batch) st room =
      let (r, st') = process_batch execute sha256 ops verify model (tx ∷ batch) st in
      rw (logged-stage r st')
        (process_batch-HoldSame execute sha256 ops verify model (tx ∷ batch) st room)

  apply-HoldSame : (e : Event) (s : Status × Stage S) → HasRoom s.1 → HoldSame s.1 (apply e s).1
  unfolding apply turn
  apply-HoldSame (arrives tx) (status, st) room = ((λ k. (refl, refl)), refl)
  apply-HoldSame (takes_turn exit) (running, st) room = elim (Bool-cases exit) [
    | inl e ↦ rw e ((λ k. (refl, refl)), refl)
    | inr e ↦
        let (batch, queue) = receive [] st.tx_sender.sent in
        rw e (
          handle-HoldSame batch (with_queue queue st)
            (record { counted = room.counted; readers = room.readers; freezers = room.freezers }))
  ]
  apply-HoldSame (takes_turn exit) (exited, st) room = ((λ k. (refl, refl)), refl)
  apply-HoldSame (takes_turn exit) (crashed, st) room = ((λ k. (refl, refl)), refl)

  run-HoldSame :
      (events : List Event) (s : Status × Stage S) → HasRoom s.1 → HoldSame s.1 (run events s).1
  unfolding run
  run-HoldSame [] s room = ((λ k. (refl, refl)), refl)
  run-HoldSame (e ∷ events) s room =
      let first = apply-HoldSame e s room in
      let next = apply e s in
      HoldSame-trans s.1 next.1 (run events next).1 first
        (run-HoldSame events next (HoldSame-HasRoom s.1 next.1 first room))

  -- In a validator that starts with a new stage over any store, however transactions arrive and the
  -- loop takes turns, before its next turn, and also after an exit or a crash, the same account
  -- locks are held as at the start, which are none, and no freeze lock is held.
  pub run-new_stage :
      (accounts : S) (events : List Event)
      → let st = (run events (running, new_stage accounts)).1 in
        SameLocks st.locks AccountLocks.new × (st.bank.freeze_lock_count ≡ 0)
  run-new_stage accounts events =
      run-HoldSame events (running, new_stage accounts)
        (record { counted = λ k. tt; readers = λ k. omega arith; freezers = omega arith })
