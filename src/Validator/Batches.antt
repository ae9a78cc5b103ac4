-- ===== src/Validator/Batches.antt =====
-- What the loop takes from the queue.
use mathlib.Core.List.{append-nil, append_assoc}
use tiny_solana.Common.{
  ℕ, zero, suc, ◌+◌, ◌≡◌, refl, ap, ◌∙◌, List, [], ◌∷◌, ◌++◌, length, length-append, take, drop,
  leb, true, false, arith,
}
use tiny_solana.Transactions.{Transaction}
use tiny_solana.Validator.{receive, batch_size_limit}

receive_from :
    (queue received : List Transaction) (n : ℕ)
    → length received + suc n ≡ batch_size_limit
    → receive received queue ≡ (received ++ take (suc n) queue, drop (suc n) queue)
unfolding receive
receive_from [] received n e = rw append-nil refl
receive_from (tx ∷ queue) received zero e =
    let full : leb batch_size_limit (length (received ++ tx ∷ [])) ≡ true =
      ground (arith, length-append received (tx ∷ [])) in
    rw full refl
receive_from (tx ∷ queue) received (suc n) e =
    let more = length-append received (tx ∷ []) in
    let room : leb batch_size_limit (length (received ++ tx ∷ [])) ≡ false = ground (arith, more) in
    rw room (
      receive_from queue (received ++ tx ∷ []) n (omega (arith, more))
      ∙ ap (λ l. (l, drop (suc n) queue)) (append_assoc received (tx ∷ []) (take (suc n) queue)))

-- The loop takes the oldest transactions of the queue, as many as there are up to 128, in their
-- order, and leaves the others in theirs.
pub receive-take :
    (queue : List Transaction)
    → receive [] queue ≡ (take batch_size_limit queue, drop batch_size_limit queue)
receive-take queue = receive_from queue [] 127 refl
