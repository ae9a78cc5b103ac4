-- ===== src/Bank/Blockhashes.antt =====
-- The queue of recent blockhashes over the chain of banks.
use tiny_solana.Common.{
  ℕ, ◌+◌, ◌<◌, ◌≤◌, ◌≡◌, refl, inl, inr, Bool, true, false, ◌||◌, Option, List, [], ◌∷◌, ◌++◌,
  arith, ltb, ◌==◌, length, length-append, if◌then◌else◌, Bool-cases,
}
use tiny_solana.Common.Result.{Result, ok, err, panic}
use tiny_solana.Common.Word.{u64_mod, wrapping_add}
use tiny_solana.Types.{Hash}
use tiny_solana.Transactions.{Transaction}
use tiny_solana.Transactions.Errors.{
  internal_error, TransactionError, program_error, blockhash_not_found,
}
use tiny_solana.Bank.Lifecycle.{
  Bank, BlockhashInfo, new, child, pop_front, hash, freeze, new_from_parent, acquire_freeze_lock,
  drop_freeze_lock, record_transaction_metrics,
}
use tiny_solana.Bank.Processing.{find, check_age, check_preflight_rules}

-- Some entry of the queue has the hash.
abbrev pub is_known : Hash → List BlockhashInfo → Bool
is_known h [] = false
is_known h (x ∷ q) = x.hash == h || is_known h q

-- Every hash of the queue was created as many slots ago as there are later hashes, and one, at most.
abbrev pub AreRecent : ℕ → List BlockhashInfo → Type 0
AreRecent slot [] = Unit
AreRecent slot (x ∷ q) = (slot ≤ x.created_at_slot + length q + 1) × AreRecent slot q

pub record IsChained (b : Bank) : Type 0 where
  pub depth : length b.blockhash_queue ≤ 150
  pub recent : AreRecent b.slot b.blockhash_queue
  pub slot_within : b.slot < u64_mod

AreRecent-push :
    (slot : ℕ) (q : List BlockhashInfo) (h : Hash)
    → AreRecent slot q
    → AreRecent (slot + 1) (q ++ record { hash = h; created_at_slot = slot } ∷ [])
AreRecent-push slot [] h r = (omega arith, tt)
AreRecent-push slot (x ∷ q) h r = (
  omega (arith, length-append q (record { hash = h; created_at_slot = slot } ∷ [])),
  AreRecent-push slot q h r.1,
)

AreRecent-pop_front :
    (slot : ℕ) (q : List BlockhashInfo) → AreRecent slot q → AreRecent slot (pop_front q)
AreRecent-pop_front slot [] r = tt
AreRecent-pop_front slot (x ∷ q) r = r.1

length-pop_front : (q : List BlockhashInfo) {n : ℕ} → length q ≤ n + 1 → length (pop_front q) ≤ n
length-pop_front [] h = omega arith
length-pop_front (x ∷ q) h = omega arith

-- What is left of a queue that is one too long at most.
capped :
    (slot : ℕ) (q : List BlockhashInfo)
    → length q ≤ 151
    → AreRecent slot q
    → let q' = if ltb 150 (length q) then pop_front q else q in
      (length q' ≤ 150) × AreRecent slot q'
capped slot q len r = elim (Bool-cases (ltb 150 (length q))) [
  | inl long ↦ rw long (length-pop_front q len, AreRecent-pop_front slot q r)
  | inr short ↦ rw short (ground arith, r)
]

child-IsChained : (b : Bank) → IsChained b → b.slot + 1 < u64_mod → IsChained (child b)
child-IsChained b c room =
    let info : BlockhashInfo = record { hash = hash b; created_at_slot = b.slot } in
    let q = b.blockhash_queue ++ info ∷ [] in
    let slot : wrapping_add b.slot 1 ≡ b.slot + 1 = omega arith in
    let (depth, recent) =
      capped (b.slot + 1) q (omega (arith, length-append b.blockhash_queue (info ∷ []), c.depth))
        (AreRecent-push b.slot b.blockhash_queue (hash b) c.recent) in
    record { depth = depth; recent = rw slot recent; slot_within = rw slot room }

-- Freezing changes neither the queue nor the slot, and gives the bank a final hash for good.
pub freeze_ok :
    (root : Option Hash) (b b' : Bank)
    → freeze root b ≡ ok b'
    → (b.freeze_lock_count ≡ 0)
      × (b'.blockhash_queue ≡ b.blockhash_queue)
      × (b'.slot ≡ b.slot)
      × (b'.is_frozen ≡ true)
      × (b'.freeze_lock_count ≡ 0)
unfolding freeze
freeze_ok root b b' e = ground arith

-- One event in the life of the banks of a chain: what happens to the newest bank, or its
-- replacement by a child. The slot stays that of a `u64`.
pub data Step (b c : Bank) : Type 0 where
  froze : (root : Option Hash) → freeze root b ≡ ok c → Step b c
  had_child :
      (root : Option Hash) (parent : Bank)
      → b.slot + 1 < u64_mod
      → new_from_parent root b ≡ ok (parent, c)
      → Step b c
  locked : c ≡ acquire_freeze_lock b → Step b c
  unlocked : c ≡ drop_freeze_lock b → Step b c
  counted : (r : Result TransactionError (Unit {0})) → c ≡ record_transaction_metrics r b → Step b c

pub data Reach : Bank → Type 0 where
  initial : Reach new
  next : {b c : Bank} → Reach b → Step b c → Reach c

same-IsChained :
    (b c : Bank)
    → c.blockhash_queue ≡ b.blockhash_queue
    → c.slot ≡ b.slot
    → IsChained b
    → IsChained c
same-IsChained b c q s h = record {
  depth = rw q h.depth;
  recent = rw (q, s) h.recent;
  slot_within = rw s h.slot_within;
}

record_transaction_metrics-same :
    (r : Result TransactionError (Unit {0})) (b : Bank)
    → ((record_transaction_metrics r b).blockhash_queue ≡ b.blockhash_queue)
      × ((record_transaction_metrics r b).slot ≡ b.slot)
unfolding record_transaction_metrics
record_transaction_metrics-same (ok _) b = (refl, refl)
record_transaction_metrics-same (err e) b = (refl, refl)
record_transaction_metrics-same panic b = (refl, refl)

new_from_parent_ok :
    (root : Option Hash) (b p c : Bank)
    → new_from_parent root b ≡ ok (p, c)
    → (freeze root b ≡ ok p) × (c ≡ child p)
unfolding new_from_parent
new_from_parent_ok root b p c e = ground arith

Step-IsChained : (b c : Bank) → Step b c → IsChained b → IsChained c
unfolding acquire_freeze_lock drop_freeze_lock
Step-IsChained b c (froze root e) h = let f = freeze_ok root b c e in same-IsChained b c f.1 f.2 h
Step-IsChained b c (had_child root p room e) h =
    let (frozen, q) = new_from_parent_ok root b p c e in
    let f = freeze_ok root b p frozen in
    rw q (child-IsChained p (same-IsChained b p f.1 f.2 h) (rw f.2 room))
Step-IsChained b c (locked e) h = rw e (same-IsChained b _ refl refl h)
Step-IsChained b c (unlocked e) h = rw e (same-IsChained b _ refl refl h)
Step-IsChained b c (counted r e) h =
    let (q, s) = record_transaction_metrics-same r b in rw e (same-IsChained b _ q s h)

Reach-IsChained : {b : Bank} → Reach b → IsChained b
Reach-IsChained initial = record {
  depth = omega arith;
  recent = (omega arith, tt);
  slot_within = omega arith;
}
Reach-IsChained (next {b} {c} r st) = Step-IsChained b c st (Reach-IsChained r)

-- A hash that is found in a recent queue has not expired.
find-check_age :
    (slot : ℕ) (h : Hash) (q : List BlockhashInfo)
    → length q ≤ 150
    → AreRecent slot q
    → slot < u64_mod
    → check_age slot (find h q) ≡ (if is_known h q then ok tt else err blockhash_not_found)
find-check_age slot h [] len r within = refl
find-check_age slot h (x ∷ q) len r within = elim (Bool-cases (x.hash == h)) [
  | inl found ↦ rw found (ground arith)
  | inr other ↦ rw other (find-check_age slot h q (omega arith) r.1 within)
]

-- For a bank of a chain that began with `Bank::new` and whose slots stay those of a `u64`, the
-- preflight rules accept a transaction exactly if the bank is not frozen and the transaction's
-- blockhash is in the bank's queue; in particular they never find a blockhash expired. The queue
-- holds 150 hashes at most.
pub check_preflight_rules-Reach :
    (tx : Transaction) {b : Bank}
    → Reach b
    → (check_preflight_rules b tx ≡ (
        if b.is_frozen
        then err (program_error (internal_error "bank is frozen"))
        else if is_known tx.message.recent_blockhash b.blockhash_queue
        then ok tt
        else err blockhash_not_found))
      × (length b.blockhash_queue ≤ 150)
unfolding check_preflight_rules
check_preflight_rules-Reach tx {b} r =
    let c = Reach-IsChained r in
    let age =
      find-check_age b.slot tx.message.recent_blockhash b.blockhash_queue c.depth c.recent
        c.slot_within in
    (rw age refl, c.depth)
