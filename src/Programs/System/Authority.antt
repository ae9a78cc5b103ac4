-- ===== src/Programs/System/Authority.antt =====
-- Whose accounts the system program changes.
use tiny_solana.Common.{
  ℕ, ◌-◌, ◌<◌, ◌≤◌, ◌≡◌, refl, inl, inr, Bool, false, not, ◌&&◌, ◌||◌, Option, none, some, List, [],
  ◌∷◌, arith, get_elem?, set, get_elem?-set, if◌then◌else◌, ltb, ◌==◌, Option-cases, Bool-cases,
  replicate, ◌^◌, ==_iff, map,
}
use tiny_solana.Common.Result.{Result, ok, err, panic}
use tiny_solana.Common.Word.{u64_mod, saturating_add}
use tiny_solana.Types.{Pubkey, Bytes}
use tiny_solana.Accounts.{Account}
use tiny_solana.Transactions.Errors.{ProgramError}
use tiny_solana.Runtime.{
  AccountInfo, InvokeContext, Machine, Action, set_data, set_owner, and_then, ◌>>=◌, ◌>>◌,
}
use tiny_solana.Programs.System.{
  SystemInstruction, transfer, assign, create_account, move_lamports, process_transfer,
  process_assign, zeroed, dispatch, process_create_account, entrypoint,
}

-- Some signer's info refers to the cell.
abbrev pub signed : ℕ → List AccountInfo → Bool
signed i [] = false
signed i (info ∷ infos) = (info.is_signer && info.account == i) || signed i infos

-- The cell still holds an account that has lost no lamports and keeps its owner and its data.
abbrev pub Keeps : Account → Option Account → Type 0
Keeps a none = ⊥
Keeps a (some b) = (a.lamports ≤ b.lamports) × (b.owner ≡ a.owner) × (b.contents ≡ a.contents)

Keeps-self : (a : Account) (o : Option Account) → o ≡ some a → Keeps a o
Keeps-self a o e = rw e (omega arith, refl, refl)

module _ (i : ℕ) (a : Account) where
  -- The receiving cell, which may be the one looked at.
  paid_to :
      (c : Account) (to amount : ℕ) (cells : List Account)
      → get_elem? cells to ≡ some c
      → get_elem? cells i ≡ some a
      → a.lamports < u64_mod
      → Keeps a (
          if to == i
          then some (record c { lamports = saturating_add c.lamports amount })
          else get_elem? cells i)
  paid_to c to amount cells ec e bounded = elim (Bool-cases (to == i)) [
    | inl here ↦
        let at_i : to ≡ i = (==_iff to i).0 here in
        let same : c ≡ a = cc in rw (here, same) (ground (arith, bounded))
    | inr there ↦ rw there (Keeps-self a _ e)
  ]

  move_lamports-Keeps :
      (from to : AccountInfo) (amount : ℕ) (m : Machine)
      → get_elem? m.cells i ≡ some a
      → a.lamports < u64_mod
      → (from.account == i) ≡ false
      → Keeps a (get_elem? (move_lamports from to amount m).1.cells i)
  unfolding move_lamports
  move_lamports-Keeps from to amount m e bounded ne =
      elim (Option-cases (get_elem? m.cells from.account)) [
        | inl none_from ↦ rw none_from (Keeps-self a _ e)
        | inr (b, eb) ↦
            let paid = record b { lamports = b.lamports - amount } in
            let cells = set m.cells from.account paid in
            let first = get_elem?-set m.cells from.account i paid b eb in
            elim (Option-cases (get_elem? cells to.account)) [
              | inl none_to ↦
                  let after : (move_lamports from to amount m).1.cells ≡ cells = ground arith in
                  let same : get_elem? cells i ≡ some a = ground arith in
                  rw after (Keeps-self a _ same)
              | inr (c, ec) ↦
                  let received = record c { lamports = saturating_add c.lamports amount } in
                  let second = get_elem?-set cells to.account i received c ec in
                  let after : (move_lamports from to amount m).1.cells
                      ≡ set cells to.account received =
                    ground arith in
                  rw (after, second) (paid_to c to.account amount cells ec (ground arith) bounded)
            ]
      ]

  set_data-Keeps :
      (info : AccountInfo) (b : Bytes) (m : Machine)
      → Keeps a (get_elem? m.cells i)
      → (info.account == i) ≡ false
      → Keeps a (get_elem? (set_data info b m).1.cells i)
  set_data-Keeps info b m k ne = elim (Option-cases (get_elem? m.cells info.account)) [
    | inl e ↦ rw e k
    | inr (x, e) ↦
        rw (e, get_elem?-set m.cells info.account i (record x { contents = b }) x e, ne) k
  ]

  set_owner-Keeps :
      (info : AccountInfo) (o : Pubkey) (m : Machine)
      → Keeps a (get_elem? m.cells i)
      → (info.account == i) ≡ false
      → Keeps a (get_elem? (set_owner info o m).1.cells i)
  set_owner-Keeps info o m k ne = elim (Option-cases (get_elem? m.cells info.account)) [
    | inl e ↦ rw e k
    | inr (x, e) ↦ rw (e, get_elem?-set m.cells info.account i (record x { owner = o }) x e, ne) k
  ]

  -- What follows the payment in `CreateAccount`.
  abbrev fill : AccountInfo → ℕ → Pubkey → Action (Unit {0})
  fill to space k = do bytes ← zeroed space; set_data to bytes; set_owner to k

  and_then-Keeps :
      {A B : Type 0} (r : Result ProgramError A) (f : A → Action B) (m : Machine)
      → Keeps a (get_elem? m.cells i)
      → ((x : A) → Keeps a (get_elem? (f x m).1.cells i))
      → Keeps a (get_elem? (and_then r f m).1.cells i)
  and_then-Keeps (ok x) f m k h = h x
  and_then-Keeps (err e) f m k h = k
  and_then-Keeps panic f m k h = k

  fill-Keeps :
      (to : AccountInfo) (space : ℕ) (o : Pubkey) (m : Machine)
      → Keeps a (get_elem? m.cells i)
      → (to.account == i) ≡ false
      → Keeps a (get_elem? (fill to space o m).1.cells i)
  fill-Keeps to space o m k ne = elim (Bool-cases (ltb space (2 ^ 63))) [
    | inl e ↦
        let b = replicate space 0 in
        let filled = set_data-Keeps to b m k ne in
        rw e (
          and_then-Keeps (set_data to b m).0 (λ _. set_owner to o) (set_data to b m).1 filled
            (λ _. set_owner-Keeps to o (set_data to b m).1 filled ne))
    | inr e ↦ rw e k
  ]

  process_transfer-Keeps :
      (amount : ℕ) (infos : List AccountInfo) (m : Machine)
      → get_elem? m.cells i ≡ some a
      → a.lamports < u64_mod
      → signed i infos ≡ false
      → Keeps a (get_elem? (process_transfer amount infos m).1.cells i)
  unfolding process_transfer
  process_transfer-Keeps amount [] m e bounded s = Keeps-self a _ e
  process_transfer-Keeps amount (from ∷ []) m e bounded s = Keeps-self a _ e
  process_transfer-Keeps amount (from ∷ to ∷ rest) m e bounded s =
      elim (Bool-cases from.is_signer) [
        | inl signer ↦
            let moved = move_lamports-Keeps from to amount m e bounded (ground arith) in
            let kept = Keeps-self a _ e in
            elim (Option-cases (get_elem? m.cells from.account)) [
              | inl eb ↦ rw (signer, eb) kept
              | inr (b, eb) ↦ elim (Bool-cases (ltb b.lamports amount)) [
                | inl poor ↦ rw (signer, eb, poor) kept
                | inr rich ↦ simp (signer, eb, rich) moved
              ]
            ]
        | inr other ↦ rw other (Keeps-self a _ e)
      ]

  process_assign-Keeps :
      (k : Pubkey) (infos : List AccountInfo) (m : Machine)
      → get_elem? m.cells i ≡ some a
      → signed i infos ≡ false
      → Keeps a (get_elem? (process_assign k infos m).1.cells i)
  unfolding process_assign
  process_assign-Keeps k [] m e s = Keeps-self a _ e
  process_assign-Keeps k (target ∷ rest) m e s = elim (Bool-cases target.is_signer) [
    | inl signer ↦ rw signer (set_owner-Keeps target k m (Keeps-self a _ e) (ground arith))
    | inr other ↦ rw other (Keeps-self a _ e)
  ]

  process_create_account-Keeps :
      (amount space : ℕ) (k : Pubkey) (infos : List AccountInfo) (m : Machine)
      → get_elem? m.cells i ≡ some a
      → a.lamports < u64_mod
      → signed i infos ≡ false
      → Keeps a (get_elem? (process_create_account amount space k infos m).1.cells i)
  unfolding process_create_account
  process_create_account-Keeps amount space k [] m e bounded s = Keeps-self a _ e
  process_create_account-Keeps amount space k (from ∷ []) m e bounded s = Keeps-self a _ e
  process_create_account-Keeps amount space k (from ∷ to ∷ rest) m e bounded s =
      elim (Bool-cases (not from.is_signer || not to.is_signer)) [
        | inl unsigned ↦ rw unsigned (Keeps-self a _ e)
        | inr both ↦
            let moved = move_lamports-Keeps from to amount m e bounded (ground arith) in
            let kept = Keeps-self a _ e in
            let after = (move_lamports from to amount m).1 in
            let filled = fill-Keeps to space k after moved (ground arith) in
            elim (Option-cases (get_elem? m.cells from.account)) [
              | inl eb ↦ rw (both, eb) kept
              | inr (b, eb) ↦ elim (Bool-cases (ltb b.lamports amount)) [
                | inl poor ↦ rw (both, eb, poor) kept
                | inr rich ↦
                    rw (both, eb, rich)
                      (and_then-Keeps (move_lamports from to amount m).0 (λ _. fill to space k)
                        after moved (λ _. filled))
              ]
            ]
      ]

-- However a call of the system program ends, an account that no signer's info refers to loses no
-- lamports and keeps its owner and its data. (Its lamports are a `u64`.)
pub entrypoint-Keeps :
    (decode : Bytes → Option SystemInstruction) (ctx : InvokeContext) (infos : List AccountInfo)
    (m : Machine) (i : ℕ) (a : Account)
    → get_elem? m.cells i ≡ some a
    → a.lamports < u64_mod
    → signed i infos ≡ false
    → Keeps a (get_elem? (entrypoint decode ctx infos m).1.cells i)
unfolding entrypoint
entrypoint-Keeps decode ctx infos m i a e bounded s = go (decode ctx.instruction_data)
  where
    go : (o : Option SystemInstruction) → Keeps a (get_elem? (dispatch o infos m).1.cells i)
    go none = Keeps-self a _ e
    go (some (transfer n)) = process_transfer-Keeps i a n infos m e bounded s
    go (some (assign k)) = process_assign-Keeps i a k infos m e s
    go (some (create_account n p k)) = process_create_account-Keeps i a n p k infos m e bounded s

abbrev pub read_only : AccountInfo → AccountInfo
read_only info = record info { is_writable = false }

-- The system program does not look at writability: with every account marked read-only it does the
-- same, transfers and changes of owner included.
pub entrypoint-read_only :
    (decode : Bytes → Option SystemInstruction) (ctx : InvokeContext) (infos : List AccountInfo)
    (m : Machine)
    → entrypoint decode ctx (map read_only infos) m ≡ entrypoint decode ctx infos m
unfolding entrypoint process_transfer process_assign process_create_account move_lamports
entrypoint-read_only decode ctx infos m = go (decode ctx.instruction_data) infos
  where
    go :
        (o : Option SystemInstruction) (infos : List AccountInfo)
        → dispatch o (map read_only infos) m ≡ dispatch o infos m
    go none infos = refl
    go (some (transfer n)) [] = refl
    go (some (transfer n)) (from ∷ []) = refl
    go (some (transfer n)) (from ∷ to ∷ rest) = refl
    go (some (assign k)) [] = refl
    go (some (assign k)) (target ∷ rest) = refl
    go (some (create_account n p k)) [] = refl
    go (some (create_account n p k)) (from ∷ []) = refl
    go (some (create_account n p k)) (from ∷ to ∷ rest) = refl
