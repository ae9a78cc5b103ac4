-- ===== src/Programs/System/Effects.antt =====
-- What the system program does to the cells.
use tiny_solana.Common.{
  ℕ, ◌-◌, ◌<◌, ◌≤◌, ◌≡◌, refl, inl, inr, not, ◌||◌, Option, none, some, List, [], ◌∷◌, arith,
  get_elem?, set, length, length-set, ltb, Option-cases, Bool-cases, replicate, ◌∙◌, ◌^◌,
}
use tiny_solana.Common.Result.{Result, ok, err, panic}
use tiny_solana.Common.Word.{u64_mod, saturating_add}
use tiny_solana.Types.{Pubkey, Bytes}
use tiny_solana.Accounts.{Account}
use tiny_solana.Transactions.Errors.{ProgramError}
use tiny_solana.Runtime.{
  AccountInfo, InvokeContext, Machine, Action, set_data, set_owner, and_then, ◌>>=◌, ◌>>◌,
}
use tiny_solana.Runtime.Cells.{total, total-set, lamports-le-total, HaveCells, get_elem?-some}
use tiny_solana.Programs.System.{
  SystemInstruction, transfer, assign, create_account, move_lamports, process_transfer,
  process_assign, zeroed, dispatch, process_create_account, entrypoint,
}

-- Paying from one cell to another, which may be the same one, keeps the sum.
move_lamports-total :
    (from to : AccountInfo) (amount : ℕ) (m : Machine) (a : Account)
    → get_elem? m.cells from.account ≡ some a
    → amount ≤ a.lamports
    → to.account < length m.cells
    → total m.cells < u64_mod
    → ((move_lamports from to amount m).0 ≡ ok tt)
      × (total (move_lamports from to amount m).1.cells ≡ total m.cells)
unfolding move_lamports
move_lamports-total from to amount m a ea enough to_cell bounded =
    let paid = record a { lamports = a.lamports - amount } in
    let cells = set m.cells from.account paid in
    let (b, eb) =
      get_elem?-some cells to.account (omega (arith, length-set m.cells from.account paid)) in
    let received = record b { lamports = saturating_add b.lamports amount } in
    let first = total-set m.cells from.account a paid ea in
    let second = total-set cells to.account b received eb in
    let bound = lamports-le-total cells to.account b eb in ground arith

process_transfer-total :
    (amount : ℕ) (infos : List AccountInfo) (m : Machine)
    → HaveCells infos m.cells
    → total m.cells < u64_mod
    → total (process_transfer amount infos m).1.cells ≡ total m.cells
unfolding process_transfer
process_transfer-total amount [] m h bounded = refl
process_transfer-total amount (from ∷ []) m h bounded = refl
process_transfer-total amount (from ∷ to ∷ _) m h bounded =
    let (a, ea) = get_elem?-some m.cells from.account h.0 in
    ground (
      arith,
      λ (enough : amount ≤ a.lamports).
          move_lamports-total from to amount m a ea enough h.1.0 bounded,
    )

set_data-total :
    (info : AccountInfo) (b : Bytes) (m : Machine)
    → total (set_data info b m).1.cells ≡ total m.cells
set_data-total info b m = elim (Option-cases (get_elem? m.cells info.account)) [
  | inl e ↦ ground arith
  | inr (a, e) ↦ ground (arith, total-set m.cells info.account a (record a { contents = b }) e)
]

set_owner-total :
    (info : AccountInfo) (k : Pubkey) (m : Machine)
    → total (set_owner info k m).1.cells ≡ total m.cells
set_owner-total info k m = elim (Option-cases (get_elem? m.cells info.account)) [
  | inl e ↦ ground arith
  | inr (a, e) ↦ ground (arith, total-set m.cells info.account a (record a { owner = k }) e)
]

process_assign-total :
    (k : Pubkey) (infos : List AccountInfo) (m : Machine)
    → total (process_assign k infos m).1.cells ≡ total m.cells
unfolding process_assign
process_assign-total k [] m = refl
process_assign-total k (target ∷ _) m = elim (Bool-cases target.is_signer) [
  | inl e ↦ rw e (set_owner-total target k m)
  | inr e ↦ rw e refl
]

-- What follows the payment in `CreateAccount`.
abbrev fill : AccountInfo → ℕ → Pubkey → Action (Unit {0})
fill to space owner = do bytes ← zeroed space; set_data to bytes; set_owner to owner

and_then-total :
    {A B : Type 0} (r : Result ProgramError A) (f : A → Action B) (m : Machine)
    → ((a : A) → total (f a m).1.cells ≡ total m.cells)
    → total (and_then r f m).1.cells ≡ total m.cells
and_then-total (ok a) f m h = h a
and_then-total (err e) f m h = refl
and_then-total panic f m h = refl

fill-total :
    (to : AccountInfo) (space : ℕ) (k : Pubkey) (m : Machine)
    → total (fill to space k m).1.cells ≡ total m.cells
fill-total to space k m = elim (Bool-cases (ltb space (2 ^ 63))) [
  | inl e ↦
      let b = replicate space 0 in
      rw e (
        and_then-total (set_data to b m).0 (λ _. set_owner to k) (set_data to b m).1
          (λ _. set_owner-total to k (set_data to b m).1)
        ∙ set_data-total to b m)
  | inr e ↦ rw e refl
]

process_create_account-total :
    (amount space : ℕ) (k : Pubkey) (infos : List AccountInfo) (m : Machine)
    → HaveCells infos m.cells
    → total m.cells < u64_mod
    → total (process_create_account amount space k infos m).1.cells ≡ total m.cells
unfolding process_create_account
process_create_account-total amount space k [] m h bounded = refl
process_create_account-total amount space k (from ∷ []) m h bounded = refl
process_create_account-total amount space k (from ∷ to ∷ _) m h bounded =
    let (a, ea) = get_elem?-some m.cells from.account h.0 in
    elim (Bool-cases (not from.is_signer || not to.is_signer)) [
      | inl unsigned ↦ rw unsigned refl
      | inr signed ↦ elim (Bool-cases (ltb a.lamports amount)) [
        | inl poor ↦ rw (signed, ea, poor) refl
        | inr rich ↦
            let enough : amount ≤ a.lamports = ground arith in
            let (moved, same) = move_lamports-total from to amount m a ea enough h.1.0 bounded in
            rw (signed, ea, rich, moved)
              (fill-total to space k (move_lamports from to amount m).1 ∙ same)
      ]
    ]

-- Whatever instruction data the system program is called with, and however the call ends, the
-- lamports in all cells add up to what they were, also where two infos share a cell. Every info
-- refers to a cell, and all lamports together are a `u64`.
pub entrypoint-total :
    (decode : Bytes → Option SystemInstruction) (ctx : InvokeContext) (infos : List AccountInfo)
    (m : Machine)
    → HaveCells infos m.cells
    → total m.cells < u64_mod
    → total (entrypoint decode ctx infos m).1.cells ≡ total m.cells
unfolding entrypoint
entrypoint-total decode ctx infos m h bounded = go (decode ctx.instruction_data)
  where
    go : (o : Option SystemInstruction) → total (dispatch o infos m).1.cells ≡ total m.cells
    go none = refl
    go (some (transfer n)) = process_transfer-total n infos m h bounded
    go (some (assign k)) = process_assign-total k infos m
    go (some (create_account n s k)) = process_create_account-total n s k infos m h bounded
