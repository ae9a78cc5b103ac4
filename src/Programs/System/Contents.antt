-- ===== src/Programs/System/Contents.antt =====
-- Whose data the system program changes.
use tiny_solana.Common.{
  ℕ, ◌^◌, ◌≡◌, ◌≢◌, refl, inl, inr, not, ◌∙◌, Option, none, some, List, ◌∷◌, arith, get_elem?,
  get_elem?-set, ltb, Bool, Bool-cases, Option-cases,
}
use mathlib.Core.Option
use tiny_solana.Common.Result.{Result, ok, err, panic}
use tiny_solana.Types.{Pubkey, Bytes}
use tiny_solana.Accounts.{Account}
use tiny_solana.Transactions.Errors.{ProgramError}
use tiny_solana.Runtime.{
  AccountInfo, InvokeContext, Machine, Action, lamports, set_lamports, set_data, set_owner,
  and_then, ◌>>=◌, ◌>>◌, raise_if,
}
use tiny_solana.Programs.System.{
  SystemInstruction, transfer, assign, create_account, move_lamports, process_transfer,
  process_assign, zeroed, dispatch, process_create_account, entrypoint,
}

-- The data in a cell.
abbrev pub contents_at : ℕ → List Account → Option Bytes
contents_at i cells = Option.map (λ (a : Account). a.contents) (get_elem? cells i)

-- The action leaves the data in the cell alone, however it ends.
abbrev pub Leaves : {A : Type 0} → ℕ → Action A → Type 0
Leaves i c = (m : Machine) → contents_at i (c m).1.cells ≡ contents_at i m.cells

module _ (i : ℕ) where
  Leaves->>= :
      {A B : Type 0} (c : Action A) (f : A → Action B)
      → Leaves i c
      → ((a : A) → Leaves i (f a))
      → Leaves i (c >>= f)
  Leaves->>= {A} {B} c f first later m = go (c m) (first m)
    where
      go :
          (p : Result ProgramError A × Machine)
          → contents_at i p.1.cells ≡ contents_at i m.cells
          → contents_at i (and_then p.0 f p.1).1.cells ≡ contents_at i m.cells
      go (ok a, m1) same = later a m1 ∙ same
      go (err x, m1) same = same
      go (panic, m1) same = same

  Leaves-set_lamports : (info : AccountInfo) (n : ℕ) → Leaves i (set_lamports info n)
  Leaves-set_lamports info n m = elim (Option-cases (get_elem? m.cells info.account)) [
    | inl e ↦ rw e refl
    | inr (a, e) ↦
        ground (arith, get_elem?-set m.cells info.account i (record a { lamports = n }) a e)
  ]

  Leaves-set_owner : (info : AccountInfo) (k : Pubkey) → Leaves i (set_owner info k)
  Leaves-set_owner info k m = elim (Option-cases (get_elem? m.cells info.account)) [
    | inl e ↦ rw e refl
    | inr (a, e) ↦ ground (arith, get_elem?-set m.cells info.account i (record a { owner = k }) a e)
  ]

  Leaves-set_data : (info : AccountInfo) (b : Bytes) → info.account ≢ i → Leaves i (set_data info b)
  Leaves-set_data info b ne m = elim (Option-cases (get_elem? m.cells info.account)) [
    | inl e ↦ rw e refl
    | inr (a, e) ↦
        ground (arith, ne, get_elem?-set m.cells info.account i (record a { contents = b }) a e)
  ]

  Leaves-lamports : (info : AccountInfo) → Leaves i (lamports info)
  Leaves-lamports info m = elim (Option-cases (get_elem? m.cells info.account)) [
    | inl e ↦ rw e refl
    | inr (a, e) ↦ rw e refl
  ]

  Leaves-zeroed : (n : ℕ) → Leaves i (zeroed n)
  Leaves-zeroed n m = elim (Bool-cases (ltb n (2 ^ 63))) [ inl e ↦ rw e refl | inr e ↦ rw e refl ]

  Leaves-move_lamports :
      (from to : AccountInfo) (amount : ℕ) → Leaves i (move_lamports from to amount)
  unfolding move_lamports
  Leaves-move_lamports from to amount = Leaves->>= (lamports from) _ (Leaves-lamports from) (λ n.
      Leaves->>= (set_lamports from _) _ (Leaves-set_lamports from _)
        (λ _. Leaves->>= (lamports to) _ (Leaves-lamports to) (λ k. Leaves-set_lamports to _)))

  -- A payment behind its two checks.
  Leaves-checked :
      (b : Bool) (x y : ProgramError) (from : AccountInfo) (amount : ℕ) (c : Action (Unit {0}))
      → Leaves i c
      → Leaves i (do raise_if b x; balance ← lamports from; raise_if (ltb balance amount) y; c)
  Leaves-checked b x y from amount c h =
      Leaves->>= (raise_if b x) _ (λ m. refl)
        (λ _.
          Leaves->>= (lamports from) _ (Leaves-lamports from)
            (λ n. Leaves->>= (raise_if (ltb n amount) y) _ (λ m. refl) (λ _. h)))

  -- However a call of the system program ends, the data of an account are what they were, unless it
  -- is the one that the second info refers to.
  pub Leaves-entrypoint :
      (decode : Bytes → Option SystemInstruction) (ctx : InvokeContext) (from to : AccountInfo)
      (rest : List AccountInfo)
      → to.account ≢ i
      → Leaves i (entrypoint decode ctx (from ∷ to ∷ rest))
  unfolding entrypoint process_transfer process_assign process_create_account
  Leaves-entrypoint decode ctx from to rest ne = go (decode ctx.instruction_data)
    where
      go : (o : Option SystemInstruction) → Leaves i (dispatch o (from ∷ to ∷ rest))
      go none = λ m. refl
      go (some (transfer n)) =
          Leaves-checked _ _ _ from n (move_lamports from to n) (Leaves-move_lamports from to n)
      go (some (assign k)) =
          Leaves->>= (raise_if (not from.is_signer) _) _ (λ m. refl) (λ _. Leaves-set_owner from k)
      go (some (create_account n s k)) = Leaves-checked _ _ _ from n _ (
          Leaves->>= (move_lamports from to n) _ (Leaves-move_lamports from to n) (λ _.
            Leaves->>= (zeroed s) _ (Leaves-zeroed s) (λ b.
              Leaves->>= (set_data to b) _ (Leaves-set_data to b ne) (λ _. Leaves-set_owner to k))))
