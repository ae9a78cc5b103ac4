-- ===== src/Runtime/Cells.antt =====
-- The lamports in all cells, and infos whose cells exist.
use tiny_solana.Common.{
  ℕ, zero, suc, ◌+◌, ◌<◌, ◌≤◌, ◌≡◌, refl, ap, some, List, [], ◌∷◌, arith, get_elem?, set, length,
  All,
}
use tiny_solana.Accounts.{Account}
use tiny_solana.Runtime.{AccountInfo}

abbrev pub total : List Account → ℕ
total [] = 0
total (a ∷ cs) = a.lamports + total cs

pub total-set :
    (cs : List Account) (i : ℕ) (a b : Account)
    → get_elem? cs i ≡ some a
    → total (set cs i b) + a.lamports ≡ total cs + b.lamports
total-set [] i a b e = ground arith
total-set (x ∷ cs) zero a b e = ground arith
total-set (x ∷ cs) (suc i) a b e = ground (arith, total-set cs i a b e)

pub lamports-le-total :
    (cs : List Account) (i : ℕ) (a : Account) → get_elem? cs i ≡ some a → a.lamports ≤ total cs
lamports-le-total [] i a e = ground arith
lamports-le-total (x ∷ cs) zero a e = ground arith
lamports-le-total (x ∷ cs) (suc i) a e = ground (arith, lamports-le-total cs i a e)

-- Every info refers to a cell.
abbrev pub HaveCells : List AccountInfo → List Account → Type 0
HaveCells infos cells = All (λ info. info.account < length cells) infos

pub get_elem?-some :
    {A : Type 0} (xs : List A) (i : ℕ) → i < length xs → (a : A) × (get_elem? xs i ≡ some a)
get_elem?-some [] i h = elim h [ ]
get_elem?-some (x ∷ xs) zero h = (x, refl)
get_elem?-some (x ∷ xs) (suc i) h = get_elem?-some xs i (omega arith)

-- Writing to a cell what it holds.
pub set-same :
    (cells : List Account) (i : ℕ) (a : Account)
    → get_elem? cells i ≡ some a
    → set cells i a ≡ cells
set-same [] i a e = refl
set-same (x ∷ cells) zero a e = ground arith
set-same (x ∷ cells) (suc i) a e = ap (λ l. x ∷ l) (set-same cells i a e)
