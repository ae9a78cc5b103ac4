-- ===== src/Programs/Token/Ledger.antt =====
-- Packed states in cells, and the amounts that token accounts hold.
use mathlib.Core.Path.{subst}
use tiny_solana.Common.{
  ℕ, zero, suc, ◌+◌, ◌≤◌, ◌≡◌, refl, ◌∙◌, Option, none, some, List, [], ◌∷◌, arith, get_elem?, set,
  length, if◌then◌else◌, ◌==◌,
}
use tiny_solana.Common.Result.{ok}
use tiny_solana.Types.{Pubkey, Bytes}
use tiny_solana.Accounts.{Account}
use tiny_solana.Codec.{Codec, IsExact}
use tiny_solana.Transactions.Errors.{invalid_account_data}
use tiny_solana.Runtime.{AccountInfo, Machine, Action, ◌>>=◌, or_raise, or_abort, copy_front}
use tiny_solana.Runtime.Actions.{
  >>=-ok, borrow_data-then, or_raise-ok, or_abort-ok, copy_front-ok, with_front_whole,
}
use tiny_solana.Programs.Token.{TokenAccount, unpack, pack}

-- What the cell holds, read as a packed state.
abbrev pub decoded : {A : Type 0} → Codec A → Option Account → Option A
decoded codec none = none
decoded codec (some a) = codec.decode a.contents

abbrev pub held_by : Codec TokenAccount → Pubkey → Account → ℕ
held_by codec k a = elim (codec.decode a.contents) [
  | none ↦ 0
  | some t ↦ if t.mint == k then t.amount else 0
]

-- All tokens of a mint.
abbrev pub held : Codec TokenAccount → Pubkey → List Account → ℕ
held codec k [] = 0
held codec k (a ∷ cells) = held_by codec k a + held codec k cells

pub held-set :
    (codec : Codec TokenAccount) (k : Pubkey) (cells : List Account) (i : ℕ) (a b : Account)
    → get_elem? cells i ≡ some a
    → held codec k (set cells i b) + held_by codec k a ≡ held codec k cells + held_by codec k b
held-set codec k [] i a b e = ground arith
held-set codec k (x ∷ cells) zero a b e = ground arith
held-set codec k (x ∷ cells) (suc i) a b e = ground (arith, held-set codec k cells i a b e)

pub held_by-le-held :
    (codec : Codec TokenAccount) (k : Pubkey) (cells : List Account) (i : ℕ) (a : Account)
    → get_elem? cells i ≡ some a
    → held_by codec k a ≤ held codec k cells
held_by-le-held codec k [] i a e = ground arith
held_by-le-held codec k (x ∷ cells) zero a e = ground arith
held_by-le-held codec k (x ∷ cells) (suc i) a e =
    ground (arith, held_by-le-held codec k cells i a e)

module _ {A : Type 0} (codec : Codec A) where
  pub unpack-then :
      {B : Type 0} (info : AccountInfo) (f : A → Action B) (m m' : Machine) (r : B)
      → (unpack codec info >>= f) m ≡ (ok r, m')
      → (a : Account) × (v : A) × (get_elem? m.cells info.account ≡ some a)
        × (codec.decode a.contents ≡ some v)
        × (f v m ≡ (ok r, m'))
  unpack-then info f m m' r e =
      let (v, m1, e1, e2) = >>=-ok (unpack codec info) f m m' r e in
      let (a, found, e3) =
        borrow_data-then info (λ b. or_raise (codec.decode b) invalid_account_data) m m1 v e1 in
      let (decodes, same) = or_raise-ok (codec.decode a.contents) invalid_account_data m m1 v e3 in
      (a, v, found, decodes, subst (λ x. f v x ≡ (ok r, m')) same e2)

  -- Packing over a state of the same size replaces the data of the cell.
  pub pack-ok :
      (size : ℕ) (exact : IsExact codec size) (v : A) (info : AccountInfo) (m m' : Machine)
      (a : Account) (old : A)
      → get_elem? m.cells info.account ≡ some a
      → codec.decode a.contents ≡ some old
      → {u : Unit {0}} → pack codec v info m ≡ (ok u, m')
      → (b : Bytes) × (codec.decode b ≡ some v)
        × (m' ≡ record m { cells = set m.cells info.account (record a { contents = b }) })
  pack-ok size exact v info m m' a old found decodes {u} e =
      let (b, m1, e1, e2) = >>=-ok (or_abort (codec.encode v)) (λ b. copy_front info b) m m' u e in
      let (encodes, eq1) = or_abort-ok (codec.encode v) m m1 b e1 in
      let (c, found', _, eq2) = copy_front-ok info b m1 m' u e2 in
      let same : c ≡ a = cc in
      let sizes : length a.contents ≤ length b =
        omega
          (arith, exact.length-decode old a.contents decodes, exact.length-encode v b encodes) in
      (b, exact.decode-encode v b encodes, eq2 ∙ rw (eq1, same, with_front_whole b a sizes) refl)
