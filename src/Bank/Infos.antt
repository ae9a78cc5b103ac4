-- ===== src/Bank/Infos.antt =====
-- What `prepare_account_infos` hands to a program.
use tiny_solana.Common.{
  ℕ, zero, suc, ◌<◌, ◌≡◌, ◌≢◌, refl, inl, inr, true, false, ◌&&◌, Option, none, some, List, [], ◌∷◌,
  arith, get_elem?, get_elem?-lt, length, if◌then◌else◌, Option-cases, All,
}
use tiny_solana.Common.Result.{ok, err_if, >>=-eq-ok, err_if-eq-ok}
use tiny_solana.Common.KeySet
use tiny_solana.Types.{Pubkey}
use tiny_solana.Accounts.{Account}
use tiny_solana.Transactions.{AccountMeta, Instruction}
use tiny_solana.Runtime.{AccountInfo}
use tiny_solana.Runtime.Cells.{HaveCells}
use tiny_solana.Bank.Processing.{
  position, info_of, find_key, unwrap_cell, borrow_twice, prepare_metas, prepare_account_infos,
}

get_elem?-position :
    (k : Pubkey) (keys : List Pubkey) (i : ℕ) → position k keys ≡ some i → get_elem? keys i ≡ some k
get_elem?-position k [] i e = cc
get_elem?-position k (x ∷ keys) zero e = elim (Option-cases (position k keys)) [
  | inl absent ↦ ground arith
  | inr (j, found) ↦ ground arith
]
get_elem?-position k (x ∷ keys) (suc i) e = elim (Option-cases (position k keys)) [
  | inl absent ↦ ground arith
  | inr (j, found) ↦ ground (arith, get_elem?-position k keys j found)
]

-- The infos stand for the metas, one by one: the same key and flags, and the cell of that key.
abbrev pub Describe : List Pubkey → List Account → List AccountMeta → List AccountInfo → Type 0
Describe keys cells [] [] = Unit
Describe keys cells [] (info ∷ infos) = ⊥
Describe keys cells (meta ∷ metas) [] = ⊥
Describe keys cells (meta ∷ metas) (info ∷ infos) =
    (info.pubkey ≡ meta.pubkey)
    × (info.is_signer ≡ meta.is_signer)
    × (info.is_writable ≡ meta.is_writable)
    × (get_elem? keys info.account ≡ some meta.pubkey)
    × (info.account < length cells)
    × Describe keys cells metas infos

-- No cell stands behind two writable infos.
abbrev pub AreWritableOnce : List AccountInfo → Type 0
AreWritableOnce [] = Unit
AreWritableOnce (x ∷ infos) =
    (x.is_writable ≡ true → All (λ y. y.is_writable ≡ true → x.account ≢ y.account) infos)
    × AreWritableOnce infos

find_key-ok : (o : Option ℕ) (i : ℕ) → find_key o ≡ ok i → o ≡ some i
find_key-ok none i e = cc
find_key-ok (some j) i e = cc

unwrap_cell-ok : (o : Option Account) (a : Account) → unwrap_cell o ≡ ok a → o ≡ some a
unwrap_cell-ok none a e = cc
unwrap_cell-ok (some b) a e = cc

module _ (keys : List Pubkey) (cells : List Account) where
  abbrev Prepared : AccountMeta → List AccountMeta → List ℕ → List AccountInfo → Type 0
  Prepared meta metas taken infos =
      (index : ℕ) × (account : Account) × (rest : List AccountInfo) × (position meta.pubkey keys
        ≡ some index)
      × ((meta.is_writable && KeySet.contains index taken) ≡ false)
      × (get_elem? cells index ≡ some account)
      × (prepare_metas keys cells metas
            (if meta.is_writable then KeySet.insert index taken else taken)
          ≡ ok rest)
      × (infos ≡ info_of meta index account ∷ rest)

  prepare_metas-cons :
      (meta : AccountMeta) (metas : List AccountMeta) (taken : List ℕ) (infos : List AccountInfo)
      → prepare_metas keys cells (meta ∷ metas) taken ≡ ok infos
      → Prepared meta metas taken infos
  unfolding prepare_metas
  prepare_metas-cons meta metas taken infos e =
      let (index, found, e1) = >>=-eq-ok (find_key (position meta.pubkey keys)) _ e in
      let (u, unshared, e2) =
        >>=-eq-ok (err_if (meta.is_writable && KeySet.contains index taken) borrow_twice) _ e1 in
      let (account, cell, e3) = >>=-eq-ok (unwrap_cell (get_elem? cells index)) _ e2 in
      let next = if meta.is_writable then KeySet.insert index taken else taken in
      let (rest, prepared, e4) = >>=-eq-ok (prepare_metas keys cells metas next) _ e3 in
      (
        index,
        account,
        rest,
        find_key-ok (position meta.pubkey keys) index found,
        err_if-eq-ok _ borrow_twice unshared,
        unwrap_cell-ok (get_elem? cells index) account cell,
        prepared,
        cc,
      )

  prepare_metas-Describe :
      (metas : List AccountMeta) (taken : List ℕ) (infos : List AccountInfo)
      → prepare_metas keys cells metas taken ≡ ok infos
      → Describe keys cells metas infos
  unfolding prepare_metas
  prepare_metas-Describe [] taken [] e = tt
  prepare_metas-Describe [] taken (x ∷ infos) e = absurd (ground arith)
  prepare_metas-Describe (meta ∷ metas) taken infos e =
      let (index, account, rest, found, _, cell, prepared, eq) =
        prepare_metas-cons meta metas taken infos e in
      rw eq (
        refl,
        refl,
        refl,
        get_elem?-position meta.pubkey keys index found,
        get_elem?-lt cells index cell,
        prepare_metas-Describe metas _ rest prepared,
      )

  -- A writable info takes no index that was taken before.
  prepare_metas-fresh :
      (metas : List AccountMeta) (taken : List ℕ) (infos : List AccountInfo) (index : ℕ)
      → prepare_metas keys cells metas taken ≡ ok infos
      → KeySet.contains index taken ≡ true
      → All (λ y. y.is_writable ≡ true → index ≢ y.account) infos
  unfolding prepare_metas
  prepare_metas-fresh [] taken [] index e h = tt
  prepare_metas-fresh [] taken (x ∷ infos) index e h = absurd (ground arith)
  prepare_metas-fresh (meta ∷ metas) taken infos index e h =
      let (i, account, rest, _, unshared, _, prepared, eq) =
        prepare_metas-cons meta metas taken infos e in
      let next = if meta.is_writable then KeySet.insert i taken else taken in
      rw eq (
        (λ w same. ground arith),
        prepare_metas-fresh metas next rest index prepared
            (ground (arith, KeySet.contains-insert index i taken)),
      )

  prepare_metas-AreWritableOnce :
      (metas : List AccountMeta) (taken : List ℕ) (infos : List AccountInfo)
      → prepare_metas keys cells metas taken ≡ ok infos
      → AreWritableOnce infos
  unfolding prepare_metas
  prepare_metas-AreWritableOnce [] taken [] e = tt
  prepare_metas-AreWritableOnce [] taken (x ∷ infos) e = absurd (ground arith)
  prepare_metas-AreWritableOnce (meta ∷ metas) taken infos e =
      let (i, account, rest, _, unshared, _, prepared, eq) =
        prepare_metas-cons meta metas taken infos e in
      let next = if meta.is_writable then KeySet.insert i taken else taken in
      rw eq (
        (λ w.
            prepare_metas-fresh metas next rest i prepared
              (ground (arith, KeySet.contains-insert i i taken))),
        prepare_metas-AreWritableOnce metas next rest prepared,
      )

-- When the infos of an instruction are prepared, they stand for its account metas one by one, each
-- with the flags of its meta and the cell of its key among the transaction's keys; and no cell
-- stands behind two writable infos.
pub prepare_account_infos-Describe :
    (keys : List Pubkey) (cells : List Account) (ix : Instruction) (infos : List AccountInfo)
    → prepare_account_infos keys cells ix ≡ ok infos
    → Describe keys cells ix.accounts infos × AreWritableOnce infos
unfolding prepare_account_infos
prepare_account_infos-Describe keys cells ix infos e = (
  prepare_metas-Describe keys cells ix.accounts [] infos e,
  prepare_metas-AreWritableOnce keys cells ix.accounts [] infos e,
)

-- The infos of a prepared instruction refer to cells.
pub Describe-HaveCells :
    (keys : List Pubkey) (cells : List Account) (metas : List AccountMeta)
    (infos : List AccountInfo)
    → Describe keys cells metas infos
    → HaveCells infos cells
Describe-HaveCells keys cells [] [] d = tt
Describe-HaveCells keys cells [] (x ∷ infos) d = absurd d
Describe-HaveCells keys cells (m ∷ metas) [] d = tt
Describe-HaveCells keys cells (m ∷ metas) (x ∷ infos) (_, _, _, _, lt, d) =
    (lt, Describe-HaveCells keys cells metas infos d)
