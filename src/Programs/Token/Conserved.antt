-- ===== src/Programs/Token/Conserved.antt =====
-- The sum of all tokens of a mint.
use tiny_solana.Common.{
  ℕ, ◌<◌, ◌≡◌, ◌≢◌, refl, sym, ap, ◌∙◌, some, List, ◌∷◌, arith, get_elem?, set, if◌then◌else◌, ◌==◌,
  get_elem?-set_ne, get_elem?-set_self, get_elem?-lt,
}
use tiny_solana.Common.Result.{ok}
use tiny_solana.Common.Word.{u64_mod, saturating_add}
use tiny_solana.Types.{Pubkey}
use tiny_solana.Accounts.{Account}
use tiny_solana.Codec.{Codec, IsExact}
use tiny_solana.Runtime.{AccountInfo, Machine}
use tiny_solana.Programs.Token.{TokenAccount, TokenDeps, token_account_len, process_transfer}
use tiny_solana.Programs.Token.Ledger.{held, held_by, held-set, held_by-le-held, decoded, pack-ok}
use tiny_solana.Programs.Token.Transfers.{
  process_transfer_ok, Transferred, Transferred-Moved, Moved, taken, given,
}

abbrev pub tokens_of : Pubkey → TokenAccount → ℕ
tokens_of k t = if t.mint == k then t.amount else 0

pub held_by-decoded :
    (codec : Codec TokenAccount) (k : Pubkey) (a : Account) (t : TokenAccount)
    → codec.decode a.contents ≡ some t
    → held_by codec k a ≡ tokens_of k t
held_by-decoded codec k a t e = rw (e, held_by) refl

module _ {Rent : Type 0} (deps : TokenDeps Rent)
    (exact : IsExact deps.token_accounts token_account_len) where
  Moved-held :
      (k : Pubkey) (n : ℕ) (source destination : AccountInfo) (m m' : Machine)
      → source.account ≢ destination.account
      → held deps.token_accounts k m.cells < u64_mod
      → Moved deps exact n source destination m m'
      → held deps.token_accounts k m'.cells ≡ held deps.token_accounts k m.cells
  Moved-held k n source destination m m' apart bounded v =
      let codec = deps.token_accounts in
      let cells = set m.cells source.account v.a' in
      let dest : get_elem? cells destination.account ≡ some v.b =
        get_elem?-set_ne m.cells source.account destination.account v.a' apart
        ∙ v.destination_cell in
      let first = held-set codec k m.cells source.account v.a v.a' v.source_cell in
      let second = held-set codec k cells destination.account v.b v.b' dest in
      let bound = held_by-le-held codec k cells destination.account v.b dest in
      rw v.cells_after (
        ground (
          arith,
          held_by-decoded codec k v.a v.from v.source_state,
          held_by-decoded codec k v.b v.to v.destination_state,
          held_by-decoded codec k v.a' (taken deps exact n v.from) v.source_after,
          held_by-decoded codec k v.b' (given deps exact n v.to) v.destination_after,
        ))

  -- A transfer that succeeds between two cells keeps the sum of the tokens of every mint. All tokens
  -- of the mint together are a `u64`; bincode reads back what it wrote, in a fixed size.
  pub process_transfer-held :
      (n : ℕ) (owner source destination : AccountInfo) (rest : List AccountInfo) (k : Pubkey)
      (m m' : Machine)
      → source.account ≢ destination.account
      → held deps.token_accounts k m.cells < u64_mod
      → process_transfer deps n (owner ∷ source ∷ destination ∷ rest) m ≡ (ok tt, m')
      → held deps.token_accounts k m'.cells ≡ held deps.token_accounts k m.cells
  process_transfer-held n owner source destination rest k m m' apart bounded e =
      Moved-held k n source destination m m' apart bounded (
        Transferred-Moved deps exact n owner source destination m m' apart
          (process_transfer_ok deps exact n owner source destination rest m m' e))

  Transferred-aliased :
      (n : ℕ) (owner source destination : AccountInfo) (m m' : Machine)
      → source.account ≡ destination.account
      → Transferred deps exact n owner source destination m m'
      → (u : TokenAccount) × (decoded deps.token_accounts (get_elem? m.cells source.account)
          ≡ some u)
        × (decoded deps.token_accounts (get_elem? m'.cells source.account)
            ≡ some (record u { amount = saturating_add u.amount n }))
  Transferred-aliased n owner source destination m m' same t =
      let codec = deps.token_accounts in
      let (bs, after_s, eq_s) =
        pack-ok codec token_account_len exact (taken deps exact n t.from) source m t.paid t.a t.from
          t.source_cell t.source_state t.packed_source in
      let a' = record t.a { contents = bs } in
      let cell : get_elem? t.paid.cells destination.account ≡ some a' =
        ap (λ (x : Machine). get_elem? x.cells destination.account) eq_s
        ∙ ap (get_elem? (set m.cells source.account a')) (sym same)
        ∙ get_elem?-set_self m.cells source.account a'
            (get_elem?-lt m.cells source.account t.source_cell) in
      let (bd, after_d, eq_d) =
        pack-ok codec token_account_len exact (given deps exact n t.to) destination t.paid m' a'
          (taken deps exact n t.from) cell after_s t.packed_destination in
      let one_cell : t.b ≡ t.a = ground (arith, t.source_cell, t.destination_cell, same) in
      let one_state : t.to ≡ t.from =
        ground (arith, t.source_state, t.destination_state, one_cell) in
      let b' = record a' { contents = bd } in
      let after : get_elem? m'.cells source.account ≡ some b' =
        ap (get_elem? m'.cells) same
        ∙ ap (λ (x : Machine). get_elem? x.cells destination.account) eq_d
        ∙ get_elem?-set_self t.paid.cells destination.account b'
            (get_elem?-lt t.paid.cells destination.account cell) in
      (
        t.from,
        rw (t.source_cell, decoded) t.source_state,
        rw (after, decoded) (after_d ∙ ap (λ x. some (given deps exact n x)) one_state),
      )

  -- A transfer that succeeds between two infos of one cell adds the amount to what the cell holds:
  -- what was taken from the source is written over. Bincode reads back what it wrote, in a fixed size.
  pub process_transfer_aliased :
      (n : ℕ) (owner source destination : AccountInfo) (rest : List AccountInfo) (m m' : Machine)
      → source.account ≡ destination.account
      → process_transfer deps n (owner ∷ source ∷ destination ∷ rest) m ≡ (ok tt, m')
      → (t : TokenAccount) × (decoded deps.token_accounts (get_elem? m.cells source.account)
          ≡ some t)
        × (decoded deps.token_accounts (get_elem? m'.cells source.account)
            ≡ some (record t { amount = saturating_add t.amount n }))
  process_transfer_aliased n owner source destination rest m m' same e =
      Transferred-aliased n owner source destination m m' same
        (process_transfer_ok deps exact n owner source destination rest m m' e)
