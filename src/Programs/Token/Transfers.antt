-- ===== src/Programs/Token/Transfers.antt =====
-- What a transfer of tokens does.
use tiny_solana.Common.{
  ℕ, ◌≤◌, ◌≡◌, ◌≢◌, refl, ◌∙◌, true, not, some, List, ◌∷◌, arith, get_elem?, set, ltb, ◌==◌, ==_iff,
  get_elem?-set_ne,
}
use tiny_solana.Common.Result.{ok}
use tiny_solana.Common.Word.{saturating_add, saturating_sub}
use tiny_solana.Accounts.{Account}
use tiny_solana.Codec.{IsExact}
use tiny_solana.Runtime.{AccountInfo, Machine}
use tiny_solana.Runtime.Actions.{>>=-ok, raise_if-then, not-false}
use tiny_solana.Programs.Token.{
  TokenAccount, TokenDeps, token_account_len, program_error_of, source_not_owned_by_signer,
  mint_mismatch, missing_required_signature, insufficient_funds, pack, process_transfer,
}
use tiny_solana.Programs.Token.Ledger.{unpack-then, pack-ok}

module _ {Rent : Type 0} (deps : TokenDeps Rent)
    (exact : IsExact deps.token_accounts token_account_len) where
  abbrev pub taken : ℕ → TokenAccount → TokenAccount
  taken n t = record t { amount = saturating_sub t.amount n }

  abbrev pub given : ℕ → TokenAccount → TokenAccount
  given n t = record t { amount = saturating_add t.amount n }

  -- What a transfer that succeeds has found and written.
  pub record Transferred (n : ℕ) (owner source destination : AccountInfo) (m m' : Machine)
      : Type 0 where
    pub a : Account
    pub b : Account
    pub from : TokenAccount
    pub to : TokenAccount
    pub signer : owner.is_signer ≡ true
    pub source_cell : get_elem? m.cells source.account ≡ some a
    pub source_state : deps.token_accounts.decode a.contents ≡ some from
    pub destination_cell : get_elem? m.cells destination.account ≡ some b
    pub destination_state : deps.token_accounts.decode b.contents ≡ some to
    pub owned : from.owner ≡ owner.pubkey
    pub same_mint : from.mint ≡ to.mint
    pub enough : n ≤ from.amount
    pub paid : Machine
    pub packed_source : pack deps.token_accounts (taken n from) source m ≡ (ok tt, paid)
    pub packed_destination : pack deps.token_accounts (given n to) destination paid ≡ (ok tt, m')

  pub process_transfer_ok :
      (n : ℕ) (owner source destination : AccountInfo) (rest : List AccountInfo) (m m' : Machine)
      → process_transfer deps n (owner ∷ source ∷ destination ∷ rest) m ≡ (ok tt, m')
      → Transferred n owner source destination m m'
  unfolding process_transfer
  process_transfer_ok n owner source destination rest m m' e =
      let (signed, e1) =
        raise_if-then (not owner.is_signer) (program_error_of missing_required_signature) _ m m' tt
          e in
      let (a, from, source_cell, source_state, e2) =
        unpack-then deps.token_accounts source _ m m' tt e1 in
      let (owned, e3) =
        raise_if-then (not (from.owner == owner.pubkey))
          (program_error_of source_not_owned_by_signer) _ m m' tt e2 in
      let (b, to, dest_cell, dest_state, e4) =
        unpack-then deps.token_accounts destination _ m m' tt e3 in
      let (same, e5) =
        raise_if-then (not (from.mint == to.mint)) (program_error_of mint_mismatch) _ m m' tt e4 in
      let (enough, e6) =
        raise_if-then (ltb from.amount n) (program_error_of insufficient_funds) _ m m' tt e5 in
      let (_, paid, packed_source, packed_destination) =
        >>=-ok (pack deps.token_accounts (taken n from) source) _ m m' tt e6 in
      record {
        a = a;
        b = b;
        from = from;
        to = to;
        signer = not-false _ signed;
        source_cell = source_cell;
        source_state = source_state;
        destination_cell = dest_cell;
        destination_state = dest_state;
        owned = (==_iff _ _).0 (not-false _ owned);
        same_mint = (==_iff _ _).0 (not-false _ same);
        enough = ground arith;
        paid = paid;
        packed_source = packed_source;
        packed_destination = packed_destination;
      }

  -- The written states of a transfer between two cells.
  pub record Moved (n : ℕ) (source destination : AccountInfo) (m m' : Machine) : Type 0 where
    pub a : Account
    pub b : Account
    pub from : TokenAccount
    pub to : TokenAccount
    pub a' : Account
    pub b' : Account
    pub source_cell : get_elem? m.cells source.account ≡ some a
    pub destination_cell : get_elem? m.cells destination.account ≡ some b
    pub source_state : deps.token_accounts.decode a.contents ≡ some from
    pub destination_state : deps.token_accounts.decode b.contents ≡ some to
    pub same_mint : from.mint ≡ to.mint
    pub enough : n ≤ from.amount
    pub source_after : deps.token_accounts.decode a'.contents ≡ some (taken n from)
    pub destination_after : deps.token_accounts.decode b'.contents ≡ some (given n to)
    pub cells_after : m'.cells ≡ set (set m.cells source.account a') destination.account b'

  pub Transferred-Moved :
      (n : ℕ) (owner source destination : AccountInfo) (m m' : Machine)
      → source.account ≢ destination.account
      → Transferred n owner source destination m m'
      → Moved n source destination m m'
  Transferred-Moved n owner source destination m m' apart t =
      let codec = deps.token_accounts in
      let (bs, after_s, eq_s) =
        pack-ok codec token_account_len exact (taken n t.from) source m t.paid t.a t.from
          t.source_cell t.source_state t.packed_source in
      let a' = record t.a { contents = bs } in
      let cell : get_elem? t.paid.cells destination.account ≡ some t.b = rw eq_s (
        get_elem?-set_ne m.cells source.account destination.account a' apart
        ∙ t.destination_cell) in
      let (bd, after_d, eq_d) =
        pack-ok codec token_account_len exact (given n t.to) destination t.paid m' t.b t.to cell
          t.destination_state t.packed_destination in
      record {
        a = t.a;
        b = t.b;
        from = t.from;
        to = t.to;
        a' = a';
        b' = record t.b { contents = bd };
        source_cell = t.source_cell;
        destination_cell = t.destination_cell;
        source_state = t.source_state;
        destination_state = t.destination_state;
        same_mint = t.same_mint;
        enough = t.enough;
        source_after = after_s;
        destination_after = after_d;
        cells_after = rw (eq_d, eq_s) refl;
      }
