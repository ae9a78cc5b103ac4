-- ===== src/Programs/Token/Supply.antt =====
-- The supply of a mint against the tokens that accounts hold.
use tiny_solana.Common.{ℕ, ◌≡◌, true, some, get_elem?}
use tiny_solana.Common.Result.{ok}
use tiny_solana.Common.Word.{saturating_add}
use tiny_solana.Accounts.{Account}
use tiny_solana.Codec.{IsExact}
use tiny_solana.Runtime.{AccountInfo, Machine}
use tiny_solana.Programs.Token.{Mint, TokenAccount, TokenDeps, mint_len, token_account_len, pack}
use tiny_solana.Programs.Token.Transfers.{given}

module _ {Rent : Type 0} (deps : TokenDeps Rent) (exact_mint : IsExact deps.mints mint_len)
    (exact : IsExact deps.token_accounts token_account_len) where
  abbrev raised : ℕ → Mint → Mint
  raised n t = record t { supply = saturating_add t.supply n }

  -- What minting that succeeds has found and written.
  pub record Minted (n : ℕ) (authority mint_info destination : AccountInfo) (m m' : Machine)
      : Type 0 where
    pub a : Account
    pub b : Account
    pub old : Mint
    pub to : TokenAccount
    pub signer : authority.is_signer ≡ true
    pub mint_cell : get_elem? m.cells mint_info.account ≡ some a
    pub mint_state : deps.mints.decode a.contents ≡ some old
    pub destination_cell : get_elem? m.cells destination.account ≡ some b
    pub destination_state : deps.token_accounts.decode b.contents ≡ some to
    pub authorised : old.mint_authority ≡ authority.pubkey
    pub of_mint : to.mint ≡ mint_info.pubkey
    pub raised_mint : Machine
    pub packed_mint : pack deps.mints (raised n old) mint_info m ≡ (ok tt, raised_mint)
    pub packed_destination :
        pack deps.token_accounts (given deps exact n to) destination raised_mint ≡ (ok tt, m')
