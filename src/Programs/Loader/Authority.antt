-- ===== src/Programs/Loader/Authority.antt =====
-- Who may change the authority of a buffer or of program data, and a buffer that is frozen.
use tiny_solana.Common.{
  ℕ, ◌≡◌, refl, sym, ap, ◌∙◌, true, not, Option, none, some, List, ◌∷◌, drop, get_elem?, set,
  length, ==_iff,
}
use tiny_solana.Common.Result.{ok, err}
use tiny_solana.Types.{Pubkey, Bytes}
use tiny_solana.Accounts.{Account}
use tiny_solana.Transactions.Errors.{custom}
use tiny_solana.Runtime.{AccountInfo, Machine}
use tiny_solana.Runtime.Actions.{
  not-false, raise_if-then, or_raise-then, borrow_data-then, >>=-ok, with_front,
}
use tiny_solana.Programs.Loader.Pack.{IsCanonical, pack_into_account-ok}
use tiny_solana.Programs.Loader.{
  UpgradeableLoaderState, uninitialized, buffer, program, program_data, LoaderDeps,
  program_error_of, incorrect_authority, missing_required_signature, invalid_account_data,
  is_authority, with_authority, process_write, process_set_authority,
}

-- The authority of a state that may have one.
abbrev pub authority_of : UpgradeableLoaderState → Option Pubkey
authority_of (buffer k) = k
authority_of (program_data slot k) = k
authority_of _ = none

-- The state with another authority.
abbrev pub given_to : Option Pubkey → UpgradeableLoaderState → UpgradeableLoaderState
given_to k (buffer _) = buffer k
given_to k (program_data slot _) = program_data slot k
given_to k s = s

is_authority-true : (o : Option Pubkey) (k : Pubkey) → is_authority o k ≡ true → o ≡ some k
is_authority-true none k e = cc
is_authority-true (some j) k e = ap some ((==_iff j k).0 e)

module _ {Rent : Type 0} (deps : LoaderDeps Rent) where
  with_authority-ok :
      (k : Option Pubkey) (j : Pubkey) (s s' : UpgradeableLoaderState) (m m' : Machine)
      → with_authority deps k j s m ≡ (ok s', m')
      → (authority_of s ≡ some j) × (s' ≡ given_to k s) × (m' ≡ m)
  with_authority-ok k j (buffer o) s' m m' e =
      let (same, e1) =
        raise_if-then (not (is_authority o j)) (program_error_of incorrect_authority) _ m m' s' e in
      (is_authority-true o j (not-false _ same), cc, cc)
  with_authority-ok k j (program_data slot o) s' m m' e =
      let (same, e1) =
        raise_if-then (not (is_authority o j)) (program_error_of incorrect_authority) _ m m' s' e in
      (is_authority-true o j (not-false _ same), cc, cc)
  with_authority-ok k j uninitialized s' m m' e = cc
  with_authority-ok k j (program _) s' m m' e = cc

  -- What a change of authority that succeeds has found and written.
  pub record Handed (k : Option Pubkey) (target authority : AccountInfo) (m m' : Machine)
      : Type 0 where
    pub a : Account
    pub a' : Account
    pub state : UpgradeableLoaderState
    pub cell : get_elem? m.cells target.account ≡ some a
    pub before : deps.decode_state a.contents ≡ some state
    pub signer : authority.is_signer ≡ true
    pub current : authority_of state ≡ some authority.pubkey
    pub after : deps.decode_state a'.contents ≡ some (given_to k state)
    pub same_owner : a'.owner ≡ a.owner
    pub same_lamports : a'.lamports ≡ a.lamports
    pub written : m' ≡ record m { cells = set m.cells target.account a' }

  -- A change of authority that succeeds is signed by the current authority of the buffer or of the
  -- program data; the account then holds the same state with the new authority, and its owner and
  -- lamports and all other cells are as before. Bincode reads back what it wrote at the front.
  pub process_set_authority_ok :
      (canonical : IsCanonical deps) (k : Option Pubkey) (target authority : AccountInfo)
      (rest : List AccountInfo) (m m' : Machine)
      → process_set_authority deps k (target ∷ authority ∷ rest) m ≡ (ok tt, m')
      → Handed k target authority m m'
  unfolding process_set_authority
  process_set_authority_ok canonical k target authority rest m m' e =
      let (signed, e1) =
        raise_if-then (not authority.is_signer) (program_error_of missing_required_signature) _ m m'
          tt e in
      let (a, cell, e2) = borrow_data-then target _ m m' tt e1 in
      let (s, reads, e3) =
        or_raise-then (deps.decode_state a.contents) (program_error_of invalid_account_data) _ m m'
          tt e2 in
      let (s', m1, e4, e5) = >>=-ok (with_authority deps k authority.pubkey s) _ m m' tt e3 in
      let (current, changed, same) = with_authority-ok k authority.pubkey s s' m m1 e4 in
      let (n, c, b, size, cell', fits, writes, eq) =
        pack_into_account-ok deps s' target m1 m' tt e5 in
      let here : get_elem? m.cells target.account ≡ some c =
        ap (λ (x : Machine). get_elem? x.cells target.account) (sym same) ∙ cell' in
      let one : c ≡ a = cc in
      record {
        a = a;
        a' = with_front b a;
        state = s;
        cell = cell;
        before = reads;
        signer = not-false _ signed;
        current = current;
        after = canonical.reads s' n b (drop (length b) a.contents) size writes ∙ ap some changed;
        same_owner = refl;
        same_lamports = refl;
        written =
            eq
            ∙ ap (λ (x : Machine). record x { cells = set x.cells target.account (with_front b c) })
                same
            ∙ ap (λ (x : Account). record m { cells = set m.cells target.account (with_front b x) })
                one;
      }

  -- A buffer that has no authority takes no write and gets no authority: with any signer both
  -- instructions end with an error of the loader's own and change nothing.
  pub frozen_buffer :
      (offset : ℕ) (bytes : Bytes) (k : Option Pubkey) (target authority : AccountInfo)
      (rest : List AccountInfo) (m : Machine) (a : Account)
      → get_elem? m.cells target.account ≡ some a
      → deps.decode_state a.contents ≡ some (buffer none)
      → authority.is_signer ≡ true
      → (process_write deps offset bytes (target ∷ authority ∷ rest) m ≡ (err (custom 4), m))
        × (process_set_authority deps k (target ∷ authority ∷ rest) m ≡ (err (custom 5), m))
  unfolding process_write process_set_authority
  frozen_buffer offset bytes k target authority rest m a cell state signed =
      (rw (cell, state) refl, rw (signed, cell, state) refl)
