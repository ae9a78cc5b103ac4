-- ===== src/Programs/Loader/Close.antt =====
-- What closing an account of the loader does to the lamports.
use tiny_solana.Common.{
  ◌+◌, ◌<◌, ◌≤◌, ◌≡◌, ◌≢◌, refl, sym, ap, ◌∙◌, true, some, List, [], ◌∷◌, arith, get_elem?, set,
  length-set, get_elem?-set_ne, get_elem?-set_self, get_elem?-lt,
}
use tiny_solana.Common.Result.{ok}
use tiny_solana.Common.Word.{u64_mod, saturating_add}
use tiny_solana.Accounts.{Account}
use tiny_solana.Runtime.{AccountInfo, Machine, set_lamports, set_data}
use tiny_solana.Runtime.Cells.{total, total-set, lamports-le-total}
use tiny_solana.Programs.Loader.{LoaderDeps, drain, process_close}

-- An account that was closed.
abbrev pub closed : Account → Account
closed x = record x { lamports = 0; contents = [] }

module _ (from to : AccountInfo) (m : Machine) (x y : Account)
    (from_cell : get_elem? m.cells from.account ≡ some x)
    (to_cell : get_elem? m.cells to.account ≡ some y) where
  abbrev pub paid : Account
  paid = record y { lamports = saturating_add y.lamports x.lamports }

  abbrev pub paid_cells : List Account
  paid_cells = set m.cells to.account paid

  -- The account to close after the payment: the receiver if both are one cell.
  abbrev pub drained_cells : Account → List Account
  drained_cells z =
      set (set paid_cells from.account (record z { lamports = 0 })) from.account (closed z)

  pub drain_eq :
      (z : Account)
      → get_elem? paid_cells from.account ≡ some z
      → drain from to m ≡ (ok tt, record m { cells = drained_cells z })
  unfolding drain
  drain_eq z cell =
      let again : get_elem? (set paid_cells from.account (record z { lamports = 0 })) from.account
          ≡ some (record z { lamports = 0 }) =
        get_elem?-set_self paid_cells from.account (record z { lamports = 0 })
          (get_elem?-lt paid_cells from.account cell) in
      rw (to_cell, from_cell, set_lamports, set_data, to_cell, cell, again) refl

  drained-total :
      (z : Account)
      → get_elem? paid_cells from.account ≡ some z
      → total (drained_cells z) + z.lamports + y.lamports ≡ total m.cells + paid.lamports
  drained-total z cell =
      let emptied = record z { lamports = 0 } in
      let again =
        get_elem?-set_self paid_cells from.account emptied
          (get_elem?-lt paid_cells from.account cell) in
      omega (
        arith,
        total-set m.cells to.account y paid to_cell,
        total-set paid_cells from.account z emptied cell,
        total-set (set paid_cells from.account emptied) from.account emptied (closed z) again,
      )

  both-le-total : from.account ≢ to.account → x.lamports + y.lamports ≤ total m.cells
  both-le-total apart =
      let without = record y { lamports = 0 } in
      let there =
        get_elem?-set_ne m.cells to.account from.account without (λ e. apart (sym e)) ∙ from_cell in
      omega (
        arith,
        total-set m.cells to.account y without to_cell,
        lamports-le-total (set m.cells to.account without) from.account x there,
      )

  drain_apart :
      from.account ≢ to.account
      → total m.cells < u64_mod
      → ((drain from to m).0 ≡ ok tt)
        × (total (drain from to m).1.cells ≡ total m.cells)
        × (get_elem? (drain from to m).1.cells from.account ≡ some (closed x))
  drain_apart apart bounded =
      let cell =
        get_elem?-set_ne m.cells to.account from.account paid (λ e. apart (sym e)) ∙ from_cell in
      let e = drain_eq x cell in
      let sum = both-le-total apart in
      let filled : saturating_add y.lamports x.lamports ≡ y.lamports + x.lamports =
        ground (arith, sum) in
      (
        ap (λ p. p.0) e,
        ap (λ p. total p.1.cells) e ∙ omega (arith, drained-total x cell, filled),
        ap (λ p. get_elem? p.1.cells from.account) e
            ∙ get_elem?-set_self (set paid_cells from.account (record x { lamports = 0 }))
                from.account (closed x)
                (omega (
                  arith,
                  length-set paid_cells from.account (record x { lamports = 0 }),
                  get_elem?-lt paid_cells from.account cell,
                )),
      )

  drain_aliased :
      from.account ≡ to.account
      → ((drain from to m).0 ≡ ok tt)
        × (total (drain from to m).1.cells + x.lamports ≡ total m.cells)
  drain_aliased same =
      let cell : get_elem? paid_cells from.account ≡ some paid =
        ap (get_elem? paid_cells) same
        ∙ get_elem?-set_self m.cells to.account paid (get_elem?-lt m.cells to.account to_cell) in
      let e = drain_eq paid cell in
      let one : x.lamports ≡ y.lamports = ground (arith, from_cell, to_cell, same) in
      (
        ap (λ p. p.0) e,
        ap (λ p. total p.1.cells + x.lamports) e ∙ omega (arith, drained-total paid cell, one),
      )

module _ {Rent : Type 0} (deps : LoaderDeps Rent) (target recipient authority : AccountInfo)
    (rest : List AccountInfo) (m : Machine) (x y : Account) (signed : authority.is_signer ≡ true)
    (target_cell : get_elem? m.cells target.account ≡ some x)
    (recipient_cell : get_elem? m.cells recipient.account ≡ some y) where
  process_close_eq :
      process_close deps (target ∷ recipient ∷ authority ∷ rest) m ≡ drain target recipient m
  unfolding process_close
  process_close_eq = rw signed refl

  -- Closing between two cells succeeds with any signer as the authority, whatever the account to
  -- close holds: that account is left without lamports and data, and the sum of all lamports, which
  -- is a `u64`, is as before.
  pub process_close-total :
      target.account ≢ recipient.account
      → total m.cells < u64_mod
      → ((process_close deps (target ∷ recipient ∷ authority ∷ rest) m).0 ≡ ok tt)
        × (total (process_close deps (target ∷ recipient ∷ authority ∷ rest) m).1.cells
            ≡ total m.cells)
        × (get_elem?
              (process_close deps (target ∷ recipient ∷ authority ∷ rest) m).1.cells
              target.account
            ≡ some (closed x))
  process_close-total apart bounded =
      rw process_close_eq
        (drain_apart target recipient m x y target_cell recipient_cell apart bounded)

  -- Closing into the same cell succeeds with any signer as the authority and destroys the lamports of
  -- the account.
  pub process_close_aliased :
      target.account ≡ recipient.account
      → ((process_close deps (target ∷ recipient ∷ authority ∷ rest) m).0 ≡ ok tt)
        × (total (process_close deps (target ∷ recipient ∷ authority ∷ rest) m).1.cells + x.lamports
            ≡ total m.cells)
  process_close_aliased same =
      rw process_close_eq (drain_aliased target recipient m x y target_cell recipient_cell same)
