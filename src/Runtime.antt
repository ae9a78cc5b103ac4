-- ===== src/Runtime.antt =====
-- The core of src/runtime.rs: account infos over shared cells, and the state that a call changes.
--
-- An account stands in a cell (`Rc<RefCell<Account>>`), and an info holds the index of its cell, so
-- two infos may share one. A borrow that is not held across another statement cannot fail; the
-- model's borrow fails only on an index that is no cell.
pub mod Cells
pub mod Actions
pub mod Memory
pub mod Syscalls
use Prim.Native.String.{String}
use tiny_solana.Common.{
  ℕ, ◌+◌, ◌-◌, ◌≡◌, Bool, true, false, Option, none, some, List, [], ◌∷◌, get_elem?, set, ◌==◌,
  ◌++◌, length, drop, ltb, if◌then◌else◌,
}
use tiny_solana.Common.Result.{Result, ok, err, panic}
use tiny_solana.Common.Word.{saturating_add, saturating_sub}
use tiny_solana.Common.KeyMap.{KeyMap}
use tiny_solana.Types.{Pubkey, Bytes}
use tiny_solana.Accounts.{Account}
use tiny_solana.Transactions.{Instruction}
use tiny_solana.Transactions.Errors.{ProgramError, account_borrow_failed}

pub record AccountInfo : Type 0 where
  pub pubkey : Pubkey
  pub is_signer : Bool
  pub is_writable : Bool
  pub account : ℕ
  pub executable : Bool
  pub rent_epoch : ℕ

-- The fields of `InvokeContext` that a call does not change.
pub record InvokeContext : Type 0 where
  pub program_id : Pubkey
  pub instruction_data : Bytes
  pub compute_budget : ℕ

-- What a call may change: the account cells, the context's log, meter and call stack, and the
-- program cache of the executor.
pub record Machine : Type 0 where
  pub cells : List Account
  pub log : List String
  pub compute_meter : ℕ
  pub call_stack : List Pubkey
  pub program_cache : KeyMap Bytes

-- A call ends with a value, an error or a panic; what it wrote before stays written.
abbrev pub Action : Type 0 → Type 0
Action A = Machine → Result ProgramError A × Machine

module _ {A : Type 0} where
  abbrev pub pure : A → Action A
  pure a m = (ok a, m)

  abbrev pub raise : ProgramError → Action A
  raise e m = (err e, m)

  abbrev pub abort : Action A
  abort m = (panic, m)

abbrev pub and_then : {A B : Type 0} → Result ProgramError A → (A → Action B) → Action B
and_then (ok a) f m = f a m
and_then (err e) f m = (err e, m)
and_then panic f m = (panic, m)

infixl 5 ◌>>=◌ ◌>>◌
abbrev pub ◌>>=◌ : {A B : Type 0} → Action A → (A → Action B) → Action B
◌>>=◌ c f m = let (r, m') = c m in and_then r f m'

abbrev pub ◌>>◌ : {A B : Type 0} → Action A → Action B → Action B
c >> d = c >>= λ _. d

-- `if bad { return Err(e); }`
abbrev pub raise_if : Bool → ProgramError → Action (Unit {0})
raise_if b e m = (if b then err e else ok tt, m)

abbrev pub borrowed : Option Account → Result ProgramError Account
borrowed none = err account_borrow_failed
borrowed (some a) = ok a

abbrev pub get_cell : ℕ → Action Account
get_cell i m = (borrowed (get_elem? m.cells i), m)

abbrev pub put_cell : ℕ → Account → Action (Unit {0})
put_cell i a m = (ok tt, record m { cells = set m.cells i a })

-- `AccountInfo::lamports`
abbrev pub lamports : AccountInfo → Action ℕ
lamports info = do a ← get_cell info.account; pure a.lamports

-- `AccountInfo::try_borrow_data`, copied out
abbrev pub borrow_data : AccountInfo → Action Bytes
borrow_data info = do a ← get_cell info.account; pure a.contents

-- `AccountInfo::owner`
abbrev pub owner : AccountInfo → Action Pubkey
owner info = do a ← get_cell info.account; pure a.owner

-- `AccountInfo::set_lamports`
abbrev pub set_lamports : AccountInfo → ℕ → Action (Unit {0})
set_lamports info n = do
  a ← get_cell info.account
  put_cell info.account (record a { lamports = n })

-- `AccountInfo::set_owner`
abbrev pub set_owner : AccountInfo → Pubkey → Action (Unit {0})
set_owner info k = do a ← get_cell info.account; put_cell info.account (record a { owner = k })

-- `*info.try_borrow_mut_data()? = bytes`
abbrev pub set_data : AccountInfo → Bytes → Action (Unit {0})
set_data info b = do a ← get_cell info.account; put_cell info.account (record a { contents = b })

-- A trait object `ProgramExecutor`.
abbrev pub Executor : Type 0
Executor = Instruction → InvokeContext → List AccountInfo → Action (Unit {0})

-- `call_stack.pop()`
abbrev pub pop : List Pubkey → List Pubkey
pop [] = []
pop (k ∷ []) = []
pop (k ∷ j ∷ stack) = k ∷ pop (j ∷ stack)

abbrev pub push_call : Pubkey → Machine → Machine
push_call k m = record m { call_stack = m.call_stack ++ k ∷ [] }

abbrev pub pop_call : Machine → Machine
pop_call m = record m { call_stack = pop m.call_stack }

-- `InvokeContext::invoke`: the callee is handed the caller's own context.
unfoldable pub invoke :
    Executor → InvokeContext → Instruction → List AccountInfo → Action (Unit {0})
invoke execute ctx instruction accounts m =
    let (r, m') = execute instruction ctx accounts (push_call instruction.program_id m) in
    (r, pop_call m')

-- `ContextObject::get_remaining`
abbrev pub get_remaining : InvokeContext → Machine → ℕ
get_remaining ctx m = saturating_sub ctx.compute_budget m.compute_meter

-- `ok_or(e)?` on a value that was computed before
abbrev pub or_raise : {A : Type 0} → Option A → ProgramError → Action A
or_raise none e m = (err e, m)
or_raise (some a) e m = (ok a, m)

-- `?` on a result that was computed before
abbrev pub lift : {A : Type 0} → Result ProgramError A → Action A
lift r m = (r, m)

-- `unwrap()`
abbrev pub or_abort : {A : Type 0} → Option A → Action A
or_abort none m = (panic, m)
or_abort (some a) m = (ok a, m)

-- A `RefCell` with the number of its readers.
pub record RefCell : Type 0 where
  pub contents : ℕ
  pub readers : ℕ

abbrev pub borrow : RefCell → RefCell
borrow c = record c { readers = c.readers + 1 }

-- `borrow_mut`, which panics while there is a reader
abbrev pub borrow_mut : RefCell → Action RefCell
borrow_mut c = or_abort (if c.readers == 0 then some c else none)

abbrev pub set_meter : ℕ → Action (Unit {0})
set_meter n m = (ok tt, record m { compute_meter = n })

abbrev pub meter : Action RefCell
meter m = (ok (record { contents = m.compute_meter; readers = 0 }), m)

-- `ContextObject::consume`: the right side of its assignment is evaluated first, and what it borrows
-- is given back at the end of the statement only.
unfoldable pub consume : ℕ → Action (Unit {0})
consume amount = do
  cell ← meter
  let reader = borrow cell
  let sum = saturating_add reader.contents amount
  borrow_mut reader
  set_meter sum

-- `data[..packed.len()].copy_from_slice(&packed)`, which panics on shorter data
unfoldable pub copy_front : AccountInfo → Bytes → Action (Unit {0})
copy_front info packed = do
  old ← borrow_data info
  if ltb (length old) (length packed)
      then abort
      else set_data info (packed ++ drop (length packed) old)
