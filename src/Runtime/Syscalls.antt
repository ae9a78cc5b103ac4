-- ===== src/Runtime/Syscalls.antt =====
-- src/syscalls.rs: what a VM program calls. The VM's memory and UTF-8 are parameters.
use Prim.Native.String.{String, ◌++◌}
use tiny_solana.Common.{
  ℕ, ◌≡◌, refl, inl, inr, ◌⊎◌, Option, none, some, List, [], ◌∷◌, ◌==◌, if◌then◌else◌,
}
use tiny_solana.Common
use tiny_solana.Common.Result.{Result, ok, err, panic}
use tiny_solana.Types.{Bytes}
use tiny_solana.Transactions.Errors.{ProgramError, internal_error}
use tiny_solana.Runtime.{Machine}

pub data SyscallError : Type 0 where
  invalid_string : SyscallError
  panic_at : (file : String) (line column : ℕ) → SyscallError

-- `MemoryMapping::map` for loading, as the bytes at the address that it gives; `String::from_utf8`;
-- and the decimal text of a number.
pub record SyscallDeps : Type 0 where
  pub map_load : ℕ → ℕ → Option Bytes
  pub from_utf8 : Bytes → Option String
  pub number_text : ℕ → String

-- `push` on the log collector
abbrev pub push_log : String → Machine → Machine
push_log message m = record m { log = Common.◌++◌ m.log (message ∷ []) }

module _ (deps : SyscallDeps) where
  -- `From<SyscallError> for ProgramError`
  abbrev pub program_error_of : SyscallError → ProgramError
  program_error_of invalid_string = internal_error "invalid string"
  program_error_of (panic_at file line column) =
      internal_error
        ("panic: " ++ file ++ " at " ++ deps.number_text line ++ ":" ++ deps.number_text column)

  abbrev pub text_of : Option String → Result SyscallError String
  text_of none = err invalid_string
  text_of (some s) = ok s

  abbrev pub text_at : Option Bytes → Result SyscallError String
  text_at none = err invalid_string
  text_at (some bytes) = text_of (deps.from_utf8 bytes)

  unfoldable pub translate_string : ℕ → ℕ → Result SyscallError String
  translate_string addr len = if len == 0 then ok "" else text_at (deps.map_load addr len)

  abbrev pub log_text : Result SyscallError String → Machine → Result SyscallError ℕ × Machine
  log_text (ok message) m = (ok 0, push_log message m)
  log_text (err e) m = (err e, m)
  log_text panic m = (panic, m)

  -- `SyscallLog`
  unfoldable pub syscall_log : ℕ → ℕ → Machine → Result SyscallError ℕ × Machine
  syscall_log addr len m = log_text (translate_string addr len) m

  abbrev pub panic_text :
      ℕ → ℕ → Result SyscallError String → Machine → Result SyscallError ℕ × Machine
  panic_text line column (ok file) m = (
    err (panic_at file line column),
    push_log
        ("panic in "
          ++ file
          ++ " at line "
          ++ deps.number_text line
          ++ ", column "
          ++ deps.number_text column)
        m,
  )
  panic_text line column (err e) m = (err e, m)
  panic_text line column panic m = (panic, m)

  -- `SyscallPanic`
  unfoldable pub syscall_panic : ℕ → ℕ → ℕ → ℕ → Machine → Result SyscallError ℕ × Machine
  syscall_panic file_addr file_len line column m =
      panic_text line column (translate_string file_addr file_len) m
