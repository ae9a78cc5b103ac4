-- ===== src/Programs/System/Tests.antt =====
-- Runs of the system program.
use tiny_solana.Common.{
  ◌≡◌, refl, true, false, Option, none, some, List, [], ◌∷◌, arith, get_elem?, map,
}
use tiny_solana.Common.Result.{err}
use tiny_solana.Types.{Bytes}
use tiny_solana.Transactions.Errors.{missing_required_signature}
use tiny_solana.Runtime.{Machine, AccountInfo}
use tiny_solana.Runtime.Cells.{total}
use tiny_solana.Programs.System.{
  SystemInstruction, transfer, process_transfer, entrypoint, move_lamports,
}
use tiny_solana.Programs.System.Effects.{entrypoint-total}
use tiny_solana.Programs.System.Authority.{entrypoint-Keeps, entrypoint-read_only, Keeps, read_only}
use tiny_solana.Samples.{account, info, machine, context}

-- One byte of instruction data is a transfer of that many lamports.
abbrev decode_transfer : Bytes → Option SystemInstruction
decode_transfer [] = none
decode_transfer (n ∷ _) = some (transfer n)

abbrev two_cells : Machine
two_cells = machine (account 1 100 ∷ account 2 50 ∷ account 3 9 ∷ [])

abbrev payment : List AccountInfo
payment = info 1 0 true ∷ info 2 1 false ∷ []

entrypoint_pays :
    (entrypoint decode_transfer (context (30 ∷ [])) payment two_cells).1.cells
    ≡ account 1 70 ∷ account 2 80 ∷ account 3 9 ∷ []
unfolding entrypoint process_transfer move_lamports
entrypoint_pays = refl

entrypoint_unsigned :
    (entrypoint decode_transfer
      (context (30 ∷ []))
      (info 2 1 false ∷ info 1 0 true ∷ [])
      two_cells).0
    ≡ err missing_required_signature
unfolding entrypoint process_transfer move_lamports
entrypoint_unsigned = refl

entrypoint-total_example :
    total (entrypoint decode_transfer (context (30 ∷ [])) payment two_cells).1.cells ≡ 159
entrypoint-total_example =
    entrypoint-total decode_transfer (context (30 ∷ [])) payment two_cells
      (omega arith, (omega arith, tt)) (omega arith)

entrypoint-Keeps_example :
    Keeps
      (account 2 50)
      (get_elem? (entrypoint decode_transfer (context (30 ∷ [])) payment two_cells).1.cells 1)
entrypoint-Keeps_example =
    entrypoint-Keeps decode_transfer (context (30 ∷ [])) payment two_cells 1 (account 2 50) refl
      (omega arith) refl

entrypoint-read_only_example :
    entrypoint decode_transfer (context (30 ∷ [])) (map read_only payment) two_cells
    ≡ entrypoint decode_transfer (context (30 ∷ [])) payment two_cells
entrypoint-read_only_example =
    entrypoint-read_only decode_transfer (context (30 ∷ [])) payment two_cells
