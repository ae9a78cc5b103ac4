-- ===== src/Runtime/Memory/Tests.antt =====
-- Runs of the memory of a VM program.
use tiny_solana.Common.{zero, suc, ◌≡◌, refl, ◌++◌, true, false, List, [], ◌∷◌, arith, replicate}
use tiny_solana.Common.Result.{ok, panic}
use tiny_solana.Common.Digits.{be_bytes, le_bytes}
use tiny_solana.Types.{Bytes}
use tiny_solana.Runtime.{AccountInfo, Machine}
use tiny_solana.Runtime.Memory.{serialize_parameters, find_accounts}
use tiny_solana.Runtime.Memory.Read.{deserialize_parameters}
use tiny_solana.Runtime.Memory.Whole.{AreSized, deserialize_parameters-serialize_parameters}
use tiny_solana.Runtime.Memory.Wrap.{Written, deserialize_parameters_panics}
use tiny_solana.Samples.{account, info, machine}

abbrev two_cells : Machine
two_cells = machine (record (account 1 100) { contents = 4 ∷ 5 ∷ 6 ∷ [] } ∷ account 2 50 ∷ [])

-- The first account is given twice, and the second is read-only.
abbrev three_infos : List AccountInfo
three_infos = info 1 0 true ∷ record (info 2 1 false) { is_writable = false } ∷ info 1 0 false ∷ []

abbrev memory : Bytes
memory =
    le_bytes 8 3
    ++ (255
        ∷ 1
        ∷ 1
        ∷ (be_bytes 32 1
            ++ (be_bytes 32 0
                ++ (le_bytes 8 100 ++ (le_bytes 8 3 ++ (4 ∷ 5 ∷ 6 ∷ 0 ∷ 0 ∷ 0 ∷ 0 ∷ 0 ∷ []))))))
    ++ (255 ∷ 0 ∷ 0 ∷ (be_bytes 32 2 ++ (be_bytes 32 0 ++ (le_bytes 8 50 ++ le_bytes 8 0))))
    ++ (0 ∷ [])
    ++ (le_bytes 8 1 ++ 9 ∷ [])

serialize_parameters_writes : serialize_parameters two_cells.cells three_infos (9 ∷ []) ≡ ok memory
unfolding serialize_parameters find_accounts be_bytes le_bytes
serialize_parameters_writes = refl

two_cells-AreSized : AreSized two_cells.cells
two_cells-AreSized zero a e = ground arith
two_cells-AreSized (suc zero) a e = ground arith
two_cells-AreSized (suc (suc i)) a e = ground arith

deserialize_parameters-serialize_parameters_example :
    deserialize_parameters three_infos memory two_cells ≡ (ok tt, two_cells)
unfolding be_bytes le_bytes
deserialize_parameters-serialize_parameters_example =
    deserialize_parameters-serialize_parameters three_infos (9 ∷ []) memory two_cells
      two_cells-AreSized (omega arith) (omega arith) serialize_parameters_writes

-- A length whose end is two behind the end of the address space.
abbrev far : Bytes
far = 255 ∷ replicate 7 255

abbrev poisoned : Bytes
poisoned =
    replicate 8 0
    ++ (255 ∷ 1 ∷ 1 ∷ (replicate 32 0 ++ (replicate 32 0 ++ (replicate 8 0 ++ (far ++ [])))))

poisoned-Written :
    Written poisoned (replicate 8 0) (replicate 32 0) (replicate 32 0) (replicate 8 0) far [] 1 1
poisoned-Written = record {
  counted = refl;
  keyed = refl;
  owned = refl;
  paid = refl;
  measured = refl;
  shape = refl;
}

deserialize_parameters_panics_example :
    (deserialize_parameters (info 1 0 true ∷ []) poisoned two_cells).0 ≡ panic
deserialize_parameters_panics_example =
    deserialize_parameters_panics poisoned (replicate 8 0) (replicate 32 0) (replicate 32 0)
      (replicate 8 0) far [] 1 1 poisoned-Written (omega arith) (info 1 0 true) (omega arith)
      (omega arith) [] two_cells (record (account 1 100) { contents = 4 ∷ 5 ∷ 6 ∷ [] }) refl
      (omega arith)
