-- ===== src/Transactions/Metas.antt =====
-- What a transaction declares about a key: the description that the sets built by the scheduler,
-- the lock table and the cost model are compared with.
use tiny_solana.Common.{Bool, true, false, not, ◌&&◌, ◌||◌, List, [], ◌∷◌, ◌==◌}
use tiny_solana.Types.{Pubkey}
use tiny_solana.Transactions.{AccountMeta, Instruction, Transaction}

-- Some account meta names the key with this writability.
abbrev pub names : Bool → Pubkey → List AccountMeta → Bool
names w k [] = false
names true k (m ∷ ms) = (m.is_writable && k == m.pubkey) || names true k ms
names false k (m ∷ ms) = (not m.is_writable && k == m.pubkey) || names false k ms

abbrev pub some_names : Bool → Pubkey → List Instruction → Bool
some_names w k [] = false
some_names w k (ix ∷ ixs) = names w k ix.accounts || some_names w k ixs

-- The transaction marks the key writable in some instruction.
abbrev pub writes : Transaction → Pubkey → Bool
writes tx k = some_names true k tx.message.instructions

-- The transaction names the key without marking it writable in some instruction.
abbrev pub reads : Transaction → Pubkey → Bool
reads tx k = some_names false k tx.message.instructions
