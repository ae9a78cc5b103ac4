-- ===== src/Programs/Ids.antt =====
-- src/programs/ids.rs. The constants are the values of the base-58 strings, as big-endian numbers.
use tiny_solana.Types.{Pubkey}

-- "11111111111111111111111111111111"
abbrev pub system_program_id : Pubkey
system_program_id = 0

-- "TokenkegQfeZyiNwAJbNbGKPFXCWuBvf9Ss623VQ5DA"
abbrev pub token_program_id : Pubkey
token_program_id = 0x6ddf6e1d765a193d9cbe146ceeb79ac1cb485ed5f5b37913a8cf5857eff00a9

-- "BPFLoaderUpgradeab1e111111111111111111111111"
abbrev pub bpf_loader_upgradeable_program_id : Pubkey
bpf_loader_upgradeable_program_id =
    0x9a47dcebcaf4a21337a4d0440c9575be2c1df7d727c257bf92e9a7a105000000
