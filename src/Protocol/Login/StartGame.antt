-- ===== src/Protocol/Login/StartGame.antt =====
-- The StartGame packet of crates/protocol/src/login.rs, its fields in the source's order.
use rust_mine.Base.{ℕ, ◌^◌, List, [], ◌∷◌, ◌++◌, replicate}
use rust_mine.Base.Int.{ℤ, pos, negsuc, to_bits}
use rust_mine.Base.Bytes.{to_le_bytes}
use rust_mine.Base.Text.{codes}
use rust_mine.Nbt.Varint.{write_var_u32, write_var_u64, write_var_i32, write_var_i64}
use rust_mine.Protocol.{write_packet}
use rust_mine.Protocol.Id
use rust_mine.Protocol.Login.{concat, write_str, i32_le, as_i32, supported_game_version}

-- Who joins and where: the fields in front of the settings.
abbrev pub player_fields : ℤ → ℕ → ℕ → ℕ × ℕ × ℕ → List (List ℕ)
player_fields entity_id runtime_id player_gamemode spawn =
    write_var_i64 [] entity_id
    ∷ write_var_u64 [] runtime_id
    ∷ write_var_i32 [] (as_i32 player_gamemode)
    ∷ to_le_bytes 4 spawn.0
    ∷ to_le_bytes 4 spawn.1
    ∷ to_le_bytes 4 spawn.2
    ∷ to_le_bytes 4 0
    ∷ to_le_bytes 4 0
    ∷ []

-- The settings up to the game rules.
abbrev pub world_fields : ℕ → ℤ → List (List ℕ)
world_fields player_gamemode seed =
    write_var_i64 [] seed
    ∷ write_var_i32 [] (as_i32 (to_bits (2 ^ 63) seed))
    ∷ (0 ∷ [])
    ∷ write_str [] []
    ∷ write_var_i32 [] (pos 0)
    ∷ write_var_i32 [] (pos 1)
    ∷ write_var_i32 [] (as_i32 player_gamemode)
    ∷ write_var_i32 [] (pos 1)
    ∷ write_var_i32 [] (pos 0)
    ∷ write_var_i32 [] (pos 64)
    ∷ write_var_i32 [] (pos 0)
    ∷ (1 ∷ [])
    ∷ write_var_i32 [] (pos 0)
    ∷ (0 ∷ [])
    ∷ (0 ∷ [])
    ∷ write_var_i32 [] (negsuc 0)
    ∷ write_var_i32 [] (pos 0)
    ∷ (0 ∷ [])
    ∷ write_str [] []
    ∷ to_le_bytes 4 0
    ∷ to_le_bytes 4 0
    ∷ (0 ∷ [])
    ∷ (1 ∷ [])
    ∷ (1 ∷ [])
    ∷ write_var_i32 [] (pos 0)
    ∷ write_var_i32 [] (pos 0)
    ∷ (1 ∷ [])
    ∷ (0 ∷ [])
    ∷ []

-- The settings from the game rules on.
abbrev pub rule_fields : List (List ℕ)
rule_fields =
    write_var_u32 [] 0
    ∷ write_var_u32 [] 0
    ∷ (0 ∷ [])
    ∷ (0 ∷ [])
    ∷ (0 ∷ [])
    ∷ write_var_i32 [] (pos 1)
    ∷ i32_le (pos 4)
    ∷ replicate 10 0
    ∷ write_str [] supported_game_version
    ∷ i32_le (pos 0)
    ∷ i32_le (pos 0)
    ∷ (0 ∷ [])
    ∷ (1 ∷ [])
    ∷ write_str [] []
    ∷ (0 ∷ [])
    ∷ (0 ∷ [])
    ∷ (0 ∷ [])
    ∷ write_str [] []
    ∷ write_str [] []
    ∷ write_str [] []
    ∷ []

abbrev pub zero_uuid : List ℕ
zero_uuid = codes "00000000-0000-0000-0000-000000000000"

-- The level and what follows it.
abbrev pub level_fields : List ℕ → List (List ℕ)
level_fields world_name =
    write_str [] world_name
    ∷ write_str [] world_name
    ∷ write_str [] zero_uuid
    ∷ (0 ∷ [])
    ∷ write_var_i32 [] (pos 0)
    ∷ i32_le (pos 40)
    ∷ (0 ∷ [])
    ∷ to_le_bytes 8 0
    ∷ write_var_i32 [] (pos 0)
    ∷ (0 ∷ [])
    ∷ (0 ∷ [])
    ∷ write_str [] zero_uuid
    ∷ (1 ∷ [])
    ∷ (0 ∷ [])
    ∷ to_le_bytes 4 0
    ∷ replicate 16 0
    ∷ (0 ∷ [])
    ∷ (0 ∷ [])
    ∷ write_var_i32 [] (pos 0)
    ∷ write_var_i32 [] (pos 0)
    ∷ []

unfoldable pub start_game : ℤ → ℕ → ℕ → ℕ × ℕ × ℕ → ℤ → List ℕ → List ℕ
unfolding write_str
start_game entity_id runtime_id player_gamemode spawn seed world_name = write_packet Id.start_game (
    concat (player_fields entity_id runtime_id player_gamemode spawn)
    ++ concat (world_fields player_gamemode seed)
    ++ concat rule_fields
    ++ concat (level_fields world_name))
