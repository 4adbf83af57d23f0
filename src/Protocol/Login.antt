-- ===== src/Protocol/Login.antt =====
-- The packets of crates/protocol/src/login.rs. A payload that the source pushes field by field is
-- the list of its fields, put together; an f32 is its bit pattern, so 0.0 is 0; a `&str` is the
-- list of its bytes.
pub mod StartGame
use rust_mine.Base.{ℕ, zero, suc, ◌+◌, ◌*◌, ◌%◌, ◌^◌, List, [], ◌∷◌, ◌++◌, length, replicate}
use rust_mine.Base.Int.{ℤ, pos, to_bits, of_bits}
use rust_mine.Base.Bytes.{to_le_bytes, to_be_bytes}
use rust_mine.Base.Text.{codes}
use rust_mine.Nbt.Varint.{write_var_u32, write_var_i32, write_var_i64}
use rust_mine.Protocol.{write_packet}
use rust_mine.Protocol.Chunk.{zero_words}
use rust_mine.Protocol.Id

abbrev pub supported_protocol_version : ℕ
supported_protocol_version = 1001

abbrev pub supported_game_version : List ℕ
supported_game_version = codes "1.26.30"

abbrev pub concat : List (List ℕ) → List ℕ
concat [] = []
concat (field ∷ fields) = field ++ concat fields

unfoldable pub write_str : List ℕ → List ℕ → List ℕ
write_str buf s = write_var_u32 buf (length s % 2 ^ 32) ++ s

-- `v.to_le_bytes()` of an i32, and `v as i32` of a u32.
abbrev pub i32_le : ℤ → List ℕ
i32_le v = to_le_bytes 4 (to_bits (2 ^ 31) v)

abbrev pub as_i32 : ℕ → ℤ
as_i32 v = of_bits (2 ^ 31) (v % 2 ^ 32)

unfoldable pub network_settings : ℕ → List ℕ
network_settings compression_threshold = write_packet Id.network_settings (
    concat (
      to_le_bytes 2 compression_threshold
      ∷ to_le_bytes 2 0
      ∷ (0 ∷ [])
      ∷ (0 ∷ [])
      ∷ to_le_bytes 4 0
      ∷ []))

unfoldable pub play_status : ℤ → List ℕ
play_status status = write_packet Id.play_status (to_be_bytes 4 (to_bits (2 ^ 31) status))

abbrev pub play_status_login_success : ℤ
play_status_login_success = pos 0

abbrev pub play_status_spawn : ℤ
play_status_spawn = pos 3

abbrev pub play_status_player_spawn_code : ℤ
play_status_player_spawn_code = pos 4

unfoldable pub play_status_player_spawn : List ℕ
unfolding play_status
play_status_player_spawn = play_status play_status_player_spawn_code

unfoldable pub disconnect : List ℕ → List ℕ
disconnect message =
    write_packet Id.disconnect (write_var_u32 (0 ∷ []) (length message % 2 ^ 32) ++ message)

unfoldable pub resource_packs_info : List ℕ
resource_packs_info =
    write_packet Id.resource_packs_info
      (concat ((0 ∷ []) ∷ (0 ∷ []) ∷ (0 ∷ []) ∷ (0 ∷ []) ∷ to_le_bytes 2 0 ∷ to_le_bytes 2 0 ∷ []))

unfoldable pub resource_pack_stack : List ℕ
resource_pack_stack =
    let ver = write_var_u32 [] (length supported_game_version) ++ supported_game_version in
    write_packet Id.resource_pack_stack (
      concat (
        (0 ∷ [])
        ∷ write_var_u32 [] 0
        ∷ write_var_u32 [] 0
        ∷ ver
        ∷ write_var_u32 [] 0
        ∷ (0 ∷ [])
        ∷ ver
        ∷ []))

unfoldable pub set_spawn_position : List ℕ
set_spawn_position = write_packet Id.set_spawn_position (
    concat (
      write_var_i32 [] (pos 2)
      ∷ write_var_i32 [] (pos 0)
      ∷ write_var_i32 [] (pos 64)
      ∷ write_var_i32 [] (pos 0)
      ∷ write_var_i32 [] (pos 0)
      ∷ (0 ∷ [])
      ∷ to_le_bytes 4 0
      ∷ []))

unfoldable pub set_time : ℤ → List ℕ
set_time time = write_packet Id.set_time (to_be_bytes 4 (to_bits (2 ^ 31) time))

unfoldable pub set_difficulty : ℕ → List ℕ
set_difficulty difficulty = write_packet Id.set_difficulty (write_var_u32 [] difficulty)

unfoldable pub set_player_game_type : ℕ → List ℕ
set_player_game_type gamemode =
    write_packet Id.set_player_game_type (write_var_i32 [] (as_i32 gamemode))

-- chunk.rs has a function of the same name, like the next but one.
unfoldable pub chunk_radius_updated : ℤ → List ℕ
chunk_radius_updated radius = write_packet Id.chunk_radius_updated (write_var_i32 [] radius)

unfoldable pub biome_definition_list : List ℕ
biome_definition_list = write_packet Id.biome_definition_list (0 ∷ [])

unfoldable pub network_chunk_publisher_update : ℤ × ℤ × ℤ → ℕ → List ℕ
network_chunk_publisher_update coords radius = write_packet Id.network_chunk_publisher_update (
    concat (
      write_var_i32 [] coords.0
      ∷ write_var_i32 [] coords.1
      ∷ write_var_i32 [] coords.2
      ∷ to_le_bytes 4 radius
      ∷ to_le_bytes 4 0
      ∷ []))

-- The payload of the one subchunk; its third byte, a height, is none that decode.rs reads.
unfoldable pub empty_chunk_data : List ℕ
unfolding zero_words
empty_chunk_data = write_var_u32 (write_var_u32 (8 ∷ 1 ∷ 0 ∷ 1 ∷ zero_words 128) 1) 0

unfoldable pub empty_level_chunk : ℤ → ℤ → ℕ → List ℕ
unfolding empty_chunk_data
empty_level_chunk chunk_x chunk_z subchunk_count = write_packet Id.level_chunk (
    concat (
      write_var_i32 [] chunk_x
      ∷ write_var_i32 [] chunk_z
      ∷ to_le_bytes 4 subchunk_count
      ∷ (0 ∷ [])
      ∷ to_le_bytes 4 (length empty_chunk_data % 2 ^ 32)
      ∷ empty_chunk_data
      ∷ []))

-- The skin of a player in the list: empty texts, and sizes and counts of zero.
abbrev pub empty_skin : List (List ℕ)
empty_skin =
    write_str [] []
    ∷ write_str [] []
    ∷ write_str [] []
    ∷ write_str [] []
    ∷ write_str [] []
    ∷ write_str [] []
    ∷ to_le_bytes 4 0
    ∷ to_le_bytes 4 0
    ∷ write_var_u32 [] 0
    ∷ write_var_u32 [] 0
    ∷ to_le_bytes 4 0
    ∷ to_le_bytes 4 0
    ∷ write_var_u32 [] 0
    ∷ (0 ∷ 0 ∷ 0 ∷ 1 ∷ [])
    ∷ write_str [] []
    ∷ write_str [] []
    ∷ write_str [] (codes "wide")
    ∷ write_var_u32 [] 0
    ∷ write_var_u32 [] 0
    ∷ to_le_bytes 4 0
    ∷ []

unfoldable pub player_list_add : List ℕ → List ℕ → ℤ → List ℕ
unfolding write_str
player_list_add xuid username entity_id = write_packet Id.player_list (
    concat (
      (0 ∷ [])
      ∷ write_var_u32 [] 1
      ∷ replicate 16 0
      ∷ write_var_i64 [] entity_id
      ∷ write_str [] username
      ∷ write_str [] xuid
      ∷ write_str [] []
      ∷ i32_le (pos 0)
      ∷ empty_skin))
