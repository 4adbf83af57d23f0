-- ===== src/Protocol/Id.antt =====
-- The packet ids of crates/protocol/src/id.rs that the code uses.
use rust_mine.Base.{ℕ}

abbrev pub login : ℕ
login = 0x01

abbrev pub play_status : ℕ
play_status = 0x02

abbrev pub disconnect : ℕ
disconnect = 0x05

abbrev pub resource_packs_info : ℕ
resource_packs_info = 0x06

abbrev pub resource_pack_stack : ℕ
resource_pack_stack = 0x07

abbrev pub resource_pack_client_response : ℕ
resource_pack_client_response = 0x08

abbrev pub set_time : ℕ
set_time = 0x0a

abbrev pub start_game : ℕ
start_game = 0x0b

abbrev pub move_player : ℕ
move_player = 0x13

abbrev pub break_block : ℕ
break_block = 0x14

abbrev pub place_block : ℕ
place_block = 0x16

abbrev pub set_spawn_position : ℕ
set_spawn_position = 0x2b

abbrev pub respawn : ℕ
respawn = 0x30

abbrev pub chat_message : ℕ
chat_message = 0x31

abbrev pub level_chunk : ℕ
level_chunk = 0x3a

abbrev pub set_difficulty : ℕ
set_difficulty = 0x3c

abbrev pub set_player_game_type : ℕ
set_player_game_type = 0x3e

abbrev pub player_list : ℕ
player_list = 0x3f

abbrev pub request_chunk_radius : ℕ
request_chunk_radius = 0x45

abbrev pub chunk_radius_updated : ℕ
chunk_radius_updated = 0x46

abbrev pub command_request : ℕ
command_request = 0x4e

abbrev pub network_chunk_publisher_update : ℕ
network_chunk_publisher_update = 0x79

abbrev pub biome_definition_list : ℕ
biome_definition_list = 0x7a

abbrev pub network_settings : ℕ
network_settings = 0x8f

abbrev pub request_network_settings : ℕ
request_network_settings = 0xc1
