-- ===== src/Server/Session/Tests.antt =====
-- The theorems on sessions at concrete ones, and tests.
use rust_mine.Base.{ℕ, ◌≡◌, refl, map, List, [], ◌∷◌, ◌++◌, take, some, none, true, false, arith}
use rust_mine.Base.Int.{negsuc, pos}
use rust_mine.Base.Text.{codes}
use rust_mine.Nbt.Varint.{read_var_i32, write_var_i32}
use rust_mine.Protocol.{write_string}
use rust_mine.Protocol.Id
use rust_mine.Protocol.Interaction.{got_int}
use rust_mine.Server.Session.{
  Session, spawned, wait_login, send_settings, log_in, spawn, set_radius, request_radius, closed,
  new_session, outbound, login_name, on_packet, on_packets,
}
use rust_mine.Server.Session.Extract.{
  find_subslice, needle, quote, to_text, undo_zigzag, decode_loop, decode_varint_at, decode_varint,
  extract_offline_username, extract_command,
}
use rust_mine.Server.Session.Invariant.{
  IsSession, Heard, IsSettingsRequest, IsLogin, IsPacksResponse, on_packets-IsSession,
  on_packets-Heard,
}
use rust_mine.Server.Session.Handshake.{handshake_packets, on_packets-spawned}
use rust_mine.Server.Session.Reading.{
  extract_command-write_string, on_packet-panics, extract_offline_username-colon,
  decode_varint_at-read_var_i32, decode_varint_at-write_var_i32,
}

-- The protocol number 1001, and nothing else.
abbrev login_body : List ℕ
login_body = 0 ∷ 0 ∷ 3 ∷ 233 ∷ []

-- With a chat message that comes too early, and a radius of 64 after the spawn.
abbrev client : List (List ℕ)
client =
    (0x31 ∷ 1 ∷ 1 ∷ [])
    ∷ (0xc1 ∷ [])
    ∷ (0x01 ∷ login_body)
    ∷ []
    ∷ (0x08 ∷ [])
    ∷ (0x45 ∷ 128 ∷ 1 ∷ [])
    ∷ []

on_packets-spawned_example :
    (s : Session) × (on_packets
        (((0x31 ∷ 1 ∷ 1 ∷ []) ∷ [])
          ++ (Id.request_network_settings ∷ [])
            ∷ ([]
                ++ (Id.login ∷ login_body)
                  ∷ (([] ∷ []) ++ (Id.resource_pack_client_response ∷ []) ∷ [])))
        (new_session (pos 7))
        false
      ≡ some (s, true))
    × (s.state ≡ spawned)
    × (s.username ≡ login_name (pos 7) login_body)
    × (s.sent ≡ map outbound (handshake_packets (pos 7) login_body))
on_packets-spawned_example =
    on_packets-spawned (pos 7) [] login_body [] ((0x31 ∷ 1 ∷ 1 ∷ []) ∷ []) [] ([] ∷ [])
      (omega arith) tt (tt, tt) refl

-- What the client brings about.
abbrev client_after : Session
client_after =
    request_radius (128 ∷ 1 ∷ []) (spawn (log_in login_body (send_settings (new_session (pos 7)))))

client_runs : on_packets client (new_session (pos 7)) false ≡ some (client_after, false)
unfolding on_packets log_in send_settings
client_runs = refl

client_state : client_after.state ≡ spawned
unfolding request_radius spawn set_radius decode_varint decode_varint_at decode_loop undo_zigzag
client_state = refl

on_packets-IsSession_example : IsSession (pos 7) client_after
on_packets-IsSession_example = on_packets-IsSession (pos 7) client client_after false client_runs

on_packets-Heard_example : Heard (IsSettingsRequest ∷ IsLogin ∷ IsPacksResponse ∷ []) client
on_packets-Heard_example =
    on_packets-Heard (pos 7) client client_after false client_runs client_state

radius_is_cut : client_after.view_distance ≡ 32
unfolding request_radius spawn set_radius decode_varint decode_varint_at decode_loop undo_zigzag
radius_is_cut = refl

-- "/say" and its length leave "/s".
extract_command-write_string_example :
    extract_command (write_string [] (codes "/say") ++ [])
    ≡ some (to_text (take 2 (codes "/say" ++ [])))
extract_command-write_string_example =
    extract_command-write_string (codes "/say") [] 2 refl (omega arith) (omega arith)

on_packet-panics_example :
    (on_packet Id.chat_message (1 ∷ 65 ∷ []) client_after ≡ none)
    × (on_packet Id.command_request (1 ∷ 65 ∷ []) client_after ≡ none)
on_packet-panics_example = on_packet-panics client_after 65 [] client_state

-- A name in JSON is read as the colon in front of it.
abbrev before_name : List ℕ
before_name = 123 ∷ quote ∷ []

abbrev behind_colon : List ℕ
behind_colon = codes "Steve" ++ quote ∷ 125 ∷ []

extract_offline_username-colon_example :
    extract_offline_username (before_name ++ (needle ++ quote ∷ 58 ∷ quote ∷ behind_colon))
    ≡ some (58 ∷ [])
unfolding find_subslice
extract_offline_username-colon_example =
    extract_offline_username-colon before_name behind_colon refl

decode_varint_at-read_var_i32_example :
    decode_varint_at (5 ∷ 9 ∷ []) ≡ got_int (read_var_i32 (5 ∷ 9 ∷ []))
decode_varint_at-read_var_i32_example = decode_varint_at-read_var_i32 (5 ∷ 9 ∷ [])

old_client :
    (s : Session) × (on_packet 0x01
        (0 ∷ 0 ∷ 0 ∷ 1 ∷ [])
        (record (new_session (pos 1)) { state = wait_login })
      ≡ some (s, false))
    × (s.state ≡ closed)
unfolding on_packet
old_client = (
  log_in (0 ∷ 0 ∷ 0 ∷ 1 ∷ []) (record (new_session (pos 1)) { state = wait_login }),
  refl,
  unfold log_in in refl,
)

decode_varint_at-write_var_i32_example :
    decode_varint_at (write_var_i32 [] (negsuc 299) ++ 7 ∷ []) ≡ some (negsuc 299, 7 ∷ [])
decode_varint_at-write_var_i32_example =
    decode_varint_at-write_var_i32 (negsuc 299) (7 ∷ []) (omega arith)
