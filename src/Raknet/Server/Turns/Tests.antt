-- ===== src/Raknet/Server/Turns/Tests.antt =====
-- A run of the tasks of crates/raknet/src/server.rs, and the theorems at it.
use rust_mine.Base.{ℕ, true, List, [], ◌∷◌, ◌++◌}
use rust_mine.Base.Int.{pos}
use rust_mine.Raknet.Packet.{SocketAddr, v4, magic}
use rust_mine.Raknet.Server.{new_server}
use rust_mine.Raknet.Server.Soundness.{AllSound}
use rust_mine.Raknet.Server.Turns.{Turn, inbound, outbound, upkeep, serve}
use rust_mine.Raknet.Server.Turns.Sound.{serve-AllSound}

abbrev home : SocketAddr
home = v4 10 0 0 1 5000

-- A second request for a connection with an MTU of 1400.
abbrev request2 : List ℕ
request2 =
    7
    ∷ (magic
        ++ (4 ∷ 245 ∷ 255 ∷ 255 ∷ 254 ∷ 19 ∷ 136 ∷ 5 ∷ 120 ∷ [])
        ++ (0 ∷ 0 ∷ 0 ∷ 0 ∷ 0 ∷ 0 ∷ 0 ∷ 9 ∷ []))

-- A client connects and is sent a short message, which it says it has not got.
abbrev some_turns : List Turn
some_turns =
    inbound home 100 true request2
    ∷ outbound 200 home (1 ∷ 2 ∷ 3 ∷ [])
    ∷ inbound home 300 true (0xa0 ∷ 0 ∷ 1 ∷ 1 ∷ 0 ∷ 0 ∷ 0 ∷ [])
    ∷ upkeep 2000
    ∷ []

serve-AllSound_example :
    AllSound (serve some_turns (new_server (77 ∷ []) true (pos 5))).0.connections
serve-AllSound_example = serve-AllSound (77 ∷ []) true (pos 5) some_turns
