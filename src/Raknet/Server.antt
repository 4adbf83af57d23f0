-- ===== src/Raknet/Server.antt =====
-- crates/raknet/src/server.rs: the state that its tasks share, and what a handler sends. A handler
-- is a function from the state to the state and the list of its effects, in order. It reads the
-- clock once, as `now` in milliseconds.
pub mod Inbound
pub mod Outbound
pub mod Upkeep
pub mod Soundness
pub mod Transport
pub mod Turns
mod Tests
use rust_mine.Base.{
  ℕ, zero, suc, ◌/◌, ◌%◌, ◌+◌, ltb, ◌==◌, ==_iff, if◌then◌else◌, ◌↔◌, ◌≡◌, Bool, true, false, ◌&&◌,
  List, [], ◌∷◌, ◌++◌, Option, none, some, arith,
}
use rust_mine.Base.Int.{ℤ, pos, negsuc}
use rust_mine.Base.Text.{digits, decimal}
use rust_mine.Base.Assoc.{KeyEq, Assoc}
use rust_mine.Raknet.Packet.{SocketAddr, v4, v6}
use rust_mine.Raknet.Connection.{Connection}

abbrev pub same_addr : SocketAddr → SocketAddr → Bool
same_addr (v4 a b c d p) (v4 a' b' c' d' p') = a == a' && b == b' && c == c' && d == d' && p == p'
same_addr (v6 a p) (v6 a' p') = a == a' && p == p'
same_addr (v4 a b c d p) (v6 a' p') = false
same_addr (v6 a p) (v4 a' b' c' d' p') = false

pub same_addr_iff : (a b : SocketAddr) → (same_addr a b ≡ true) ↔ (a ≡ b)
same_addr_iff (v4 a b c d p) (v4 a' b' c' d' p') = (λ h. ground arith, λ h. ground arith)
same_addr_iff (v6 a p) (v6 a' p') = (λ h. ground arith, λ h. ground arith)
same_addr_iff (v4 a b c d p) (v6 a' p') = (λ h. ground arith, λ h. absurd (cc))
same_addr_iff (v6 a p) (v4 a' b' c' d' p') = (λ h. ground arith, λ h. absurd (cc))

instance abbrev pub addr_eq : KeyEq SocketAddr
addr_eq = record { same = same_addr; same_iff = same_addr_iff }

abbrev pub max_connections : ℕ
max_connections = 256

abbrev pub connection_timeout : ℕ
connection_timeout = 20_000

abbrev pub resend_interval : ℕ
resend_interval = 800

abbrev pub max_retries : ℕ
max_retries = 10

-- `RAKNET_PROTOCOL_VERSION`, `protocol_version()` and `game_version()` of crates/raknet/src/lib.rs.
abbrev pub raknet_protocol_version : ℕ
raknet_protocol_version = 11

abbrev pub protocol_version : ℕ
protocol_version = 1001

-- "1.26.30"
abbrev pub game_version : List ℕ
game_version = 49 ∷ 46 ∷ 50 ∷ 54 ∷ 46 ∷ 51 ∷ 48 ∷ []

pub data ServerEvent : Type 0 where
  connected disconnected : SocketAddr → ServerEvent
  game_packet : SocketAddr → List ℕ → ServerEvent

pub record Inner : Type 0 where
  pub guid : ℤ
  pub motd : List ℕ
  pub connections : Assoc SocketAddr Connection
  pub online_mode : Bool
  pub next_split_id : ℕ

-- `sock.send_to` and `events.send`.
pub data Effect : Type 0 where
  send_to : List ℕ → SocketAddr → Effect
  event : ServerEvent → Effect

-- `RaknetServer::new`, with the random `guid` as an argument.
abbrev pub new_server : List ℕ → Bool → ℤ → Inner
new_server motd online_mode guid = record {
  guid = guid;
  motd = motd;
  connections = [];
  online_mode = online_mode;
  next_split_id = 0;
}

-- "MCPE;", ";RustMine;0;20;", ";RustMine;Survival;" and ";" with the fields between.
unfoldable pub pong_motd : Inner → List ℕ
pong_motd g =
    (77 ∷ 67 ∷ 80 ∷ 69 ∷ 59 ∷ [])
    ++ g.motd
    ++ (59 ∷ [])
    ++ digits 20 protocol_version
    ++ (59 ∷ [])
    ++ game_version
    ++ (59 ∷ [])
    ++ decimal g.guid
    ++ (59 ∷ 82 ∷ 117 ∷ 115 ∷ 116 ∷ 77 ∷ 105 ∷ 110 ∷ 101 ∷ 59 ∷ 48 ∷ 59 ∷ 50 ∷ 48 ∷ 59 ∷ [])
    ++ (82 ∷ 117 ∷ 115 ∷ 116 ∷ 77 ∷ 105 ∷ 110 ∷ 101 ∷ 59 ∷ [])
    ++ (83 ∷ 117 ∷ 114 ∷ 118 ∷ 105 ∷ 118 ∷ 97 ∷ 108 ∷ 59 ∷ [])
    ++ digits 20 (if g.online_mode then 1 else 0)
    ++ (59 ∷ [])
