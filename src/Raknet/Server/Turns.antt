-- ===== src/Raknet/Server/Turns.antt =====
-- The three tasks of crates/raknet/src/server.rs on the state that they share: a datagram that comes
-- in, a message that is to go out, or a round of the resend task, in any order.
pub mod Sound
mod Tests
use rust_mine.Base.{ℕ, Bool, List, [], ◌∷◌, ◌++◌}
use rust_mine.Raknet.Packet.{SocketAddr}
use rust_mine.Raknet.Server.{Inner}
use rust_mine.Raknet.Server.Inbound.{Step, handle_inbound}
use rust_mine.Raknet.Server.Outbound.{outbound_round}
use rust_mine.Raknet.Server.Upkeep.{upkeep_round}

-- A turn of a task: `sent` is whether the socket takes a reply.
pub data Turn : Type 0 where
  inbound : (src : SocketAddr) (now : ℕ) (sent : Bool) (data_ : List ℕ) → Turn
  outbound : (now : ℕ) (dest : SocketAddr) (payload : List ℕ) → Turn
  upkeep : (now : ℕ) → Turn

abbrev pub take_turn : Inner → Turn → Step
take_turn g (inbound src now sent data_) = handle_inbound g src now sent data_
take_turn g (outbound now dest payload) = outbound_round g now (dest, payload)
take_turn g (upkeep now) = upkeep_round g now

-- The state after all turns, and all that was sent and handed to the game.
unfoldable pub serve : List Turn → Inner → Step
serve [] g = (g, [])
serve (turn ∷ turns) g =
    let (g₁, out₁) = take_turn g turn in let (g₂, out₂) = serve turns g₁ in (g₂, out₁ ++ out₂)
