-- ===== src/Raknet/Server/Upkeep.antt =====
-- The resend and timeout task of crates/raknet/src/server.rs.
pub mod Limits
pub mod GivenUp
use rust_mine.Base.{
  ℕ, ◌+◌, ◌-◌, ltb, leb, not, if◌then◌else◌, Bool, ◌&&◌, List, [], ◌∷◌, ◌++◌, map, retain,
}
use rust_mine.Base.Assoc.{Assoc}
use rust_mine.Raknet.Packet.{SocketAddr}
use rust_mine.Raknet.Connection.{Connection, PendingFrame, expire_split_packets}
use rust_mine.Raknet.Server.{
  Inner, Effect, send_to, event, ServerEvent, max_retries, resend_interval, connection_timeout,
}
use rust_mine.Raknet.Server.Inbound.{is_connected, Step}

unfoldable pub resend_frames : ℕ → List PendingFrame → List PendingFrame × List (List ℕ)
resend_frames now [] = ([], [])
resend_frames now (p ∷ pending) =
    let (pending', out) = resend_frames now pending in
    if leb max_retries p.retries
    then (p ∷ pending', out)
    else if leb resend_interval (now - p.send_time)
    then (record p { retries = p.retries + 1; send_time = now } ∷ pending', p.raw_data ∷ out)
    else (p ∷ pending', out)

unfoldable pub resend_connections :
    ℕ → Assoc SocketAddr Connection → Assoc SocketAddr Connection × List Effect
resend_connections now [] = ([], [])
resend_connections now ((addr, c) ∷ cs) =
    let (pending, out) = resend_frames now c.pending_frames in
    let (cs', effects) = resend_connections now cs in
    (
      (addr, record c { pending_frames = pending }) ∷ cs',
      map (λ raw. send_to raw c.addr) out ++ effects,
    )

unfoldable pub resend_pending : Inner → ℕ → Step
resend_pending g now =
    let (connections', effects) = resend_connections now g.connections in
    (record g { connections = connections' }, effects)

abbrev pub is_stale : ℕ → Connection → Bool
is_stale now c = is_connected c.state && ltb connection_timeout (now - c.last_recv)

abbrev pub clean : ℕ → Connection → Connection
clean now c =
    expire_split_packets
      (record c { pending_frames = retain (λ p. ltb p.retries max_retries) c.pending_frames }) now

-- The addresses that are dropped.
abbrev pub stale_addrs : ℕ → Assoc SocketAddr Connection → List SocketAddr
stale_addrs now [] = []
stale_addrs now ((addr, c) ∷ cs) =
    if is_stale now c then addr ∷ stale_addrs now cs else stale_addrs now cs

unfoldable pub timeout_stale : Inner → ℕ → Inner × List SocketAddr
timeout_stale g now = (
  record g {
    connections =
        map (λ e. (e.0, clean now e.1)) (retain (λ e. not (is_stale now e.1)) g.connections);
  },
  stale_addrs now g.connections,
)

-- One round of the task.
abbrev pub upkeep_round : Inner → ℕ → Step
upkeep_round g now =
    let (g₁, effects) = resend_pending g now in
    let (g₂, dropped) = timeout_stale g₁ now in
    (g₂, effects ++ map (λ addr. event (ServerEvent.disconnected addr)) dropped)
