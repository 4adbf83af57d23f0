-- ===== src/Raknet/Server/Turns/Sound.antt =====
-- What every turn of the tasks of crates/raknet/src/server.rs keeps true of every connection.
use rust_mine.Base.{
  ℕ, false, Bool-cases, inl, inr, zero, suc, ◌+◌, ◌-◌, max, leb, ltb, not, length, Bool, List, [],
  ◌∷◌, map, retain, All-append, All-retain, ◌≤◌, arith,
}
use rust_mine.Base.Int.{ℤ}
use rust_mine.Base.Assoc.{Assoc, lookup, either}
use rust_mine.Raknet.Packet.{SocketAddr, Frame}
use rust_mine.Raknet.Connection.{Connection, expire_split_packets}
use rust_mine.Raknet.Server.{Inner, addr_eq, new_server, max_retries}
use rust_mine.Raknet.Server.Inbound.{handle_inbound, is_connected}
use rust_mine.Raknet.Server.Outbound.{
  fill, send_datagram, send_frames, message_frames, send_message, build_datagrams, outbound_round,
}
use rust_mine.Raknet.Server.Upkeep.{
  resend_connections, resend_pending, is_stale, clean, timeout_stale, upkeep_round,
}
use rust_mine.Raknet.Server.Upkeep.Limits.{resend_frames-IsLimited}
use rust_mine.Raknet.Server.Soundness.{
  IsSound, AllSound, handle_inbound-AllSound, insert-AllSound, found-IsSound, found_case,
}
use rust_mine.Raknet.Server.Turns.{Turn, inbound, outbound, upkeep, serve}

send_datagram-IsSound :
    (c : Connection) (rel now : ℕ) (fs : List Frame)
    → IsSound c
    → IsSound (send_datagram c rel now fs).0
send_datagram-IsSound c rel now fs h = record {
  mtu_fits = h.mtu_fits;
  upward = h.upward;
  narrow = h.narrow;
  limited =
      All-append (λ p. p.retries ≤ max_retries) c.pending_frames _ h.limited (omega arith, tt);
}

send_frames-IsSound :
    (rounds mtu : ℕ) (c : Connection) (rel now : ℕ) (fs : List Frame)
    → IsSound c
    → IsSound (send_frames rounds mtu c rel now fs).0
unfolding send_frames
send_frames-IsSound zero mtu c rel now fs h = h
send_frames-IsSound (suc n) mtu c rel now [] h = h
send_frames-IsSound (suc n) mtu c rel now (f ∷ fs) h =
    send_frames-IsSound n mtu (send_datagram c rel now (fill mtu 4 false (f ∷ fs)).0).0 rel now
      (fill mtu 4 false (f ∷ fs)).1
      (send_datagram-IsSound c rel now (fill mtu 4 false (f ∷ fs)).0 h)

message_frames-IsSound :
    (c : Connection) (mtu : ℕ) (payload : List ℕ)
    → IsSound c
    → IsSound (message_frames c mtu payload).0
message_frames-IsSound c mtu payload h =
    either (λ (r : Connection × List Frame). IsSound r.0)
      (leb (length payload) (mtu - (4 + 1 + 2 + 3 + 4))) _ _
      (record { mtu_fits = h.mtu_fits; upward = h.upward; narrow = h.narrow; limited = h.limited })
      (record { mtu_fits = h.mtu_fits; upward = h.upward; narrow = h.narrow; limited = h.limited })

send_message-IsSound :
    (c : Connection) (now : ℕ) (payload : List ℕ)
    → IsSound c
    → IsSound (send_message c now payload).0
unfolding send_message
send_message-IsSound c now payload h =
    let r = message_frames c (max c.mtu_size 576) payload in
    send_frames-IsSound (length r.1) (max c.mtu_size 576) r.0 c.reliable_index now r.1
      (message_frames-IsSound c (max c.mtu_size 576) payload h)

outbound-AllSound :
    (g : Inner) (now : ℕ) (dest : SocketAddr) (payload : List ℕ)
    → AllSound g.connections
    → AllSound (outbound_round g now (dest, payload)).0.connections
unfolding build_datagrams
outbound-AllSound g now dest payload sound =
    found_case (λ (r : Inner × List (List ℕ)). AllSound r.0.connections) (lookup dest g.connections)
      (g, []) _ sound
      (λ c e.
        either (λ (r : Inner × List (List ℕ)). AllSound r.0.connections)
          (not (is_connected c.state)) (g, []) _ sound
          (insert-AllSound dest (send_message c now payload).0 g.connections
            (send_message-IsSound c now payload (found-IsSound dest c g.connections sound e))
            sound))

resend_connections-AllSound :
    (now : ℕ) (cs : Assoc SocketAddr Connection)
    → AllSound cs
    → AllSound (resend_connections now cs).0
unfolding resend_connections
resend_connections-AllSound now [] h = tt
resend_connections-AllSound now ((addr, c) ∷ cs) h = (
  record {
    mtu_fits = h.0.mtu_fits;
    upward = h.0.upward;
    narrow = h.0.narrow;
    limited = resend_frames-IsLimited now c.pending_frames h.0.limited;
  },
  resend_connections-AllSound now cs h.1,
)

clean-IsSound : (now : ℕ) (c : Connection) → IsSound c → IsSound (clean now c)
unfolding expire_split_packets
clean-IsSound now c h = record {
  mtu_fits = h.mtu_fits;
  upward = h.upward;
  narrow = h.narrow;
  limited =
      All-retain (λ p. p.retries ≤ max_retries) (λ p. ltb p.retries max_retries) c.pending_frames
        h.limited;
}

cleaned-AllSound :
    (now : ℕ) (cs : Assoc SocketAddr Connection)
    → AllSound cs
    → AllSound (map (λ e. (e.0, clean now e.1)) (retain (λ e. not (is_stale now e.1)) cs))
unfolding expire_split_packets
cleaned-AllSound now [] h = tt
cleaned-AllSound now (e ∷ cs) h = elim (Bool-cases (is_stale now e.1)) [
  | inl stale ↦ ground (arith, stale, cleaned-AllSound now cs h.1)
  | inr live ↦ ground (arith, live, cleaned-AllSound now cs h.1, clean-IsSound now e.1 h.0)
]

upkeep-AllSound :
    (g : Inner) (now : ℕ) → AllSound g.connections → AllSound (upkeep_round g now).0.connections
unfolding resend_pending timeout_stale
upkeep-AllSound g now sound =
    cleaned-AllSound now (resend_connections now g.connections).0
      (resend_connections-AllSound now g.connections sound)

serve-kept :
    (turns : List Turn) (g : Inner)
    → AllSound g.connections
    → AllSound (serve turns g).0.connections
unfolding serve
serve-kept [] g sound = sound
serve-kept (inbound src now sent data_ ∷ turns) g sound =
    serve-kept turns (handle_inbound g src now sent data_).0
      (handle_inbound-AllSound g src now sent data_ sound)
serve-kept (outbound now dest payload ∷ turns) g sound =
    serve-kept turns (outbound_round g now (dest, payload)).0
      (outbound-AllSound g now dest payload sound)
serve-kept (upkeep now ∷ turns) g sound =
    serve-kept turns (upkeep_round g now).0 (upkeep-AllSound g now sound)

-- After any turns of the server's three tasks from the start, in whatever order datagrams come in
-- from whatever address, messages go out and rounds of the resend task come, every connection is
-- sound: no MTU above the largest, the ranges of the receive queue upwards and below the last u32,
-- and no pending frame sent again more often than the limit.
pub serve-AllSound :
    (motd : List ℕ) (online_mode : Bool) (guid : ℤ) (turns : List Turn)
    → AllSound (serve turns (new_server motd online_mode guid)).0.connections
serve-AllSound motd online_mode guid turns = serve-kept turns (new_server motd online_mode guid) tt
