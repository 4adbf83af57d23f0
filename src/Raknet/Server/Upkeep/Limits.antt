-- ===== src/Raknet/Server/Upkeep/Limits.antt =====
-- Retries and timeouts, crates/raknet/src/server.rs.
use rust_mine.Base.{
  ℕ, zero, suc, ◌+◌, ◌-◌, ◌≤◌, ◌<◌, ltb, not, true, false, ◌≡◌, List, [], ◌∷◌, map, retain, All,
  Bool-cases, inl, inr, arith,
}
use rust_mine.Base.Assoc.{Assoc}
use rust_mine.Raknet.Packet.{SocketAddr}
use rust_mine.Raknet.Connection.{
  Connection, PendingFrame, SplitPacket, split_packet_timeout, expire_split_packets,
}
use rust_mine.Raknet.Server.{Inner, max_retries, connection_timeout}
use rust_mine.Raknet.Server.Inbound.{
  is_connected, nack_number, nack_numbers, nack_ranges, range_size,
}
use rust_mine.Raknet.Packet.{SequenceRange}
use rust_mine.Raknet.Server.Upkeep.{resend_frames, timeout_stale, is_stale, clean}

-- No pending frame is sent again more often than the limit.
abbrev pub IsLimited : List PendingFrame → Type 0
IsLimited = All (λ p. p.retries ≤ max_retries)

pub resend_frames-IsLimited :
    (now : ℕ) (ps : List PendingFrame) → IsLimited ps → IsLimited (resend_frames now ps).0
unfolding resend_frames
resend_frames-IsLimited now [] h = tt
resend_frames-IsLimited now (p ∷ ps) h = ground (arith, resend_frames-IsLimited now ps h.1, h.0)

nack_number-IsLimited :
    (now s : ℕ) (ps : List PendingFrame) → IsLimited ps → IsLimited (nack_number now s ps).0
unfolding nack_number
nack_number-IsLimited now s [] h = tt
nack_number-IsLimited now s (p ∷ ps) h =
    ground (arith, nack_number-IsLimited now s ps h.1, h.0, h.1)

nack_numbers-IsLimited :
    (now rounds s : ℕ) (ps : List PendingFrame)
    → IsLimited ps
    → IsLimited (nack_numbers now rounds s ps).0
unfolding nack_numbers
nack_numbers-IsLimited now zero s ps h = h
nack_numbers-IsLimited now (suc rounds) s ps h =
    nack_numbers-IsLimited now rounds (s + 1) (nack_number now s ps).0
      (nack_number-IsLimited now s ps h)

-- A NACK, whatever ranges it names, keeps the retries of all pending frames within the limit,
-- where they were within it.
pub nack_ranges-IsLimited :
    (now : ℕ) (rs : List SequenceRange) (ps : List PendingFrame)
    → IsLimited ps
    → IsLimited (nack_ranges now rs ps).0
unfolding nack_ranges
nack_ranges-IsLimited now [] ps h = h
nack_ranges-IsLimited now (r ∷ rs) ps h =
    nack_ranges-IsLimited now rs (nack_numbers now (range_size r) r.start ps).0
      (nack_numbers-IsLimited now (range_size r) r.start ps h)

-- What the timeout task leaves of a connection.
pub record IsClean (now : ℕ) (c : Connection) : Type 0 where
  pub live : is_connected c.state ≡ true → now - c.last_recv ≤ connection_timeout
  pub retriable : All (λ p. p.retries < max_retries) c.pending_frames
  pub recent : All (λ e. now - e.1.created_at < split_packet_timeout) c.split_packets

retain-retriable :
    (ps : List PendingFrame)
    → All (λ p. p.retries < max_retries) (retain (λ p. ltb p.retries max_retries) ps)
retain-retriable [] = tt
retain-retriable (p ∷ ps) = ground (arith, retain-retriable ps)

retain-recent :
    (now : ℕ) (ps : Assoc ℕ SplitPacket)
    → All
        (λ e. now - e.1.created_at < split_packet_timeout)
        (retain (λ e. ltb (now - e.1.created_at) split_packet_timeout) ps)
retain-recent now [] = tt
retain-recent now (p ∷ ps) = ground (arith, retain-recent now ps)

clean-IsClean : (now : ℕ) (c : Connection) → is_stale now c ≡ false → IsClean now (clean now c)
unfolding expire_split_packets
clean-IsClean now c h = record {
  live = λ on. ground arith;
  retriable = retain-retriable c.pending_frames;
  recent = retain-recent now c.split_packets;
}

abbrev pub AllClean : ℕ → Assoc SocketAddr Connection → Type 0
AllClean now = All {A = SocketAddr × Connection} (λ e. IsClean now e.1)

kept-IsClean :
    (now : ℕ) (cs : Assoc SocketAddr Connection)
    → AllClean now (map (λ e. (e.0, clean now e.1)) (retain (λ e. not (is_stale now e.1)) cs))
kept-IsClean now [] = tt
kept-IsClean now (e ∷ cs) = elim (Bool-cases (is_stale now e.1)) [
  | inl h ↦ ground (arith, h, kept-IsClean now cs)
  | inr h ↦ ground (arith, h, clean-IsClean now e.1 h, kept-IsClean now cs)
]

-- After the timeout task no connected client has been silent for longer than the timeout, no
-- pending frame is out of retries, and no split packet is older than its timeout.
pub timeout_stale-IsClean : (g : Inner) (now : ℕ) → AllClean now (timeout_stale g now).0.connections
unfolding timeout_stale
timeout_stale-IsClean g now = kept-IsClean now g.connections
