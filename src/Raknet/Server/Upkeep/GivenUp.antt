-- ===== src/Raknet/Server/Upkeep/GivenUp.antt =====
-- A frame that is never acknowledged is sent again up to the limit, and given up then,
-- crates/raknet/src/server.rs.
use rust_mine.Base.{
  ℕ, ◌+◌, ◌≤◌, ◌<◌, ltb, not, ◌≡◌, refl, List, [], ◌∷◌, ◌++◌, map, retain, All, length, All-map,
  Bool-cases, inl, inr, arith,
}
use mathlib.Core.Path.{subst}
use rust_mine.Base.Assoc.{Assoc}
use rust_mine.Raknet.Packet.{SocketAddr}
use rust_mine.Raknet.Connection.{Connection, PendingFrame, expire_split_packets}
use rust_mine.Raknet.Server.{Inner, max_retries, resend_interval}
use rust_mine.Raknet.Server.Inbound.{Step}
use rust_mine.Raknet.Server.Upkeep.{
  resend_frames, resend_connections, resend_pending, timeout_stale, is_stale, clean, upkeep_round,
}
use rust_mine.Raknet.Server.Upkeep.Limits.{AllClean, timeout_stale-IsClean}

-- The rounds of the task at these times, with nothing between them.
unfoldable pub upkeep_rounds : List ℕ → Inner → Step
unfolding resend_pending timeout_stale
upkeep_rounds [] g = (g, [])
upkeep_rounds (now ∷ times) g =
    let (g₁, out₁) = upkeep_round g now in
    let (g₂, out₂) = upkeep_rounds times g₁ in (g₂, out₁ ++ out₂)

-- Each time is at least an interval behind the one before.
abbrev pub IsSpaced : ℕ → List ℕ → Type 0
IsSpaced last [] = Unit
IsSpaced last (now ∷ times) = (last + resend_interval ≤ now) × IsSpaced now times

-- Sent again `k` times at least, and last at `time` at the latest.
abbrev HasTried : ℕ → ℕ → PendingFrame → Type 0
HasTried k time p = (k ≤ p.retries) × (p.send_time ≤ time)

module _ (k time now : ℕ) (later : time + resend_interval ≤ now) (more : k < max_retries) where
  resend_frames-tried :
      (ps : List PendingFrame)
      → All (HasTried k time) ps
      → All (HasTried (k + 1) now) (resend_frames now ps).0
  unfolding resend_frames
  resend_frames-tried [] h = tt
  resend_frames-tried (p ∷ ps) h = ground (arith, resend_frames-tried ps h.1, h.0.0, h.0.1)

retain-tried :
    (k time : ℕ) (ps : List PendingFrame)
    → All (HasTried k time) ps
    → All (HasTried k time) (retain (λ p. ltb p.retries max_retries) ps)
retain-tried k time [] h = tt
retain-tried k time (p ∷ ps) h = ground (arith, retain-tried k time ps h.1, h.0.0, h.0.1)

-- Every pending frame of every connection has been tried so often.
abbrev pub AllTried : ℕ → ℕ → Assoc SocketAddr Connection → Type 0
AllTried k time = All {A = SocketAddr × Connection} (λ e. All (HasTried k time) e.1.pending_frames)

-- Every pending frame was last sent at `time` at the latest.
abbrev pub AllSentBy : ℕ → Assoc SocketAddr Connection → Type 0
AllSentBy time =
    All {A = SocketAddr × Connection} (λ e. All (λ p. p.send_time ≤ time) e.1.pending_frames)

sent-AllTried :
    (time : ℕ) (cs : Assoc SocketAddr Connection) → AllSentBy time cs → AllTried 0 time cs
sent-AllTried time [] h = tt
sent-AllTried time ((addr, c) ∷ cs) h =
    (All-map (λ p late. (omega arith, late)) c.pending_frames h.0, sent-AllTried time cs h.1)

module _ (k time now : ℕ) (later : time + resend_interval ≤ now) (more : k < max_retries) where
  resend_connections-AllTried :
      (cs : Assoc SocketAddr Connection)
      → AllTried k time cs
      → AllTried (k + 1) now (resend_connections now cs).0
  unfolding resend_connections
  resend_connections-AllTried [] h = tt
  resend_connections-AllTried ((addr, c) ∷ cs) h = (
    resend_frames-tried k time now later more c.pending_frames h.0,
    resend_connections-AllTried cs h.1,
  )

cleaned-AllTried :
    (k time now : ℕ) (cs : Assoc SocketAddr Connection)
    → AllTried k time cs
    → AllTried k time (map (λ e. (e.0, clean now e.1)) (retain (λ e. not (is_stale now e.1)) cs))
unfolding expire_split_packets
cleaned-AllTried k time now [] h = tt
cleaned-AllTried k time now (e ∷ cs) h = elim (Bool-cases (is_stale now e.1)) [
  | inl stale ↦ ground (arith, stale, cleaned-AllTried k time now cs h.1)
  | inr live ↦
      ground (
        arith,
        live,
        retain-tried k time e.1.pending_frames h.0,
        cleaned-AllTried k time now cs h.1,
      )
]

-- A round tries every pending frame that is left once more.
round-AllTried :
    (k time now : ℕ)
    → time + resend_interval ≤ now
    → k < max_retries
    → (g : Inner) → AllTried k time g.connections
    → AllTried (k + 1) now (upkeep_round g now).0.connections
unfolding resend_pending timeout_stale
round-AllTried k time now later more g h =
    cleaned-AllTried (k + 1) now now (resend_connections now g.connections).0
      (resend_connections-AllTried k time now later more g.connections h)

-- Nothing waits in any connection.
abbrev pub AllIdle : Assoc SocketAddr Connection → Type 0
AllIdle = All {A = SocketAddr × Connection} (λ e. e.1.pending_frames ≡ [])

none_left :
    (time : ℕ) (ps : List PendingFrame)
    → All (HasTried max_retries time) ps
    → All (λ p. p.retries < max_retries) ps
    → ps ≡ []
none_left time [] h r = refl
none_left time (p ∷ ps) h r = absurd (omega (arith, h.0.0, r.0))

tried-AllIdle :
    (time now : ℕ) (cs : Assoc SocketAddr Connection)
    → AllTried max_retries time cs
    → AllClean now cs
    → AllIdle cs
tried-AllIdle time now [] h r = tt
tried-AllIdle time now ((addr, c) ∷ cs) h r =
    (none_left time c.pending_frames h.0 r.0.retriable, tried-AllIdle time now cs h.1 r.1)

-- The rounds that are still to come.
upkeep_rounds-AllIdle_from :
    (k last : ℕ) (times : List ℕ) (g : Inner)
    → k + length times ≡ max_retries
    → IsSpaced last times
    → AllTried k last g.connections
    → AllClean last g.connections
    → AllIdle (upkeep_rounds times g).0.connections
unfolding upkeep_rounds
upkeep_rounds-AllIdle_from k last [] g n spaced h r =
    tried-AllIdle last last g.connections
      (subst (λ m. AllTried m last g.connections) (omega (arith, n)) h) r
upkeep_rounds-AllIdle_from k last (now ∷ times) g n spaced h r =
    upkeep_rounds-AllIdle_from (k + 1) now times (upkeep_round g now).0 (omega (arith, n)) spaced.1
      (round-AllTried k last now spaced.0 (omega (arith, n)) g h)
      (timeout_stale-IsClean (resend_pending g now).0 now)

-- After as many rounds of the resend task as the limit of retries, each an interval or more behind
-- the one before and the first behind every send time, with nothing between them, no connection
-- has a pending frame any more: none is sent again forever.
pub upkeep_rounds-AllIdle :
    (last : ℕ) (times : List ℕ) (g : Inner)
    → length times ≡ max_retries
    → IsSpaced last times
    → AllSentBy last g.connections
    → AllIdle (upkeep_rounds times g).0.connections
unfolding upkeep_rounds
upkeep_rounds-AllIdle last [] g n spaced h = absurd (omega (arith, n))
upkeep_rounds-AllIdle last (now ∷ times) g n spaced h =
    upkeep_rounds-AllIdle_from 1 now times (upkeep_round g now).0 (omega (arith, n)) spaced.1
      (round-AllTried 0 last now spaced.0 (omega arith) g (sent-AllTried last g.connections h))
      (timeout_stale-IsClean (resend_pending g now).0 now)
