-- ===== src/Raknet/Server/Inbound/Streams.antt =====
-- A message that comes in over several frame sets, crates/raknet/src/server.rs.
use rust_mine.Base.{
  ℕ, ◌+◌, ◌≤◌, ◌<◌, eq_false, if◌then◌else◌, ◌≡◌, refl, sym, ap, ◌∙◌, true, false, List, [], ◌∷◌,
  ◌++◌, append_assoc, All, map, some, arith,
}
use mathlib.Core.Path.{subst}
use rust_mine.Base.Assoc.{Assoc, lookup, lookup-insert, same_refl}
use rust_mine.Base.Result.{ok}
use rust_mine.Raknet.Packet.{SocketAddr, Frame, RaknetPacket}
use rust_mine.Raknet.Packet.Dispatch.{parse_packet}
use rust_mine.Raknet.Connection.{
  Connection, SplitPacket, push, contains, expire_split_packets, split_packet_timeout,
}
use rust_mine.Raknet.Connection.RecvQueue.{
  IsUpward, push-IsUpward, contains-push_following, unseen-Follows,
}
use rust_mine.Raknet.Server.{Inner, Effect, send_to, event, ServerEvent, addr_eq}
use rust_mine.Raknet.Server.Inbound.{
  feed_frames, feed_piece, option_list, receive, handle_frames, handle_inbound, is_connected,
  ack_of, put_connection, Step,
}
use rust_mine.Raknet.Server.Inbound.Duplicates.{feed_frames-SameQueue}
use rust_mine.Raknet.Server.Outbound.Batches.{Sent}

-- The step of the loop of `handle_frames` for one frame.
abbrev pub feed_one : Connection → Frame → ℕ → Connection × List (List ℕ)
feed_one c f now =
    let (c₁, done) = feed_piece c f.split_id f.split_index f.split_count f.body now in
    (if f.is_split then c₁ else c, if f.is_split then option_list done else f.body ∷ [])

-- The datagrams of one address, each at its time, one after the other.
unfoldable pub inbound_all : Inner → SocketAddr → List (ℕ × List ℕ) → Step
unfolding handle_inbound
inbound_all g src [] = (g, [])
inbound_all g src ((now, raw) ∷ raws) =
    let (g₁, out₁) = handle_inbound g src now true raw in
    let (g₂, out₂) = inbound_all g₁ src raws in (g₂, out₁ ++ out₂)

-- What the game gets of the effects.
abbrev pub events : List Effect → List ServerEvent
events [] = []
events (send_to raw addr ∷ effects) = events effects
events (event e ∷ effects) = e ∷ events effects

events-append : (xs ys : List Effect) → events (xs ++ ys) ≡ events xs ++ events ys
events-append [] ys = refl
events-append (send_to raw addr ∷ xs) ys = events-append xs ys
events-append (event e ∷ xs) ys = ap (◌∷◌ e) (events-append xs ys)

abbrev pub packets : SocketAddr → List (List ℕ) → List ServerEvent
packets src bodies = map (λ body. ServerEvent.game_packet src body) bodies

events-packets :
    (src : SocketAddr) (bodies : List (List ℕ))
    → events (map (λ body. event (ServerEvent.game_packet src body)) bodies) ≡ packets src bodies
events-packets src [] = refl
events-packets src (b ∷ bodies) =
    ap (◌∷◌ (ServerEvent.game_packet src b)) (events-packets src bodies)

packets-append :
    (src : SocketAddr) (xs ys : List (List ℕ))
    → packets src (xs ++ ys) ≡ packets src xs ++ packets src ys
packets-append src [] ys = refl
packets-append src (x ∷ xs) ys = ap (◌∷◌ (ServerEvent.game_packet src x)) (packets-append src xs ys)

-- A connected client whose numbers from `seq` on have not come.
pub record IsReady (seq : ℕ) (c : Connection) : Type 0 where
  pub on : is_connected c.state ≡ true
  pub upward : IsUpward c.recv_queue
  pub unseen : (n : ℕ) → seq ≤ n → contains c.recv_queue n ≡ false

receive-IsReady :
    (c : Connection) (now seq : ℕ) (b : List Frame)
    → IsReady seq c
    → IsReady (seq + 1) (receive c now seq b).0
unfolding receive expire_split_packets
receive-IsReady c now seq b ready =
    let c₁ : Connection = record c { last_recv = now; recv_queue = push c.recv_queue seq } in
    let (queue, state, same, mtu) = feed_frames-SameQueue c₁ b now in
    let follows = unseen-Follows c.recv_queue seq ready.upward ready.unseen in
    record {
      on = ap is_connected state ∙ ready.on;
      upward = rw queue (push-IsUpward c.recv_queue seq ready.upward follows);
      unseen = λ n later.
          ap (λ q. contains q n) queue
          ∙ contains-push_following c.recv_queue seq n ready.upward follows
          ∙ rw (eq_false n seq (omega arith)) (ready.unseen n (omega arith));
    }

handle_inbound-part :
    (g : Inner) (src : SocketAddr) (c : Connection) (now seq : ℕ) (raw : List ℕ) (b : List Frame)
    → lookup src g.connections ≡ some c
    → IsReady seq c
    → parse_packet raw ≡ ok (RaknetPacket.frame_set seq b)
    → handle_inbound g src now true raw ≡ (
      put_connection g src (receive c now seq b).0,
      send_to (ack_of (push c.recv_queue seq)) src
          ∷ map (λ body. event (ServerEvent.game_packet src body)) (receive c now seq b).1,
    )
unfolding handle_inbound handle_frames
handle_inbound-part g src c now seq raw b found ready parsed =
    rw (handle_inbound, parsed, handle_frames, found, ready.on, ready.unseen seq (omega arith)) refl

-- A time at which no part that came at or after `start` is too old.
abbrev pub IsSoon : ℕ → ℕ → Type 0
IsSoon start now = now < start + split_packet_timeout

abbrev pub Splits : Type 0
Splits = Assoc ℕ SplitPacket

-- A datagram comes neither before the start nor too late.
abbrev pub IsTimely : ℕ → ℕ × List ℕ → Type 0
IsTimely start timed = (start ≤ timed.0) × IsSoon start timed.0

-- What the frames of a payload give, from the next one on.
abbrev pub total : List ℕ → List Frame → List (List ℕ)
total payload [] = []
total payload (f ∷ fs) = payload ∷ []

module _ (start : ℕ) (payload : List ℕ)
    -- What is known of the parts that have come when these frames are still to come.
    (Awaits : List Frame → Splits → Type 0)
    (step : (f : Frame) (fs : List Frame) (c : Connection) (now : ℕ)
      → start ≤ now
      → Awaits (f ∷ fs) c.split_packets
      → Awaits fs (feed_one c f now).0.split_packets
        × ((feed_one c f now).1 ≡ (elim fs [ [] ↦ payload ∷ [] | _ ↦ [] ])))
    (keep : (fs : List Frame) (c : Connection) (now : ℕ)
      → IsSoon start now
      → Awaits fs c.split_packets
      → Awaits fs (expire_split_packets c now).split_packets) where
  total-step :
      (fs : List Frame)
      → (elim fs [ [] ↦ payload ∷ [] | _ ↦ [] ]) ++ total payload fs ≡ payload ∷ []
  total-step [] = refl
  total-step (f ∷ fs) = refl

  feed_frames-part :
      (b left : List Frame) (c : Connection) (now : ℕ)
      → start ≤ now
      → Awaits (b ++ left) c.split_packets
      → Awaits left (feed_frames c b now).0.split_packets
        × ((feed_frames c b now).1 ++ total payload left ≡ total payload (b ++ left))
  unfolding feed_frames
  feed_frames-part [] left c now late h = (h, refl)
  feed_frames-part (f ∷ b) left c now late h =
      let (h₁, now_out) = step f (b ++ left) c now late h in
      let (h₂, rest) = feed_frames-part b left (feed_one c f now).0 now late h₁ in
      (
        h₂,
        append_assoc (feed_one c f now).1 (feed_frames (feed_one c f now).0 b now).1
              (total payload left)
            ∙ ap (λ out. (feed_one c f now).1 ++ out) rest
            ∙ ap (λ out. out ++ total payload (b ++ left)) now_out
            ∙ total-step (b ++ left),
      )

  receive-part :
      (b left : List Frame) (c : Connection) (now seq : ℕ)
      → start ≤ now
      → IsSoon start now
      → Awaits (b ++ left) c.split_packets
      → Awaits left (receive c now seq b).0.split_packets
        × ((receive c now seq b).1 ++ total payload left ≡ total payload (b ++ left))
  unfolding receive
  receive-part b left c now seq late soon h =
      let c₁ : Connection = record c { last_recv = now; recv_queue = push c.recv_queue seq } in
      let (h', out) = feed_frames-part b left c₁ now late h in
      (keep left (feed_frames c₁ b now).0 now soon h', out)

  -- Datagrams that carry the frames under new numbers give what the frames give.
  pub inbound_all-total :
      (src : SocketAddr) (mtu seq : ℕ) (raws : List (ℕ × List ℕ)) (g : Inner) (c : Connection)
      (fs : List Frame)
      → lookup src g.connections ≡ some c
      → IsReady seq c
      → All (IsTimely start) raws
      → Awaits fs c.split_packets
      → Sent mtu seq (map (λ (r : ℕ × List ℕ). r.1) raws) fs
      → events (inbound_all g src raws).1 ≡ packets src (total payload fs)
  unfolding inbound_all
  inbound_all-total src mtu seq [] g c fs found ready timely h sent = rw sent refl
  inbound_all-total src mtu seq ((now, raw) ∷ raws) g c fs found ready timely h
        (b, left, whole, parsed, fits, sent) =
      let c' = (receive c now seq b).0 in
      let out = (receive c now seq b).1 in
      let g' = put_connection g src c' in
      let (h', done) =
        receive-part b left c now seq timely.0.0 timely.0.1
          (subst (λ t. Awaits t c.split_packets) whole h) in
      let rest =
        inbound_all-total src mtu (seq + 1) raws g' c' left
          (lookup-insert src src c' g.connections ∙ rw (same_refl src) refl)
          (receive-IsReady c now seq b ready) timely.1 h' sent in
      ap (λ (r : Step). events (r.1 ++ (inbound_all r.0 src raws).1))
        (handle_inbound-part g src c now seq raw b found ready parsed)
      ∙ events-append (map (λ body. event (ServerEvent.game_packet src body)) out)
          (inbound_all g' src raws).1
      ∙ ap (λ e. e ++ events (inbound_all g' src raws).1) (events-packets src out)
      ∙ ap (λ e. packets src out ++ e) rest
      ∙ sym (packets-append src out (total payload left))
      ∙ ap (packets src) (done ∙ ap (total payload) (sym whole))
