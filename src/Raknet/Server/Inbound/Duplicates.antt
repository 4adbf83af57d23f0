-- ===== src/Raknet/Server/Inbound/Duplicates.antt =====
-- A frame set that comes a second time, crates/raknet/src/server.rs.
use rust_mine.Base.{
  ℕ, ==_iff, true, ◌≡◌, refl, ap, ◌∙◌, List, [], ◌∷◌, Option, none, some, inl, inr, Bool-cases,
  arith,
}
use rust_mine.Base.Assoc.{lookup, adjust, lookup-insert, insert-adjust, same_refl}
use rust_mine.Raknet.Packet.{SocketAddr, Frame}
use rust_mine.Raknet.Connection.{Connection, push, contains, feed_split, expire_split_packets}
use rust_mine.Raknet.Connection.RecvQueue.{IsUpward, IsNarrow, contains-push}
use rust_mine.Raknet.Server.{Inner, addr_eq}
use rust_mine.Raknet.Server.Inbound.{handle_frames, receive, feed_frames, feed_piece, is_connected}

-- What the frames of a set leave as it is.
abbrev pub SameQueue : Connection → Connection → Type 0
SameQueue c d =
    (c.recv_queue ≡ d.recv_queue)
    × (c.state ≡ d.state)
    × (c.pending_frames ≡ d.pending_frames)
    × (c.mtu_size ≡ d.mtu_size)

feed_split-SameQueue :
    (c : Connection) (id index count : ℕ) (body : List ℕ) (now : ℕ)
    → SameQueue (feed_split c id index count body now).0 c
unfolding feed_split
feed_split-SameQueue c id index count body now = ground arith

feed_piece-SameQueue :
    (c : Connection) (id index count : Option ℕ) (body : List ℕ) (now : ℕ)
    → SameQueue (feed_piece c id index count body now).0 c
feed_piece-SameQueue c none index count body now = (refl, refl, refl, refl)
feed_piece-SameQueue c (some id) none count body now = (refl, refl, refl, refl)
feed_piece-SameQueue c (some id) (some index) none body now = (refl, refl, refl, refl)
feed_piece-SameQueue c (some id) (some index) (some count) body now =
    feed_split-SameQueue c id index count body now

pub feed_frames-SameQueue :
    (c : Connection) (fs : List Frame) (now : ℕ) → SameQueue (feed_frames c fs now).0 c
unfolding feed_frames
feed_frames-SameQueue c [] now = (refl, refl, refl, refl)
feed_frames-SameQueue c (f ∷ fs) now =
    let c₁ = (feed_piece c f.split_id f.split_index f.split_count f.body now).0 in
    ground (
      arith,
      feed_piece-SameQueue c f.split_id f.split_index f.split_count f.body now,
      feed_frames-SameQueue c₁ fs now,
      feed_frames-SameQueue c fs now,
    )

pub receive-kept :
    (c : Connection) (now seq : ℕ) (fs : List Frame)
    → ((receive c now seq fs).0.recv_queue ≡ push c.recv_queue seq)
      × ((receive c now seq fs).0.pending_frames ≡ c.pending_frames)
      × ((receive c now seq fs).0.mtu_size ≡ c.mtu_size)
unfolding receive expire_split_packets
receive-kept c now seq fs =
    let c₁ : Connection = record c { last_recv = now; recv_queue = push c.recv_queue seq } in
    let (queue, state, pending, mtu) = feed_frames-SameQueue c₁ fs now in (queue, pending, mtu)

receive-state :
    (c : Connection) (now seq : ℕ) (fs : List Frame) → (receive c now seq fs).0.state ≡ c.state
unfolding receive expire_split_packets
receive-state c now seq fs =
    let c₁ : Connection = record c { last_recv = now; recv_queue = push c.recv_queue seq } in
    let (queue, state, pending, mtu) = feed_frames-SameQueue c₁ fs now in state

-- The connection of the address has been heard from, and nothing else has changed.
abbrev pub heard_from : SocketAddr → ℕ → Inner → Inner
heard_from src now g = record g {
  connections = adjust src (λ c. record c { last_recv = now }) g.connections;
}

-- A connected client's number that the queue contains already is not taken again.
handle_frames-seen :
    (g : Inner) (c : Connection) (src : SocketAddr) (now seq : ℕ) (fs : List Frame)
    → lookup src g.connections ≡ some c
    → is_connected c.state ≡ true
    → contains c.recv_queue seq ≡ true
    → handle_frames g src now seq fs ≡ (heard_from src now g, [])
unfolding handle_frames
handle_frames-seen g c src now seq fs found on seen =
    rw (handle_frames, found, on, seen)
      (ap (λ cs. (record g { connections = cs }, []))
        (insert-adjust src (λ c. record c { last_recv = now }) c g.connections found))

-- What the queue of the client contains after a frame set of its connection, which is found.
found-after :
    (g : Inner) (c : Connection) (src : SocketAddr) (now seq : ℕ) (fs : List Frame)
    → lookup src g.connections ≡ some c
    → IsUpward c.recv_queue
    → IsNarrow c.recv_queue
    → is_connected c.state ≡ true
    → (c' : Connection) × (lookup src (handle_frames g src now seq fs).0.connections ≡ some c')
      × (is_connected c'.state ≡ true)
      × (contains c'.recv_queue seq ≡ true)
unfolding handle_frames
found-after g c src now seq fs found upward narrow on =
    rw (handle_frames, found, on)
      (elim (Bool-cases (contains c.recv_queue seq)) [
        | inl e ↦ rw e (
          record c { last_recv = now },
          lookup-insert src src _ g.connections ∙ rw (same_refl src) refl,
          on,
          e,
        )
        | inr e ↦ rw e (
          (receive c now seq fs).0,
          lookup-insert src src _ g.connections ∙ rw (same_refl src) refl,
          ap is_connected (receive-state c now seq fs) ∙ on,
          ap (λ q. contains q seq) (receive-kept c now seq fs).0
              ∙ contains-push c.recv_queue seq seq upward narrow
              ∙ rw ((==_iff seq seq).1 refl) refl,
        )
      ])

-- A second frame set with the same number from a connected client, whose queue has ranges that run
-- upwards and end below the last u32, changes nothing but when the client was last heard from, and
-- nothing is sent: no payload is delivered and no ACK goes out.
pub handle_frames_twice :
    (g : Inner) (c : Connection) (src : SocketAddr) (now now' seq : ℕ) (fs fs' : List Frame)
    → lookup src g.connections ≡ some c
    → IsUpward c.recv_queue
    → IsNarrow c.recv_queue
    → is_connected c.state ≡ true
    → let first = (handle_frames g src now seq fs).0 in
      handle_frames first src now' seq fs' ≡ (heard_from src now' first, [])
handle_frames_twice g c src now now' seq fs fs' found upward narrow on =
    let (c', found', on', seen) = found-after g c src now seq fs found upward narrow on in
    handle_frames-seen (handle_frames g src now seq fs).0 c' src now' seq fs' found' on' seen
