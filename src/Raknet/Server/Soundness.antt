-- ===== src/Raknet/Server/Soundness.antt =====
-- What every step of crates/raknet/src/server.rs keeps true of every connection.
use rust_mine.Base.{
  ℕ, ◌≤◌, ◌<◌, ◌^◌, leb, not, ◌==◌, length, if◌then◌else◌, Bool, true, false, ◌≡◌, refl, sym, List,
  [], ◌∷◌, retain, Option, none, some, arith,
}
use mathlib.Core.Path.{subst}
use rust_mine.Base.Int.{ℤ}
use rust_mine.Base.Result.{Result, ok, err}
use rust_mine.Base.Assoc.{Assoc, lookup, insert, adjust}
use rust_mine.Raknet.Packet.{
  SocketAddr, OfflinePacket, unconnected_ping, unconnected_pong, open_connection_request1,
  open_connection_reply1, open_connection_request2, open_connection_reply2, incompatible_protocol,
  Frame, SequenceRange, RaknetPacket, PacketError, max_mtu,
}
use rust_mine.Raknet.Packet.Dispatch.{parse_packet}
use rust_mine.Raknet.Packet.Dispatch.Numbers.{OnOk, IsNumbered, parse_packet-IsNumbered}
use rust_mine.Raknet.Connection.{Connection, PendingFrame, new_connection, contains}
use rust_mine.Raknet.Connection.RecvQueue.{
  IsUpward, push-IsUpward, IsNarrow, narrow-Follows, push-IsNarrow,
}
use rust_mine.Raknet.Server.{Inner, addr_eq, max_connections, raknet_protocol_version}
use rust_mine.Raknet.Server.Inbound.{
  handle_ping, handle_request1, connect, start_handshake, handle_offline, handle_ack, handle_nack,
  handle_frames, handle_packet, handle_inbound, receive, ack_ranges, nack_ranges, Step,
  put_connection, is_connected,
}
use rust_mine.Raknet.Server.Inbound.Acked.{ack_ranges-retain, unnamed}
use rust_mine.Raknet.Server.Inbound.Duplicates.{receive-kept}
use rust_mine.Raknet.Server.Upkeep.Limits.{IsLimited, nack_ranges-IsLimited}

-- What holds of a connection under its address at all times: it keeps to the largest MTU, the
-- ranges of its queue run upwards and end within a u32, and no frame has been sent again more often
-- than the limit.
pub record IsSound (c : Connection) : Type 0 where
  pub mtu_fits : c.mtu_size ≤ max_mtu
  pub upward : IsUpward c.recv_queue
  pub narrow : IsNarrow c.recv_queue
  pub limited : IsLimited c.pending_frames

abbrev pub AllSound : Assoc SocketAddr Connection → Type 0
AllSound [] = Unit
AllSound ((addr, c) ∷ m) = IsSound c × AllSound m

branch : {A : Type 0} (P : A → Type 0) (b : Bool) (x y : A) → P x → P y → P (if b then x else y)
branch P true x y h k = h
branch P false x y h k = k

pub insert-AllSound :
    (k : SocketAddr) (c : Connection) (m : Assoc SocketAddr Connection)
    → IsSound c
    → AllSound m
    → AllSound (insert k c m)
insert-AllSound k c [] h a = (h, tt)
insert-AllSound k c ((j, d) ∷ m) h a =
    branch AllSound (addr_eq.same j k) ((k, c) ∷ m) ((j, d) ∷ insert k c m) (h, a.1)
      (a.0, insert-AllSound k c m h a.1)

adjust-AllSound :
    (k : SocketAddr) (f : Connection → Connection) (m : Assoc SocketAddr Connection)
    → ((c : Connection) → IsSound c → IsSound (f c))
    → AllSound m
    → AllSound (adjust k f m)
adjust-AllSound k f [] h a = tt
adjust-AllSound k f ((j, d) ∷ m) h a =
    branch AllSound (addr_eq.same j k) ((j, f d) ∷ m) ((j, d) ∷ adjust k f m) (h d a.0, a.1)
      (a.0, adjust-AllSound k f m h a.1)

abbrev OptionSound : Option Connection → Type 0
OptionSound none = Unit
OptionSound (some c) = IsSound c

lookup-OptionSound :
    (k : SocketAddr) (m : Assoc SocketAddr Connection) → AllSound m → OptionSound (lookup k m)
lookup-OptionSound k [] a = tt
lookup-OptionSound k ((j, d) ∷ m) a =
    branch OptionSound (addr_eq.same j k) (some d) (lookup k m) a.0 (lookup-OptionSound k m a.1)

pub found-IsSound :
    (k : SocketAddr) (c : Connection) (m : Assoc SocketAddr Connection)
    → AllSound m
    → lookup k m ≡ some c
    → IsSound c
found-IsSound k c m a e = subst OptionSound e (lookup-OptionSound k m a)

retain-IsLimited :
    (p : PendingFrame → Bool) (ps : List PendingFrame) → IsLimited ps → IsLimited (retain p ps)
retain-IsLimited p [] h = tt
retain-IsLimited p (q ∷ ps) h = ground (arith, retain-IsLimited p ps h.1, h.0)

connect-IsSound :
    (o : Option Connection) (addr : SocketAddr) (now mtu : ℕ) (guid : ℤ)
    → OptionSound o
    → IsSound (connect o addr now mtu guid)
unfolding new_connection
connect-IsSound none addr now mtu guid h = record {
  mtu_fits = omega arith;
  upward = tt;
  narrow = tt;
  limited = tt;
}
connect-IsSound (some c) addr now mtu guid h = record {
  mtu_fits = omega arith;
  upward = h.upward;
  narrow = h.narrow;
  limited = h.limited;
}

receive-IsSound :
    (c : Connection) (now seq : ℕ) (fs : List Frame)
    → seq < 2 ^ 24
    → IsSound c
    → IsSound (receive c now seq fs).0
receive-IsSound c now seq fs small h =
    let kept = receive-kept c now seq fs in
    record {
      mtu_fits = omega (arith, kept.2, h.mtu_fits);
      upward =
          subst IsUpward (sym kept.0)
            (push-IsUpward c.recv_queue seq h.upward (narrow-Follows c.recv_queue seq h.narrow));
      narrow = subst IsNarrow (sym kept.0) (push-IsNarrow c.recv_queue seq h.narrow (omega arith));
      limited = subst IsLimited (sym kept.1) h.limited;
    }

pub found_case :
    {A : Type 0} (P : A → Type 0) (o : Option Connection) (x : A) (f : Connection → A)
    → P x
    → ((c : Connection) → o ≡ some c → P (f c))
    → P (elim o [ none ↦ x | some c ↦ f c ])
found_case P none x f h k = h
found_case P (some c) x f h k = k c refl

abbrev SoundStep : Step → Type 0
SoundStep s = AllSound s.0.connections

module _ (g : Inner) (src : SocketAddr) (now : ℕ) (sound : AllSound g.connections) where
  ping-AllSound : (time guid : ℤ) → SoundStep (handle_ping g src now time guid)
  unfolding new_connection
  ping-AllSound time guid =
      found_case (λ (g' : Inner). AllSound g'.connections) (lookup src g.connections)
        (put_connection g src (new_connection src guid max_mtu now)) (λ c. g)
        (insert-AllSound src (new_connection src guid max_mtu now) g.connections
          (record { mtu_fits = omega arith; upward = tt; narrow = tt; limited = tt }) sound)
        (λ c e. sound)

  request1-AllSound :
      (sent : Bool) (version mtu : ℕ) → SoundStep (handle_request1 g src now sent version mtu)
  request1-AllSound sent version mtu =
      branch SoundStep (leb max_connections (length g.connections)) _ _ sound (
        branch SoundStep (not (version == raknet_protocol_version)) _ _ sound (
          branch (λ (g' : Inner). AllSound g'.connections) sent _ _
            (adjust-AllSound src (start_handshake now mtu) g.connections
              (λ c h. record {
                mtu_fits = omega arith;
                upward = h.upward;
                narrow = h.narrow;
                limited = h.limited;
              })
              sound)
            sound))

  frames-AllSound :
      (seq : ℕ) (fs : List Frame) → seq < 2 ^ 24 → SoundStep (handle_frames g src now seq fs)
  unfolding handle_frames
  frames-AllSound seq fs small =
      found_case SoundStep (lookup src g.connections) (g, []) _ sound
        (λ c e.
          let h = found-IsSound src c g.connections sound e in
          branch SoundStep (not (is_connected c.state)) _ _ sound (
            branch SoundStep (contains c.recv_queue seq) _ _
              (insert-AllSound src (record c { last_recv = now }) g.connections
                (record {
                  mtu_fits = h.mtu_fits;
                  upward = h.upward;
                  narrow = h.narrow;
                  limited = h.limited;
                })
                sound)
              (insert-AllSound src (receive c now seq fs).0 g.connections
                (receive-IsSound c now seq fs small h) sound)))

  nack-AllSound : (rs : List SequenceRange) → SoundStep (handle_nack g src now rs)
  unfolding handle_nack
  nack-AllSound rs =
      found_case SoundStep (lookup src g.connections) (g, []) _ sound
        (λ c e.
          let h = found-IsSound src c g.connections sound e in
          insert-AllSound src
            (record c { pending_frames = (nack_ranges now rs c.pending_frames).0 }) g.connections
            (record {
              mtu_fits = h.mtu_fits;
              upward = h.upward;
              narrow = h.narrow;
              limited = nack_ranges-IsLimited now rs c.pending_frames h.limited;
            })
            sound)

  ack-AllSound : (rs : List SequenceRange) → AllSound (handle_ack g src rs).connections
  unfolding handle_ack
  ack-AllSound rs =
      adjust-AllSound src (λ c. record c { pending_frames = ack_ranges rs c.pending_frames })
        g.connections
        (λ c h. record {
          mtu_fits = h.mtu_fits;
          upward = h.upward;
          narrow = h.narrow;
          limited =
              subst IsLimited (sym (ack_ranges-retain rs c.pending_frames))
                (retain-IsLimited (unnamed rs) c.pending_frames h.limited);
        })
        sound

  offline-AllSound : (sent : Bool) (p : OfflinePacket) → SoundStep (handle_offline g src now sent p)
  unfolding handle_offline
  offline-AllSound sent (unconnected_ping time guid) = ping-AllSound time guid
  offline-AllSound sent (open_connection_request1 version mtu) = request1-AllSound sent version mtu
  offline-AllSound sent (open_connection_request2 addr mtu guid) =
      insert-AllSound src (connect (lookup src g.connections) src now mtu guid) g.connections
        (connect-IsSound (lookup src g.connections) src now mtu guid
          (lookup-OptionSound src g.connections sound))
        sound
  offline-AllSound sent (unconnected_pong time guid motd) = sound
  offline-AllSound sent (open_connection_reply1 guid encrypted mtu) = sound
  offline-AllSound sent (open_connection_reply2 guid addr mtu encrypted) = sound
  offline-AllSound sent (incompatible_protocol version guid) = sound

  packet-AllSound :
      (sent : Bool) (p : RaknetPacket) → IsNumbered p → SoundStep (handle_packet g src now sent p)
  packet-AllSound sent (RaknetPacket.offline p) n = offline-AllSound sent p
  packet-AllSound sent (RaknetPacket.ack rs) n = ack-AllSound rs
  packet-AllSound sent (RaknetPacket.nack rs) n = nack-AllSound rs
  packet-AllSound sent (RaknetPacket.frame_set seq fs) n = frames-AllSound seq fs n

-- Whatever bytes come in from whatever address, the server keeps every connection sound: no MTU
-- above the largest, the ranges of every receive queue upwards, and no pending frame sent again
-- more often than the limit.
pub handle_inbound-AllSound :
    (g : Inner) (src : SocketAddr) (now : ℕ) (sent : Bool) (data_ : List ℕ)
    → AllSound g.connections
    → AllSound (handle_inbound g src now sent data_).0.connections
unfolding handle_inbound
handle_inbound-AllSound g src now sent data_ sound =
    step (parse_packet data_) (parse_packet-IsNumbered data_)
  where
    step :
        (r : Result PacketError RaknetPacket)
        → OnOk IsNumbered r
        → SoundStep (elim r [ err e ↦ (g, []) | ok packet ↦ handle_packet g src now sent packet ])
    step (err e) n = sound
    step (ok packet) n = packet-AllSound g src now sound sent packet n
