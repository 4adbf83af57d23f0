-- ===== src/Raknet/Server/Tests.antt =====
-- Runs of crates/raknet/src/server.rs and connection.rs, and the theorems at concrete inputs.
use rust_mine.Base.{
  ℕ, ◌≡◌, refl, ap, All, ◌==◌, ◌||◌, if◌then◌else◌, true, List, [], ◌∷◌, map, replicate, retain,
  none, some, arith,
}
use mathlib.Core.List.{flatten}
use rust_mine.Base.Int.{pos}
use rust_mine.Raknet.Packet.{SocketAddr, v4, Frame, SequenceRange, reliable_ordered}
use rust_mine.Raknet.Packet.Framing.Layout.{IsFrame}
use rust_mine.Raknet.Connection.{
  Connection, connected, PendingFrame, new_split, insert_piece, push, contains, new_connection,
}
use rust_mine.Raknet.Connection.RecvQueue.{contains-push}
use rust_mine.Raknet.Connection.Reassembly.{
  IsPartial, present, new_split-IsPartial, insert_piece-IsPartial,
}
use rust_mine.Raknet.Server.{Inner, ServerEvent, new_server, addr_eq}
use rust_mine.Raknet.Server.Inbound.{ack_ranges, handle_frames, feed_frames}
use rust_mine.Raknet.Server.Inbound.Streams.{inbound_all, events, IsReady, IsTimely}
use rust_mine.Raknet.Server.Transport.{inbound_all-send_message}
use rust_mine.Raknet.Server.Inbound.Acked.{ack_ranges-retain, unnamed}
use rust_mine.Raknet.Server.Inbound.Duplicates.{heard_from, handle_frames_twice}
use rust_mine.Raknet.Server.Outbound.{send_message, single_frame, send_frames}
use rust_mine.Raknet.Server.Outbound.Messages.{CanSend, wire_mtu, frames_of, send_message-delivers}
use rust_mine.Raknet.Server.Outbound.Batches.{Sent, send_frames-Sent}
use rust_mine.Raknet.Server.Upkeep.{timeout_stale}
use rust_mine.Raknet.Server.Upkeep.Limits.{AllClean, timeout_stale-IsClean}
use rust_mine.Raknet.Server.Upkeep.GivenUp.{upkeep_rounds, AllIdle, upkeep_rounds-AllIdle}

abbrev home : SocketAddr
home = v4 10 0 0 1 5000

abbrev waiting : PendingFrame
waiting = record {
  sequence_number = 4;
  reliable_index = 1;
  raw_data = 0x84 ∷ [];
  send_time = 0;
  retries = 10;
}

abbrev fresh : PendingFrame
fresh = record {
  sequence_number = 9;
  reliable_index = 2;
  raw_data = 0x85 ∷ [];
  send_time = 0;
  retries = 0;
}

abbrev client : Connection
client = record (new_connection home (pos 3) 1400 100) {
  state = connected;
  pending_frames = waiting ∷ fresh ∷ [];
}

abbrev server : Inner
server = record (new_server (77 ∷ []) true (pos 5)) { connections = (home, client) ∷ [] }

abbrev some_ranges : List SequenceRange
some_ranges = record { start = 2; end = 4 } ∷ record { start = 9; end = 9 } ∷ []

abbrev hello : Frame
hello = single_frame reliable_ordered 0 7 3 (1 ∷ 2 ∷ [])

hello-IsFrame : IsFrame hello
hello-IsFrame = record {
  reliable_fits = (7, refl, omega arith);
  sequence_fits = refl;
  order_fits = (3, refl, omega arith);
  channel_fits = omega arith;
  count_fits = refl;
  id_fits = refl;
  index_fits = refl;
  body_fits = omega arith;
}

contains-push_example : contains (push ((1, 3) ∷ []) 4) 4 ≡ (4 == 4 || contains ((1, 3) ∷ []) 4)
contains-push_example = contains-push ((1, 3) ∷ []) 4 4 (omega arith, tt) (omega arith, tt)

abbrev two_parts : List (List ℕ)
two_parts = (1 ∷ []) ∷ (2 ∷ []) ∷ []

insert_piece-IsPartial_example :
    let (sp', whole) = insert_piece (new_split 2 0) 1 (2 ∷ []) in
    IsPartial two_parts sp'
    × (whole ≡ (if present 2 sp'.parts == 2 then some (flatten two_parts) else none))
insert_piece-IsPartial_example =
    insert_piece-IsPartial two_parts (new_split 2 0) 1 (new_split-IsPartial two_parts 0)
      (omega arith) (omega arith)

ack_ranges-retain_example :
    ack_ranges some_ranges client.pending_frames
    ≡ retain (unnamed some_ranges) client.pending_frames
ack_ranges-retain_example = ack_ranges-retain some_ranges client.pending_frames

handle_frames_twice_example :
    let first = (handle_frames server home 200 6 (hello ∷ [])).0 in
    handle_frames first home 201 6 (hello ∷ hello ∷ []) ≡ (heard_from home 201 first, [])
unfolding new_connection
handle_frames_twice_example =
    handle_frames_twice server client home 200 201 6 (hello ∷ []) (hello ∷ hello ∷ []) refl tt tt
      refl

send_frames-Sent_example :
    Sent 576 0 (send_frames 2 576 client 7 400 (hello ∷ hello ∷ [])).1 (hello ∷ hello ∷ [])
unfolding new_connection
send_frames-Sent_example =
    send_frames-Sent 2 576 client 7 400 (hello ∷ hello ∷ []) (omega arith)
      (hello-IsFrame, (hello-IsFrame, tt)) (omega arith)

timeout_stale-IsClean_example : AllClean 600 (timeout_stale server 600).0.connections
timeout_stale-IsClean_example = timeout_stale-IsClean server 600

abbrev ten_times : List ℕ
ten_times = 850 ∷ 1700 ∷ 2550 ∷ 3400 ∷ 4250 ∷ 5100 ∷ 5950 ∷ 6800 ∷ 7650 ∷ 8500 ∷ []

upkeep_rounds-AllIdle_example : AllIdle (upkeep_rounds ten_times server).0.connections
unfolding new_connection
upkeep_rounds-AllIdle_example =
    upkeep_rounds-AllIdle 0 ten_times server refl
      ((
        omega arith,
        (
          omega arith,
          (
            omega arith,
            (
              omega arith,
              (
                omega arith,
                (omega arith, (omega arith, (omega arith, (omega arith, (omega arith, tt))))),
              ),
            ),
          ),
        ),
      ))
      ((omega arith, (omega arith, tt)), tt)

client-CanSend : CanSend client 2000
unfolding new_connection
client-CanSend = record {
  mtu_fits = omega arith;
  reliable_fits = omega arith;
  order_fits = omega arith;
  split_fits = omega arith;
  numbers_fit = omega arith;
}

send_message-delivers_example :
    Sent
      (wire_mtu client)
      client.send_seq
      (send_message client 700 (replicate 2000 5)).1
      (frames_of client (replicate 2000 5))
    × ((feed_frames client (frames_of client (replicate 2000 5)) 710).1 ≡ replicate 2000 5 ∷ [])
unfolding new_connection
send_message-delivers_example =
    send_message-delivers client client 700 710 (replicate 2000 5) client-CanSend (omega arith) refl

-- A client that has not had a frame set yet, and a message of 2000 bytes for it, each datagram at
-- the same time.
abbrev listener : Connection
listener = record (new_connection home (pos 3) 1400 100) { state = connected }

abbrev listening : Inner
listening = record (new_server (77 ∷ []) true (pos 5)) { connections = (home, listener) ∷ [] }

abbrev at_once : List (List ℕ) → List (ℕ × List ℕ)
at_once raws = map (λ raw. (800, raw)) raws

at_once-same : (raws : List (List ℕ)) → map (λ (r : ℕ × List ℕ). r.1) (at_once raws) ≡ raws
at_once-same [] = refl
at_once-same (r ∷ raws) = ap (◌∷◌ r) (at_once-same raws)

at_once-IsTimely : (raws : List (List ℕ)) → All (IsTimely 750) (at_once raws)
at_once-IsTimely [] = tt
at_once-IsTimely (r ∷ raws) = ((omega arith, omega arith), at_once-IsTimely raws)

listener-IsReady : IsReady client.send_seq listener
unfolding new_connection contains
listener-IsReady = record { on = refl; upward = tt; unseen = λ n later. refl }

inbound_all-send_message_example :
    events (inbound_all listening home (at_once (send_message client 700 (replicate 2000 5)).1)).1
    ≡ ServerEvent.game_packet home (replicate 2000 5) ∷ []
unfolding new_connection
inbound_all-send_message_example =
    inbound_all-send_message client listener listening home 700 750 (replicate 2000 5)
      (at_once (send_message client 700 (replicate 2000 5)).1) client-CanSend (omega arith) refl
      listener-IsReady refl (at_once-same (send_message client 700 (replicate 2000 5)).1)
      (at_once-IsTimely (send_message client 700 (replicate 2000 5)).1)
