-- ===== src/Raknet/Connection.antt =====
-- crates/raknet/src/connection.rs. An `Instant` or a `Duration` is a number of milliseconds; a
-- function that reads the clock takes the time as its argument `now`.
pub mod RecvQueue
pub mod Reassembly
use rust_mine.Base.{
  ℕ, zero, suc, ◌+◌, ◌-◌, ◌%◌, ◌^◌, ltb, leb, ◌==◌, not, if◌then◌else◌, Bool, true, false, ◌&&◌,
  List, [], ◌∷◌, ◌++◌, length, any, retain, replicate, Option, none, some,
}
use rust_mine.Base.Int.{ℤ}
use rust_mine.Base.Assoc.{Assoc, lookup, insert, remove, nat_eq}
use rust_mine.Raknet.Packet.{SocketAddr}

pub data ConnectionState : Type 0 where
  unconnected handshaking connected disconnected : ConnectionState

abbrev pub split_packet_timeout : ℕ
split_packet_timeout = 5000

pub record PendingFrame : Type 0 where
  pub sequence_number : ℕ
  pub reliable_index : ℕ
  pub raw_data : List ℕ
  pub send_time : ℕ
  pub retries : ℕ

pub record SplitPacket : Type 0 where
  pub split_count : ℕ
  pub parts : Assoc ℕ (List ℕ)
  pub created_at : ℕ

-- `RecvQueue`: its ranges, from first to last number.
abbrev pub RecvRanges : Type 0
RecvRanges = List (ℕ × ℕ)

pub record Connection : Type 0 where
  pub addr : SocketAddr
  pub client_guid : ℤ
  pub mtu : ℕ
  pub state : ConnectionState
  pub created_at : ℕ
  pub last_recv : ℕ
  pub send_seq : ℕ
  pub reliable_index : ℕ
  pub order_indices : List ℕ
  pub sequence_indices : List ℕ
  pub pending_frames : List PendingFrame
  pub recv_queue : RecvRanges
  pub mtu_size : ℕ
  pub split_packets : Assoc ℕ SplitPacket
  pub next_split_id : ℕ
  pub next_order_index : List ℕ
  pub ordered_backlog : Assoc (ℕ × ℕ) (List ℕ)

-- `SplitPacket::new`.
abbrev pub new_split : ℕ → ℕ → SplitPacket
new_split count now = record { split_count = count; parts = []; created_at = now }

-- `for i in i..i + rounds`: the parts in order, or `none` at the first that is missing.
unfoldable pub join_parts : ℕ → ℕ → Assoc ℕ (List ℕ) → Option (List ℕ)
join_parts zero i parts = some []
join_parts (suc rounds) i parts =
    let others = join_parts rounds (i + 1) parts in
    elim (lookup i parts) [
      | none ↦ none
      | some part ↦ elim others [ none ↦ none | some out ↦ some (part ++ out) ]
    ]

-- `SplitPacket::insert`.
unfoldable pub insert_piece : SplitPacket → ℕ → List ℕ → SplitPacket × Option (List ℕ)
insert_piece sp split_index body =
    let parts' = insert split_index body sp.parts in
    let whole = join_parts sp.split_count 0 parts' in
    if leb sp.split_count split_index then (sp, none) else (
      record sp { parts = parts' },
      if length parts' % 2 ^ 32 == sp.split_count then whole else none,
    )

-- `RecvQueue::push`, `contains` and `drain`.
unfoldable pub push : RecvRanges → ℕ → RecvRanges
push [] seq = (seq, seq) ∷ []
push ((first, last) ∷ []) seq =
    if seq == (last + 1) % 2 ^ 32 then (first, seq) ∷ [] else (first, last) ∷ (seq, seq) ∷ []
push (range ∷ next ∷ ranges) seq = range ∷ push (next ∷ ranges) seq

unfoldable pub contains : RecvRanges → ℕ → Bool
contains ranges seq = any (λ r. leb r.0 seq && leb seq r.1) ranges

unfoldable pub drain : RecvRanges → RecvRanges × RecvRanges
drain ranges = ([], ranges)

-- `Connection::new`.
unfoldable pub new_connection : SocketAddr → ℤ → ℕ → ℕ → Connection
new_connection addr client_guid mtu now = record {
  addr = addr;
  client_guid = client_guid;
  mtu = mtu;
  state = unconnected;
  created_at = now;
  last_recv = now;
  send_seq = 0;
  reliable_index = 0;
  order_indices = replicate 32 0;
  sequence_indices = replicate 32 0;
  pending_frames = [];
  recv_queue = [];
  mtu_size = mtu;
  split_packets = [];
  next_split_id = 0;
  next_order_index = replicate 32 0;
  ordered_backlog = [];
}

-- The entry that `feed_split` works on: the one for this id, unless its count differs.
abbrev pub split_entry : Option SplitPacket → ℕ → ℕ → SplitPacket
split_entry none count now = new_split count now
split_entry (some sp) count now = if not (sp.split_count == count) then new_split count now else sp

unfoldable pub feed_split : Connection → ℕ → ℕ → ℕ → List ℕ → ℕ → Connection × Option (List ℕ)
feed_split c split_id split_index split_count body now =
    let entry = split_entry (lookup split_id c.split_packets) split_count now in
    let (entry', result) = insert_piece entry split_index body in
    elim result [
      | none ↦ (record c { split_packets = insert split_id entry' c.split_packets }, none)
      | some whole ↦ (record c { split_packets = remove split_id c.split_packets }, some whole)
    ]

unfoldable pub expire_split_packets : Connection → ℕ → Connection
expire_split_packets c now = record c {
  split_packets = retain (λ e. ltb (now - e.1.created_at) split_packet_timeout) c.split_packets;
}
