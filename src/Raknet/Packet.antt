-- ===== src/Raknet/Packet.antt =====
-- The types of crates/raknet/src/packet.rs. A byte string is the list of its bytes; a `String` is
-- the list of its UTF-8 bytes.
pub mod Wire
pub mod Framing
pub mod Acks
pub mod Offline
pub mod Dispatch
use rust_mine.Base.{
  ℕ, ◌+◌, ◌≤◌, ◌<◌, bit_and, ◌==◌, leb, if◌then◌else◌, Bool, true, false, ◌&&◌, List, [], ◌∷◌,
  Option, none, some,
}
use rust_mine.Base.Int.{ℤ}

abbrev pub magic : List ℕ
magic =
    0x00 ∷ 0xff ∷ 0xff ∷ 0x00 ∷ 0xfe ∷ 0xfe ∷ 0xfe ∷ 0xfe ∷ 0xfd ∷ 0xfd ∷ 0xfd ∷ 0xfd ∷ 0x12 ∷ 0x34
    ∷ 0x56 ∷ 0x78 ∷ []

-- `packet::MAX_MTU`, which equals `crate::MAX_MTU`.
abbrev pub max_mtu : ℕ
max_mtu = 1492

-- Packet ids.
abbrev pub unconnected_ping_id : ℕ
unconnected_ping_id = 0x01

abbrev pub open_connection_request_1_id : ℕ
open_connection_request_1_id = 0x05

abbrev pub open_connection_reply_1_id : ℕ
open_connection_reply_1_id = 0x06

abbrev pub open_connection_request_2_id : ℕ
open_connection_request_2_id = 0x07

abbrev pub open_connection_reply_2_id : ℕ
open_connection_reply_2_id = 0x08

abbrev pub disconnection_id : ℕ
disconnection_id = 0x15

abbrev pub unconnected_pong_id : ℕ
unconnected_pong_id = 0x1c

abbrev pub frame_set_start : ℕ
frame_set_start = 0x80

abbrev pub frame_set_end : ℕ
frame_set_end = 0x8f

pub data Reliability : Type 0 where
  unreliable unreliable_sequenced reliable reliable_ordered reliable_sequenced : Reliability

-- `self as u8`.
abbrev pub reliability_code : Reliability → ℕ
reliability_code unreliable = 0
reliability_code unreliable_sequenced = 1
reliability_code reliable = 2
reliability_code reliable_ordered = 3
reliability_code reliable_sequenced = 4

unfoldable pub from_raw : ℕ → Option Reliability
from_raw raw =
    let low = bit_and raw 0x07 in
    if low == 0
    then some unreliable
    else if low == 1
    then some unreliable_sequenced
    else if low == 2
    then some reliable
    else if low == 3
    then some reliable_ordered
    else if low == 4
    then some reliable_sequenced
    else none

abbrev pub is_reliable : Reliability → Bool
is_reliable unreliable = false
is_reliable unreliable_sequenced = false
is_reliable _ = true

-- The two `matches!` tests of the frame codec.
abbrev pub is_sequenced : Reliability → Bool
is_sequenced unreliable_sequenced = true
is_sequenced reliable_sequenced = true
is_sequenced _ = false

abbrev pub is_ordered : Reliability → Bool
is_ordered reliable_ordered = true
is_ordered reliable_sequenced = true
is_ordered _ = false

-- IPv4: the four octets; IPv6: its address bytes, which the codec does not look at.
pub data SocketAddr : Type 0 where
  v4 : ℕ → ℕ → ℕ → ℕ → ℕ → SocketAddr
  v6 : ℕ → ℕ → SocketAddr

pub data OfflinePacket : Type 0 where
  unconnected_ping : ℤ → ℤ → OfflinePacket
  unconnected_pong : ℤ → ℤ → List ℕ → OfflinePacket
  open_connection_request1 : ℕ → ℕ → OfflinePacket
  open_connection_reply1 : ℤ → Bool → ℕ → OfflinePacket
  open_connection_request2 : SocketAddr → ℕ → ℤ → OfflinePacket
  open_connection_reply2 : ℤ → SocketAddr → ℕ → Bool → OfflinePacket
  incompatible_protocol : ℕ → ℤ → OfflinePacket

pub record Frame : Type 0 where
  pub reliability : Reliability
  pub is_split : Bool
  pub reliable_index : Option ℕ
  pub sequence_index : Option ℕ
  pub order_index : Option ℕ
  pub order_channel : ℕ
  pub split_count : Option ℕ
  pub split_id : Option ℕ
  pub split_index : Option ℕ
  pub body : List ℕ

pub record FrameSetEntry : Type 0 where
  pub sequence_number : ℕ
  pub frames : List Frame

pub record SequenceRange : Type 0 where
  pub start : ℕ
  pub end : ℕ

-- `Ack` and `Nack` hold the list of their ranges.
pub data RaknetPacket : Type 0 where
  offline : OfflinePacket → RaknetPacket
  ack nack : List SequenceRange → RaknetPacket
  frame_set : ℕ → List Frame → RaknetPacket

pub data FrameType : Type 0 where
  ack nack frame_set : FrameType

unfoldable pub from_byte : ℕ → Option FrameType
from_byte byte =
    if bit_and byte 0xe0 == 0xc0
    then some FrameType.ack
    else if bit_and byte 0xe0 == 0xa0
    then some FrameType.nack
    else if leb frame_set_start byte && leb byte frame_set_end
    then some FrameType.frame_set
    else none

pub data PacketError : Type 0 where
  buffer_too_short invalid_magic expected_frame_set : PacketError
  unknown_packet_id invalid_ip_version invalid_reliability : ℕ → PacketError
