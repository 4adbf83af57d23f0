-- ===== src/Raknet/Tests.antt =====
-- Runs of crates/raknet, and the theorems at concrete inputs.
use rust_mine.Base.{◌≡◌, refl, true, List, [], ◌∷◌, ◌++◌, length, none, some, arith}
use rust_mine.Base.Result.{ok}
use rust_mine.Raknet.Packet.{Frame, FrameSetEntry, SequenceRange, RaknetPacket, reliable_ordered}
use rust_mine.Raknet.Packet.Framing.{decode_frame, encode_frame, decode_frames, encode_datagram}
use rust_mine.Raknet.Packet.Framing.Layout.{IsFrame}
use rust_mine.Raknet.Packet.Framing.RoundTrip.{decode-encode_frame}
use rust_mine.Raknet.Packet.Framing.Totality.{decode_frames_enough}
use rust_mine.Raknet.Packet.Acks.{encode_ack}
use rust_mine.Raknet.Packet.Dispatch.{parse_packet}
use rust_mine.Raknet.Packet.Dispatch.RoundTrip.{parse-encode_ack, parse-encode_datagram}

-- One piece of a split message.
abbrev piece : Frame
piece = record {
  reliability = reliable_ordered;
  is_split = true;
  reliable_index = some 7;
  sequence_index = none;
  order_index = some 3;
  order_channel = 0;
  split_count = some 2;
  split_id = some 9;
  split_index = some 1;
  body = 0xfe ∷ 1 ∷ 2 ∷ [];
}

piece-IsFrame : IsFrame piece
piece-IsFrame = record {
  reliable_fits = (7, refl, omega arith);
  sequence_fits = refl;
  order_fits = (3, refl, omega arith);
  channel_fits = omega arith;
  count_fits = (2, refl, omega arith);
  id_fits = (9, refl, omega arith);
  index_fits = (1, refl, omega arith);
  body_fits = omega arith;
}

abbrev two_pieces : FrameSetEntry
two_pieces = record { sequence_number = 70_000; frames = piece ∷ piece ∷ [] }

abbrev two_ranges : List SequenceRange
two_ranges = record { start = 1; end = 4 } ∷ record { start = 9; end = 9 } ∷ []

decode-encode_frame_example :
    decode_frame (encode_frame piece ++ 5 ∷ []) ≡ ok (piece, length (encode_frame piece))
decode-encode_frame_example = decode-encode_frame piece (5 ∷ []) piece-IsFrame

decode_frames_enough_example : decode_frames 9 (1 ∷ 2 ∷ []) ≡ decode_frames 2 (1 ∷ 2 ∷ [])
decode_frames_enough_example = decode_frames_enough 9 (1 ∷ 2 ∷ []) (omega arith)

parse-encode_datagram_example :
    parse_packet (encode_datagram two_pieces)
    ≡ ok (RaknetPacket.frame_set 70_000 (piece ∷ piece ∷ []))
parse-encode_datagram_example =
    parse-encode_datagram two_pieces (piece-IsFrame, (piece-IsFrame, tt)) (omega arith)

parse-encode_ack_example :
    parse_packet (encode_ack two_ranges true) ≡ ok (RaknetPacket.nack two_ranges)
parse-encode_ack_example = parse-encode_ack two_ranges true (omega arith) (omega arith)
