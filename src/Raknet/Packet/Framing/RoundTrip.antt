-- ===== src/Raknet/Packet/Framing/RoundTrip.antt =====
-- Decoding what `encode_frame` and `encode_datagram` of crates/raknet/src/packet.rs wrote.
use rust_mine.Base.{
  ℕ, zero, suc, ◌+◌, ◌-◌, ◌*◌, ◌/◌, ◌%◌, ◌^◌, ◌≤◌, ◌<◌, ltb, ltb-false, eq_false, ◌≢◌, ◌≡◌, refl,
  sym, ap, ◌∙◌, false, List, [], ◌∷◌, ◌++◌, length, length-append, take, drop, take-append,
  drop-append, All, append_assoc, append-nil, arith,
}
use mathlib.Core.Path.{ap₂}
use rust_mine.Base.Bytes.{to_le_bytes}
use rust_mine.Base.Result.{ok, ◌>>=◌}
use rust_mine.Raknet.Packet.{
  Frame, FrameSetEntry, from_byte, is_reliable, is_sequenced, is_ordered, frame_set_start,
}
use rust_mine.Raknet.Packet.Wire.{read_u8, write_u8, write_u24_le}
use rust_mine.Raknet.Packet.Wire.Fields.{read-u16_be, read-u24_le}
use rust_mine.Raknet.Packet.Framing.{
  decode_frame, encode_frame, decode_frames, decode_datagram, encode_datagram, append_frames,
}
use rust_mine.Raknet.Packet.Framing.Layout.{
  IsFrame, frame_fields, encode_frame-eq, read-index, read-order, read-split, from_raw-flag,
  split-flag,
}

frame_fields-append :
    (f : Frame) (xs ys : List ℕ) → frame_fields f xs ++ ys ≡ frame_fields f (xs ++ ys)
frame_fields-append f xs ys = simp append_assoc

-- The fields take the same room whatever follows them.
length-frame_fields :
    (f : Frame) (xs : List ℕ) → length (frame_fields f xs) ≡ length (frame_fields f []) + length xs
length-frame_fields f xs =
    omega (arith, ap length (frame_fields-append f [] xs), length-append (frame_fields f []) xs)

-- A well-formed frame is read back whole, with its length, whatever follows it.
pub decode-encode_frame :
    (f : Frame) (rest : List ℕ)
    → IsFrame f
    → decode_frame (encode_frame f ++ rest) ≡ ok (f, length (encode_frame f))
unfolding decode_frame read_u8
decode-encode_frame f rest h =
    rw
      (
        encode_frame-eq f,
        frame_fields-append f f.body rest,
        from_raw-flag f.reliability f.is_split,
        split-flag f.reliability f.is_split,
        read-u16_be (length f.body * 8 % 2 ^ 16) (frame_fields f (f.body ++ rest)) (omega arith),
        read-index (is_reliable f.reliability) f.reliable_index _ h.reliable_fits,
        read-index (is_sequenced f.reliability) f.sequence_index _ h.sequence_fits,
        read-order (is_ordered f.reliability) f.order_index f.order_channel _ h.order_fits
            h.channel_fits,
        read-split f.is_split f.split_count f.split_id f.split_index _ h.count_fits h.id_fits
            h.index_fits,
        body_len,
        enough,
      )
      (ap₂ (λ (b : List ℕ) (n : ℕ). ok (record f { body = b }, n)) (take-append f.body rest) taken)
  where
    all : ℕ
    all = length (frame_fields f (f.body ++ rest))

    body_len : (length f.body * 8 % 2 ^ 16 + 7) / 8 ≡ length f.body
    body_len = let short = h.body_fits in omega arith

    lengths : all ≡ length (frame_fields f []) + (length f.body + length rest)
    lengths = omega (arith, length-frame_fields f (f.body ++ rest), length-append f.body rest)

    enough :
        ltb (suc (suc (suc all))) (suc (suc (suc all)) - length (f.body ++ rest) + length f.body)
        ≡ false
    enough = ltb-false _ _ (omega (arith, lengths, length-append f.body rest))

    taken :
        suc (suc (suc all)) - length (f.body ++ rest) + length f.body
        ≡ suc (suc (suc (length (frame_fields f f.body))))
    taken = omega (arith, lengths, length-append f.body rest, length-frame_fields f f.body)

-- One round of the loop of `decode_datagram` on a frame that takes bytes.
decode_frames_step :
    (k : ℕ) (buf : List ℕ) {f : Frame} {n : ℕ}
    → decode_frame buf ≡ ok (f, n)
    → n ≢ 0
    → decode_frames (suc k) buf
      ≡ (decode_frames k (drop n buf) >>= λ (fs : List Frame). ok (f ∷ fs))
unfolding decode_frames
decode_frames_step k [] e h = unfold decode_frame read_u8 in cc
decode_frames_step k (b ∷ buf) {n = n} e h = rw (e, eq_false n 0 h)

abbrev pub frames_bytes : List Frame → List ℕ
frames_bytes [] = []
frames_bytes (f ∷ fs) = encode_frame f ++ frames_bytes fs

append_frames-eq : (buf : List ℕ) (fs : List Frame) → append_frames buf fs ≡ buf ++ frames_bytes fs
append_frames-eq buf [] = sym (append-nil buf)
append_frames-eq buf (f ∷ fs) =
    append_frames-eq (buf ++ encode_frame f) fs
    ∙ append_assoc buf (encode_frame f) (frames_bytes fs)

three-le-length : (f : Frame) → 3 ≤ length (encode_frame f)
three-le-length f = rw (encode_frame-eq f) (omega arith)

decode_frames-bytes :
    (k : ℕ) (fs : List Frame)
    → All IsFrame fs
    → length (frames_bytes fs) ≤ k
    → decode_frames k (frames_bytes fs) ≡ ok fs
decode_frames-bytes zero [] h room = unfold decode_frames in refl
decode_frames-bytes (suc k) [] h room = unfold decode_frames in refl
decode_frames-bytes zero (f ∷ fs) h room =
    absurd (omega (arith, three-le-length f, length-append (encode_frame f) (frames_bytes fs)))
decode_frames-bytes (suc k) (f ∷ fs) h room =
    decode_frames_step k (encode_frame f ++ frames_bytes fs)
      (decode-encode_frame f (frames_bytes fs) h.0) (omega (arith, three-le-length f))
    ∙ rw (drop-append (encode_frame f) (frames_bytes fs), decode_frames-bytes k fs h.1 room')
  where
    room' : length (frames_bytes fs) ≤ k
    room' = omega (arith, three-le-length f, length-append (encode_frame f) (frames_bytes fs))

-- A datagram begins with 0x80.
abbrev pub datagram_body : FrameSetEntry → List ℕ
datagram_body e = take 3 (to_le_bytes 4 e.sequence_number) ++ frames_bytes e.frames

pub encode_datagram-eq : (e : FrameSetEntry) → encode_datagram e ≡ frame_set_start ∷ datagram_body e
unfolding encode_datagram write_u8 write_u24_le
encode_datagram-eq e = append_frames-eq _ e.frames

-- A datagram of well-formed frames is read back whole.
pub decode-encode_datagram :
    (e : FrameSetEntry)
    → All IsFrame e.frames
    → e.sequence_number < 2 ^ 24
    → decode_datagram (encode_datagram e) ≡ ok e
unfolding decode_datagram read_u8 from_byte
decode-encode_datagram e h fits = rw (
  encode_datagram-eq e,
  read-u24_le e.sequence_number (frames_bytes e.frames) fits,
  decode_frames-bytes (length (frames_bytes e.frames)) e.frames h (omega arith),
)
