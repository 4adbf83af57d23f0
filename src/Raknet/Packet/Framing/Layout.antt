-- ===== src/Raknet/Packet/Framing/Layout.antt =====
-- The bytes of a frame, field by field, and what the field readers of crates/raknet/src/packet.rs
-- make of them.
use rust_mine.Base.{
  sym, ℕ, ◌*◌, ◌%◌, ◌^◌, ◌<◌, bit_and, bit_or, ◌==◌, not, if◌then◌else◌, ◌≡◌, refl, Bool, true,
  false, List, [], ◌∷◌, ◌++◌, length, take, append_assoc, append-nil, Option, none, some, unwrap_or,
}
use rust_mine.Base.Bytes.{to_be_bytes, to_le_bytes}
use rust_mine.Base.Result.{ok}
use rust_mine.Raknet.Packet.{
  Reliability, unreliable, unreliable_sequenced, reliable, reliable_ordered, reliable_sequenced,
  Frame, reliability_code, from_raw, is_reliable, is_sequenced, is_ordered,
}
use rust_mine.Raknet.Packet.Wire.{read_u8, write_u8, write_u16_be, write_u24_le, write_u32_be}
use rust_mine.Raknet.Packet.Wire.Fields.{read-u24_le, read-u16_be, read-u32_be}
use rust_mine.Raknet.Packet.Framing.{
  read_index, read_order, read_split, write_index, write_order, write_split, encode_frame,
}

-- A field is there exactly if its flag says so, and fits its width.
abbrev pub Holds : Bool → ℕ → Option ℕ → Type 0
Holds true width o = (v : ℕ) × (o ≡ some v) × (v < 2 ^ width)
Holds false width o = o ≡ none

abbrev pub HoldsByte : Bool → ℕ → Type 0
HoldsByte true c = c < 256
HoldsByte false c = c ≡ 0

-- A frame that the wire format can carry: the indices are those of its reliability, the split
-- fields go with `is_split`, and the length in bits fits a u16.
pub record IsFrame (f : Frame) : Type 0 where
  pub reliable_fits : Holds (is_reliable f.reliability) 24 f.reliable_index
  pub sequence_fits : Holds (is_sequenced f.reliability) 24 f.sequence_index
  pub order_fits : Holds (is_ordered f.reliability) 24 f.order_index
  pub channel_fits : HoldsByte (is_ordered f.reliability) f.order_channel
  pub count_fits : Holds f.is_split 32 f.split_count
  pub id_fits : Holds f.is_split 16 f.split_id
  pub index_fits : Holds f.is_split 32 f.split_index
  pub body_fits : length f.body * 8 < 2 ^ 16

abbrev pub index_bytes : Bool → Option ℕ → List ℕ
index_bytes true o = take 3 (to_le_bytes 4 (unwrap_or o 0))
index_bytes false o = []

abbrev pub order_bytes : Bool → Option ℕ → ℕ → List ℕ
order_bytes true o c = take 3 (to_le_bytes 4 (unwrap_or o 0)) ++ c ∷ []
order_bytes false o c = []

abbrev pub split_bytes : Bool → Option ℕ → Option ℕ → Option ℕ → List ℕ
split_bytes true n id i =
    to_be_bytes 4 (unwrap_or n 0) ++ to_be_bytes 2 (unwrap_or id 0) ++ to_be_bytes 4 (unwrap_or i 0)
split_bytes false n id i = []

abbrev pub flag_byte : Reliability → Bool → ℕ
flag_byte r s = if s then bit_or (reliability_code r) 0x10 else reliability_code r

abbrev pub frame_head : Frame → List ℕ
frame_head f = flag_byte f.reliability f.is_split ∷ to_be_bytes 2 (length f.body * 8 % 2 ^ 16)

-- What lies between the length and the body.
abbrev pub frame_fields : Frame → List ℕ → List ℕ
frame_fields f rest =
    index_bytes (is_reliable f.reliability) f.reliable_index
    ++ (index_bytes (is_sequenced f.reliability) f.sequence_index
        ++ (order_bytes (is_ordered f.reliability) f.order_index f.order_channel
            ++ (split_bytes f.is_split f.split_count f.split_id f.split_index ++ rest)))

write_index-eq :
    (b : Bool) (buf : List ℕ) (o : Option ℕ) → write_index b buf o ≡ buf ++ index_bytes b o
unfolding write_u24_le
write_index-eq true buf o = refl
write_index-eq false buf o = sym (append-nil buf)

write_order-eq :
    (b : Bool) (buf : List ℕ) (o : Option ℕ) (c : ℕ)
    → write_order b buf o c ≡ buf ++ order_bytes b o c
unfolding write_u24_le write_u8
write_order-eq true buf o c = append_assoc buf _ _
write_order-eq false buf o c = sym (append-nil buf)

write_split-eq :
    (b : Bool) (buf : List ℕ) (n id i : Option ℕ)
    → write_split b buf n id i ≡ buf ++ split_bytes b n id i
unfolding write_u16_be write_u32_be
write_split-eq true buf n id i = simp append_assoc
write_split-eq false buf n id i = sym (append-nil buf)

-- The encoder writes the head, the fields and the body.
pub encode_frame-eq : (f : Frame) → encode_frame f ≡ frame_head f ++ frame_fields f f.body
unfolding encode_frame write_u8 write_u16_be
encode_frame-eq f = simp (write_split-eq, write_order-eq, write_index-eq, append_assoc)

pub read-index :
    (b : Bool) (o : Option ℕ) (rest : List ℕ)
    → Holds b 24 o
    → read_index b (index_bytes b o ++ rest) ≡ ok (o, rest)
read-index true o rest (v, e, h) = rw (e, read-u24_le v rest h)
read-index false o rest e = rw e

pub read-order :
    (b : Bool) (o : Option ℕ) (c : ℕ) (rest : List ℕ)
    → Holds b 24 o
    → HoldsByte b c
    → read_order b (order_bytes b o c ++ rest) ≡ ok ((o, c), rest)
unfolding read_u8
read-order true o c rest (v, e, h) hc = rw (e, read-u24_le v (c ∷ rest) h)
read-order false o c rest e hc = rw (e, hc)

pub read-split :
    (b : Bool) (n id i : Option ℕ) (rest : List ℕ)
    → Holds b 32 n
    → Holds b 16 id
    → Holds b 32 i
    → read_split b (split_bytes b n id i ++ rest) ≡ ok ((n, id, i), rest)
read-split true n id i rest (v, e, h) (w, e', h') (x, e'', h'') =
    rw (e, e', e'', read-u32_be v _ h, read-u16_be w _ h', read-u32_be x rest h'')
read-split false n id i rest e e' e'' = rw (e, e', e'')

-- The flag byte gives the reliability and the split flag back.
pub from_raw-flag : (r : Reliability) (s : Bool) → from_raw (bit_and (flag_byte r s) 0x07) ≡ some r
unfolding from_raw
from_raw-flag unreliable true = refl
from_raw-flag unreliable false = refl
from_raw-flag unreliable_sequenced true = refl
from_raw-flag unreliable_sequenced false = refl
from_raw-flag reliable true = refl
from_raw-flag reliable false = refl
from_raw-flag reliable_ordered true = refl
from_raw-flag reliable_ordered false = refl
from_raw-flag reliable_sequenced true = refl
from_raw-flag reliable_sequenced false = refl

pub split-flag : (r : Reliability) (s : Bool) → not (bit_and (flag_byte r s) 0x10 == 0) ≡ s
split-flag unreliable true = refl
split-flag unreliable false = refl
split-flag unreliable_sequenced true = refl
split-flag unreliable_sequenced false = refl
split-flag reliable true = refl
split-flag reliable false = refl
split-flag reliable_ordered true = refl
split-flag reliable_ordered false = refl
split-flag reliable_sequenced true = refl
split-flag reliable_sequenced false = refl
