-- ===== src/Raknet/Packet/Acks/RoundTrip.antt =====
-- Reading back what `encode_ack` of crates/raknet/src/packet.rs wrote.
use rust_mine.Base.{
  ℕ, ◌%◌, ◌^◌, ◌<◌, ◌==◌, Bool-cases, ==_iff, inl, inr, if◌then◌else◌, ◌≡◌, refl, sym, ap, ◌∙◌,
  Bool, List, [], ◌∷◌, ◌++◌, length, take, All, append_assoc, append-nil,
}
use native.Mathlib.Nat.{mod-eq_of_lt}
use rust_mine.Base.Bytes.{to_le_bytes, to_be_bytes}
use rust_mine.Base.Result.{ok}
use rust_mine.Raknet.Packet.{SequenceRange}
use rust_mine.Raknet.Packet.Wire.{read_u8, write_u8, write_u16_be, write_u24_le}
use rust_mine.Raknet.Packet.Wire.Fields.{read-u16_be, read-u24_le}
use rust_mine.Raknet.Packet.Acks.{
  encode_range, encode_ranges, encode_ack, decode_ranges, decode_ack,
}

abbrev pub IsRange : SequenceRange → Type 0
IsRange r = (r.start < 2 ^ 24) × (r.end < 2 ^ 24)

abbrev u24 : ℕ → List ℕ
u24 v = take 3 (to_le_bytes 4 v)

-- A range of one number is written once, with a mark.
abbrev range_bytes : SequenceRange → List ℕ
range_bytes r = if r.start == r.end then 1 ∷ u24 r.start else 0 ∷ (u24 r.start ++ u24 r.end)

abbrev ranges_bytes : List SequenceRange → List ℕ
ranges_bytes [] = []
ranges_bytes (r ∷ rs) = range_bytes r ++ ranges_bytes rs

encode_range-eq : (buf : List ℕ) (r : SequenceRange) → encode_range buf r ≡ buf ++ range_bytes r
unfolding write_u8 write_u24_le
encode_range-eq buf r = elim (Bool-cases (r.start == r.end)) [
  | inl e ↦ rw e (append_assoc buf _ _)
  | inr e ↦ rw e (simp append_assoc)
]

encode_ranges-eq :
    (buf : List ℕ) (rs : List SequenceRange) → encode_ranges buf rs ≡ buf ++ ranges_bytes rs
encode_ranges-eq buf [] = sym (append-nil buf)
encode_ranges-eq buf (r ∷ rs) =
    ap (λ (b : List ℕ). encode_ranges b rs) (encode_range-eq buf r)
    ∙ encode_ranges-eq (buf ++ range_bytes r) rs
    ∙ append_assoc buf (range_bytes r) (ranges_bytes rs)

decode_ranges-bytes :
    (rs : List SequenceRange) (rest : List ℕ)
    → All IsRange rs
    → decode_ranges (length rs) (ranges_bytes rs ++ rest) ≡ ok rs
unfolding decode_ranges read_u8
decode_ranges-bytes [] rest h = refl
decode_ranges-bytes (r ∷ rs) rest ((hs, he), h) = elim (Bool-cases (r.start == r.end)) [
  | inl e ↦
      rw (e, read-u24_le r.start (ranges_bytes rs ++ rest) hs, decode_ranges-bytes rs rest h)
        (ap (λ (x : ℕ). ok (record { start = r.start; end = x } ∷ rs)) ((==_iff _ _).0 e))
  | inr e ↦ rw (
    e,
    read-u24_le r.start (u24 r.end ++ (ranges_bytes rs ++ rest)) hs,
    read-u24_le r.end (ranges_bytes rs ++ rest) he,
    decode_ranges-bytes rs rest h,
  )
]

-- The bytes of a record, after its id.
abbrev ack_body : List SequenceRange → List ℕ
ack_body rs = to_be_bytes 2 (length rs % 2 ^ 16) ++ ranges_bytes rs

pub encode_ack-eq :
    (rs : List SequenceRange) (is_nack : Bool)
    → encode_ack rs is_nack ≡ (if is_nack then 0xa0 else 0xc0) ∷ ack_body rs
unfolding encode_ack write_u8 write_u16_be
encode_ack-eq rs is_nack = encode_ranges-eq _ rs

-- An ACK or NACK of fewer than 65536 ranges is read back whole.
pub decode-encode_ack :
    (rs : List SequenceRange) (is_nack : Bool)
    → All IsRange rs
    → length rs < 2 ^ 16
    → decode_ack (encode_ack rs is_nack) ≡ ok rs
unfolding decode_ack
decode-encode_ack rs is_nack h fits =
    rw
      (
        encode_ack-eq rs is_nack,
        mod-eq_of_lt {n = length rs} {m = 2 ^ 16} fits,
        read-u16_be (length rs) (ranges_bytes rs) fits,
      )
      (ap (decode_ranges (length rs)) (sym (append-nil _)) ∙ decode_ranges-bytes rs [] h)
