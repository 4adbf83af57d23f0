-- ===== src/Nbt/Writer/Reader.antt =====
-- A reader of little-endian NBT compounds with the fields that `NbtWriter` of
-- crates/nbt/src/lib.rs writes, and what is left of a field whose texts are too long.
use rust_mine.Base.{
  ℕ, zero, suc, ◌%◌, ◌^◌, ◌<◌, leb, if◌then◌else◌, Option, none, some, List, [], ◌∷◌, length, take,
  drop,
}
use rust_mine.Base.Int.{ℤ, IsI32, IsI64, of_bits}
use rust_mine.Base.Bytes.{from_le_bytes}
use rust_mine.Base.Maybe.{◌>>=◌}
use rust_mine.Base.Result.{to_option}
use rust_mine.Nbt.Writer.{
  TagId, end, byte, int, long, float, string, compound, from_u8, write_compound_header, write_end,
  write_byte_field, write_int_field, write_long_field, write_string_field, write_float_field,
}

pub data Field : Type 0 where
  byte_field float_field : List ℕ → ℕ → Field
  int_field long_field : List ℕ → ℤ → Field
  string_field : List ℕ → List ℕ → Field

abbrev pub write_field : List ℕ → Field → List ℕ
write_field buf (byte_field name v) = write_byte_field buf name v
write_field buf (float_field name v) = write_float_field buf name v
write_field buf (int_field name v) = write_int_field buf name v
write_field buf (long_field name v) = write_long_field buf name v
write_field buf (string_field name v) = write_string_field buf name v

abbrev pub write_fields : List ℕ → List Field → List ℕ
write_fields buf [] = buf
write_fields buf (f ∷ fields) = write_fields (write_field buf f) fields

-- A header, the fields and the end.
abbrev pub write_compound : List ℕ → List Field → List ℕ
write_compound name fields = write_end (write_fields (write_compound_header [] name) fields)

-- The next bytes, and the rest.
unfoldable pub cut : ℕ → List ℕ → Option (List ℕ × List ℕ)
cut n bs = if leb n (length bs) then some (take n bs, drop n bs) else none

unfoldable pub read_le : ℕ → List ℕ → Option (ℕ × List ℕ)
unfolding cut
read_le n bs = cut n bs >>= λ p. some (from_le_bytes p.0, p.1)

unfoldable pub read_text : List ℕ → Option (List ℕ × List ℕ)
unfolding cut read_le
read_text bs = read_le 2 bs >>= λ p. cut p.0 p.1

abbrev pub read_tag : List ℕ → Option (TagId × List ℕ)
read_tag [] = none
read_tag (b ∷ bs) = to_option (from_u8 b) >>= λ t. some (t, bs)

abbrev pub read_value : TagId → List ℕ → List ℕ → Option (Field × List ℕ)
read_value byte name bs = read_le 1 bs >>= λ p. some (byte_field name p.0, p.1)
read_value float name bs = read_le 4 bs >>= λ p. some (float_field name p.0, p.1)
read_value int name bs = read_le 4 bs >>= λ p. some (int_field name (of_bits (2 ^ 31) p.0), p.1)
read_value long name bs = read_le 8 bs >>= λ p. some (long_field name (of_bits (2 ^ 63) p.0), p.1)
read_value string name bs = read_text bs >>= λ p. some (string_field name p.0, p.1)
read_value _ name bs = none

abbrev pub put_first :
    (List ℕ → Option (List Field × List ℕ)) → Option (Field × List ℕ) → Option (List Field × List ℕ)
put_first more none = none
put_first more (some (f, bs)) = more bs >>= λ r. some (f ∷ r.0, r.1)

abbrev pub read_named :
    (List ℕ → Option (List Field × List ℕ))
    → TagId
    → Option (List ℕ × List ℕ)
    → Option (List Field × List ℕ)
read_named more tag none = none
read_named more tag (some (name, bs)) = put_first more (read_value tag name bs)

abbrev pub read_entry :
    (List ℕ → Option (List Field × List ℕ)) → TagId → List ℕ → Option (List Field × List ℕ)
read_entry more end bs = some ([], bs)
read_entry more tag bs = read_named more tag (read_text bs)

-- The fields up to the end tag, at most as many as the rounds.
unfoldable pub read_fields : ℕ → List ℕ → Option (List Field × List ℕ)
unfolding read_le read_text from_u8
read_fields zero bs = none
read_fields (suc n) bs = read_tag bs >>= λ p. read_entry (read_fields n) p.0 p.1

abbrev pub read_root : ℕ → TagId → List ℕ → Option (List Field × List ℕ)
read_root rounds compound bs = read_text bs >>= λ p. read_fields rounds p.1
read_root rounds _ bs = none

unfoldable pub read_compound : ℕ → List ℕ → Option (List Field × List ℕ)
unfolding read_text read_fields from_u8
read_compound rounds bs = read_tag bs >>= λ p. read_root rounds p.0 p.1

-- What is left of a text: as many bytes as its length modulo 2^16.
abbrev pub kept : List ℕ → List ℕ
kept s = take (length s % 2 ^ 16) s

abbrev pub kept_field : Field → Field
kept_field (byte_field name v) = byte_field (kept name) v
kept_field (float_field name v) = float_field (kept name) v
kept_field (int_field name v) = int_field (kept name) v
kept_field (long_field name v) = long_field (kept name) v
kept_field (string_field name v) = string_field (kept name) (kept v)

-- The value is one of its type.
abbrev pub IsField : Field → Type 0
IsField (byte_field name v) = v < 256
IsField (float_field name v) = v < 2 ^ 32
IsField (int_field name v) = IsI32 v
IsField (long_field name v) = IsI64 v
IsField (string_field name v) = Unit {0}
