-- ===== src/Nbt/Writer.antt =====
-- crates/nbt/src/lib.rs: the tag ids and `NbtWriter`, which is the list of its bytes. An f32 is its
-- bit pattern.
pub mod Reader
pub mod RoundTrip
mod Tests
use rust_mine.Base.{ℕ, ◌%◌, ◌^◌, ◌==◌, if◌then◌else◌, List, [], ◌∷◌, ◌++◌, length, take, min}
use rust_mine.Base.Int.{ℤ, pos, to_bits, of_bits}
use rust_mine.Base.Bytes.{to_le_bytes}
use rust_mine.Base.Result.{Result, ok, err}
use rust_mine.Nbt.Varint.{NbtError, invalid_tag_id}

pub data TagId : Type 0 where
  end byte short int long float double byte_array string list compound int_array long_array : TagId

abbrev pub tag_code : TagId → ℕ
tag_code end = 0
tag_code byte = 1
tag_code short = 2
tag_code int = 3
tag_code long = 4
tag_code float = 5
tag_code double = 6
tag_code byte_array = 7
tag_code string = 8
tag_code list = 9
tag_code compound = 10
tag_code int_array = 11
tag_code long_array = 12

unfoldable pub from_u8 : ℕ → Result NbtError TagId
from_u8 b =
    if b == 0
    then ok end
    else if b == 1
    then ok byte
    else if b == 2
    then ok short
    else if b == 3
    then ok int
    else if b == 4
    then ok long
    else if b == 5
    then ok float
    else if b == 6
    then ok double
    else if b == 7
    then ok byte_array
    else if b == 8
    then ok string
    else if b == 9
    then ok list
    else if b == 10
    then ok compound
    else if b == 11
    then ok int_array
    else if b == 12
    then ok long_array
    else err (invalid_tag_id b)

abbrev pub write_byte : List ℕ → ℕ → List ℕ
write_byte buf b = buf ++ b ∷ []

abbrev pub write_i16_le : List ℕ → ℤ → List ℕ
write_i16_le buf v = buf ++ to_le_bytes 2 (to_bits (2 ^ 15) v)

abbrev pub write_i32_le : List ℕ → ℤ → List ℕ
write_i32_le buf v = buf ++ to_le_bytes 4 (to_bits (2 ^ 31) v)

abbrev pub write_i64_le : List ℕ → ℤ → List ℕ
write_i64_le buf v = buf ++ to_le_bytes 8 (to_bits (2 ^ 63) v)

abbrev pub write_f32_le : List ℕ → ℕ → List ℕ
write_f32_le buf v = buf ++ to_le_bytes 4 v

-- The length is cast to a u16 before it is compared with the largest one.
unfoldable pub write_string : List ℕ → List ℕ → List ℕ
write_string buf s =
    let len = min (length s % 2 ^ 16) 65535 in write_i16_le buf (of_bits (2 ^ 15) len) ++ take len s

unfoldable pub write_compound_header : List ℕ → List ℕ → List ℕ
unfolding write_string
write_compound_header buf name = write_string (write_byte buf (tag_code compound)) []

unfoldable pub write_end : List ℕ → List ℕ
write_end buf = write_byte buf (tag_code end)

unfoldable pub write_byte_field : List ℕ → List ℕ → ℕ → List ℕ
unfolding write_string
write_byte_field buf name v = write_byte (write_string (write_byte buf (tag_code byte)) name) v

unfoldable pub write_int_field : List ℕ → List ℕ → ℤ → List ℕ
unfolding write_string
write_int_field buf name v = write_i32_le (write_string (write_byte buf (tag_code int)) name) v

unfoldable pub write_long_field : List ℕ → List ℕ → ℤ → List ℕ
unfolding write_string
write_long_field buf name v = write_i64_le (write_string (write_byte buf (tag_code long)) name) v

unfoldable pub write_string_field : List ℕ → List ℕ → List ℕ → List ℕ
unfolding write_string
write_string_field buf name v =
    write_string (write_string (write_byte buf (tag_code string)) name) v

unfoldable pub write_float_field : List ℕ → List ℕ → ℕ → List ℕ
unfolding write_string
write_float_field buf name v = write_f32_le (write_string (write_byte buf (tag_code float)) name) v
