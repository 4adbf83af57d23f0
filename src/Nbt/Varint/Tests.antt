-- ===== src/Nbt/Varint/Tests.antt =====
-- Runs of crates/nbt/src/varint.rs, and the theorems at concrete inputs.
use rust_mine.Base.{ℕ, ◌≤◌, ◌≡◌, refl, List, [], ◌∷◌, length, All, dec_lt, arith}
use rust_mine.Base.Bytes.{IsByte}
use rust_mine.Base.Order.{lt_wf}
use rust_mine.Base.Int.{negsuc}
use rust_mine.Base.Result.{ok}
use rust_mine.Nbt.Varint.{
  read_loop, write_loop, read_var_u32, write_var_u32, write_var_u64, write_var_i32,
  zigzag_encode_i32, zigzag_decode_i32,
}
use rust_mine.Nbt.Varint.Bounds.{write_var_u64_shape}
use rust_mine.Nbt.Varint.Zigzag.{zigzag_i32}

write_300 : write_var_u32 [] 300 ≡ 0xac ∷ 0x02 ∷ []
unfolding write_var_u32 write_loop lt_wf dec_lt
write_300 = refl

write_minus_five : write_var_i32 [] (negsuc 4) ≡ 9 ∷ []
unfolding write_var_i32 zigzag_encode_i32 write_var_u32 write_loop lt_wf dec_lt
write_minus_five = refl

read_padded : read_var_u32 (0x80 ∷ 0x00 ∷ 7 ∷ []) ≡ (ok 0, 7 ∷ [])
unfolding read_var_u32 read_loop
read_padded = refl

abbrev five_ff : List ℕ
five_ff = 0xff ∷ 0xff ∷ 0xff ∷ 0xff ∷ 0xff ∷ []

write_var_u64_shape_example :
    All IsByte (write_var_u64 [] 300)
    × (1 ≤ length (write_var_u64 [] 300))
    × (length (write_var_u64 [] 300) ≤ 10)
write_var_u64_shape_example = write_var_u64_shape 300 (omega arith)

zigzag_i32_example :
    (zigzag_decode_i32 (zigzag_encode_i32 (negsuc 2)) ≡ negsuc 2)
    × (zigzag_encode_i32 (negsuc 2) ≡ 5)
zigzag_i32_example = zigzag_i32 (negsuc 2) (omega arith)
