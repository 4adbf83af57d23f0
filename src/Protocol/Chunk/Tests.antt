-- ===== src/Protocol/Chunk/Tests.antt =====
-- The theorems on subchunks at concrete ones, and tests.
use rust_mine.Base.{
  ◌-◌, ◌<◌, ◌≤◌, List, [], ◌∷◌, replicate, drop, All, All-replicate, get_elem?, dec_lt, ◌≡◌, refl,
  inl, some, none, arith,
}
use rust_mine.Base.Int.{negsuc}
use rust_mine.Base.Result.{ok, err}
use rust_mine.Base.Order.{lt_wf}
use rust_mine.Nbt.Varint.{write_loop, write_var_u32}
use rust_mine.Protocol.Chunk.{
  SubChunk, new_subchunk, filled, set_runtime_id, terrain_id, calculate_needed_height,
  encode_subchunk, encode_empty_subchunk, pack_blocks,
}
use rust_mine.Protocol.Chunk.Decode.{decode_subchunk, unexpected_end}
use rust_mine.Protocol.Chunk.RoundTrip.{decoded, decode-encode_subchunk}
use rust_mine.Protocol.Chunk.Uneven.{decode-encode_subchunk_uneven}
use rust_mine.Protocol.Chunk.Height.{IsBlank, calculate_needed_height_lem}

-- Three kinds of blocks, in a subchunk of the second kind.
abbrev three_kinds : SubChunk
three_kinds = record { palette = 0 ∷ 10 ∷ 300 ∷ []; blocks = 2 ∷ 0 ∷ replicate 4094 1 }

decode-encode_subchunk_example :
    decode_subchunk (encode_subchunk three_kinds) ≡ some (ok (decoded three_kinds))
decode-encode_subchunk_example = decode-encode_subchunk three_kinds (record {
  sized = refl;
  inside = (omega arith, (omega arith, All-replicate (λ i. i < 3) 4094 1 (omega arith)));
  ids = omega arith;
  whole = inl (omega arith);
})

abbrev five_kinds : SubChunk
five_kinds = record { palette = 0 ∷ 1 ∷ 2 ∷ 3 ∷ 10 ∷ []; blocks = 4 ∷ replicate 4095 1 }

decode-encode_subchunk_uneven_example :
    decode_subchunk (encode_subchunk five_kinds) ≡ some (err unexpected_end)
decode-encode_subchunk_uneven_example =
    decode-encode_subchunk_uneven five_kinds refl (omega arith) (inl (omega arith))

abbrev column : List SubChunk
column = new_subchunk ∷ three_kinds ∷ filled 5 ∷ []

-- The subchunk that is filled with blocks 5 is not sent.
calculate_needed_height_example :
    (1 ≤ calculate_needed_height column)
    × All IsBlank (drop (calculate_needed_height column) column)
    × (1 < calculate_needed_height column
        → (s : SubChunk) × (get_elem? column (calculate_needed_height column - 1) ≡ some s)
          × ¬ IsBlank s)
calculate_needed_height_example = calculate_needed_height_lem column

column_height : calculate_needed_height column ≡ 2
unfolding calculate_needed_height
column_height = refl

-- A short subchunk goes out like the empty one, but for its length.
empty_like_new : encode_empty_subchunk ≡ encode_subchunk new_subchunk
unfolding encode_empty_subchunk encode_subchunk write_var_u32 write_loop lt_wf dec_lt
empty_like_new = refl

two_blocks : pack_blocks 4 (1 ∷ 2 ∷ []) 0 0 ≡ 0x21 ∷ 0 ∷ 0 ∷ 0 ∷ []
unfolding pack_blocks
two_blocks = refl

below_zero : terrain_id (negsuc 19) 3 ≡ 1
below_zero = refl

cut_short : decode_subchunk (8 ∷ []) ≡ none
unfolding decode_subchunk
cut_short = refl

placed : (set_runtime_id 3 0 0 7 new_subchunk).palette ≡ 0 ∷ 7 ∷ []
unfolding set_runtime_id
placed = refl
