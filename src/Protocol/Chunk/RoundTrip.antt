-- ===== src/Protocol/Chunk/RoundTrip.antt =====
-- A subchunk that crates/protocol/src/chunk.rs encodes, decoded by decode.rs.
use rust_mine.Base.{
  ℕ, suc, ◌-◌, ◌*◌, ◌^◌, ◌≤◌, ◌<◌, ◌≡◌, refl, sym, ap, ◌∙◌, ◌⊎◌, inl, inr, List, [], ◌∷◌, ◌++◌,
  length, All, All-map, append_assoc, append-nil, some, dec_lt, eq_false, ltb-false, arith,
}
use rust_mine.Base.Result.{ok}
use rust_mine.Nbt.Varint.{write_var_u32}
use rust_mine.Nbt.Varint.RoundTrip.{read-write_var_u32, write_var_u32_small}
use rust_mine.Protocol.Batch.RoundTrip.{write_var_u32-append}
use rust_mine.Protocol.Chunk.{
  SubChunk, calculate_bits_per_block, pack_blocks, write_ids, encode_subchunk,
}
use rust_mine.Protocol.Chunk.Decode.{
  DecodedSubChunk, read_ids, read_palette, words_needed, decode_storage, decode_subchunk,
}
use rust_mine.Protocol.Chunk.Packing.{AllFit, read-pack_blocks}
use native.Mathlib.Nat.{mod-eq_of_lt}

pub write_ids-append : (buf ids : List ℕ) → write_ids buf ids ≡ buf ++ write_ids [] ids
unfolding write_ids
write_ids-append buf [] = sym (append-nil buf)
write_ids-append buf (id ∷ ids) =
    write_ids-append (write_var_u32 buf id) ids
    ∙ ap (λ (t : List ℕ). t ++ write_ids [] ids) (write_var_u32-append buf id)
    ∙ append_assoc buf (write_var_u32 [] id) (write_ids [] ids)
    ∙ ap (◌++◌ buf) (sym (write_ids-append (write_var_u32 [] id) ids))

abbrev pub AllU32 : List ℕ → Type 0
AllU32 = All (λ id. id < 2 ^ 32)

read_ids-write_ids : (ids : List ℕ) → AllU32 ids → read_ids (length ids) (write_ids [] ids) ≡ ok ids
unfolding read_ids
read_ids-write_ids [] h = refl
read_ids-write_ids (id ∷ ids) h =
    rw (write_ids-step, read-write_var_u32 id (write_ids [] ids) h.0, read_ids-write_ids ids h.1)
      refl
  where
    write_ids-step : write_ids [] (id ∷ ids) ≡ write_var_u32 [] id ++ write_ids [] ids
    write_ids-step = unfold write_ids in write_ids-append (write_var_u32 [] id) ids

-- The palette as it stands behind the blocks.
abbrev pub palette_bytes : List ℕ → List ℕ
palette_bytes ids = write_var_u32 [] (length ids) ++ write_ids [] ids

read_palette-bytes :
    (ids : List ℕ) → AllU32 ids → length ids < 2 ^ 32 → read_palette (palette_bytes ids) ≡ ok ids
unfolding read_palette
read_palette-bytes ids h n =
    rw (read-write_var_u32 (length ids) (write_ids [] ids) n) (read_ids-write_ids ids h)

-- Every number of bits per block is one byte.
pub bits_small : (n : ℕ) → (0 < calculate_bits_per_block n) × (calculate_bits_per_block n < 17)
unfolding calculate_bits_per_block
bits_small n = ground arith

-- The parts of an encoded subchunk.
pub encode_subchunk-parts :
    (s : SubChunk)
    → length s.palette < 2 ^ 32
    → encode_subchunk s
      ≡ 8
        ∷ 1
        ∷ calculate_bits_per_block (length s.palette)
        ∷ (pack_blocks (calculate_bits_per_block (length s.palette)) s.blocks 0 0
            ++ palette_bytes s.palette)
unfolding encode_subchunk
encode_subchunk-parts s n =
    let bits = calculate_bits_per_block (length s.palette) in
    let packed = pack_blocks bits s.blocks 0 0 in
    let count = write_var_u32 [] (length s.palette) in
    let head : write_var_u32 (8 ∷ 1 ∷ []) bits ≡ 8 ∷ 1 ∷ bits ∷ [] =
      write_var_u32-append (8 ∷ 1 ∷ []) bits
      ∙ ap (λ (t : List ℕ). 8 ∷ 1 ∷ t)
          (write_var_u32_small bits (omega (arith, (bits_small (length s.palette)).1))) in
    rw (head, mod-eq_of_lt {n = length s.palette} {m = 2 ^ 32} n)
      (write_ids-append (write_var_u32 (8 ∷ 1 ∷ bits ∷ packed) (length s.palette)) s.palette
        ∙ ap (λ (t : List ℕ). t ++ write_ids [] s.palette)
            (write_var_u32-append (8 ∷ 1 ∷ bits ∷ packed) (length s.palette))
        ∙ ap (λ (t : List ℕ). 8 ∷ 1 ∷ bits ∷ t)
            (append_assoc packed count (write_ids [] s.palette)))

-- With 1, 2, 4, 8 or 16 bits the blocks fill their words.
record IsWhole (size bits : ℕ) : Type 0 where
  per_word : ℕ
  full : bits * suc per_word ≡ 32
  some_bits : 0 < bits
  room : per_word < 32
  narrow : 2 ^ bits ≤ 2 ^ 16
  covers : size ≤ 2 ^ bits
  words : words_needed bits * suc per_word ≡ 4096

-- A number of palette entries whose places take 1, 2, 4, 8 or 16 bits.
abbrev pub WholeSize : ℕ → Type 0
WholeSize n = (n ≤ 4) ⊎ (((8 < n) × (n ≤ 16)) ⊎ ((128 < n) × (n ≤ 2 ^ 16)))

calculate_at :
    (n : ℕ)
    → (n ≤ 2 → calculate_bits_per_block n ≡ 1)
      × (2 < n → n ≤ 4 → calculate_bits_per_block n ≡ 2)
      × (8 < n → n ≤ 16 → calculate_bits_per_block n ≡ 4)
      × (128 < n → n ≤ 256 → calculate_bits_per_block n ≡ 8)
      × (256 < n → calculate_bits_per_block n ≡ 16)
unfolding calculate_bits_per_block
calculate_at n = (
  λ h. ground arith,
  λ h k. ground arith,
  λ h k. ground arith,
  λ h k. ground arith,
  λ h. ground arith,
)

IsWhole-with :
    (n bits m : ℕ)
    → calculate_bits_per_block n ≡ bits
    → bits * suc m ≡ 32
    → (0 < bits) × (m < 32) × (2 ^ bits ≤ 2 ^ 16) × (n ≤ 2 ^ bits)
    → words_needed bits * suc m ≡ 4096
    → IsWhole n (calculate_bits_per_block n)
IsWhole-with n bits m e full sizes words =
    let at : IsWhole n bits = record {
      per_word = m;
      full = full;
      some_bits = sizes.0;
      room = sizes.1;
      narrow = sizes.2;
      covers = sizes.3;
      words = words;
    } in
    rw e at

small-IsWhole : (n : ℕ) → n ≤ 4 → IsWhole n (calculate_bits_per_block n)
small-IsWhole n h = elim (dec_lt 2 n) [
  | yes more ↦ IsWhole-with n 2 15 ((calculate_at n).1 more h) refl (omega arith) refl
  | no few ↦ IsWhole-with n 1 31 ((calculate_at n).0 (omega arith)) refl (omega arith) refl
]

large-IsWhole : (n : ℕ) → 128 < n → n ≤ 2 ^ 16 → IsWhole n (calculate_bits_per_block n)
large-IsWhole n h k = elim (dec_lt 256 n) [
  | yes more ↦ IsWhole-with n 16 1 ((calculate_at n).4 more) refl (omega arith) refl
  | no few ↦ IsWhole-with n 8 3 ((calculate_at n).3 h (omega arith)) refl (omega arith) refl
]

palette-IsWhole : (n : ℕ) → WholeSize n → IsWhole n (calculate_bits_per_block n)
palette-IsWhole n (inl h) = small-IsWhole n h
palette-IsWhole n (inr (inl h)) =
    IsWhole-with n 4 7 ((calculate_at n).2 h.0 h.1) refl (omega arith) refl
palette-IsWhole n (inr (inr h)) = large-IsWhole n h.0 h.1

WholeSize-fits : (n : ℕ) → WholeSize n → n < 2 ^ 32
WholeSize-fits n (inl h) = omega arith
WholeSize-fits n (inr (inl h)) = omega arith
WholeSize-fits n (inr (inr h)) = omega arith

pub record IsEncodable (s : SubChunk) : Type 0 where
  pub sized : length s.blocks ≡ 4096
  pub inside : All (λ i. i < length s.palette) s.blocks
  pub ids : AllU32 s.palette
  pub whole : WholeSize (length s.palette)

-- What the decoder makes of the same palette and blocks.
abbrev pub decoded : SubChunk → DecodedSubChunk
decoded s = record { version = 8; palette = s.palette; blocks = s.blocks }

-- A subchunk of 4096 blocks that are places in its palette of 32-bit ids is decoded as it was
-- encoded, when the palette has at most 4, or 9 to 16, or 129 to 65,536 entries.
pub decode-encode_subchunk :
    (s : SubChunk) → IsEncodable s → decode_subchunk (encode_subchunk s) ≡ some (ok (decoded s))
unfolding decode_subchunk decode_storage
decode-encode_subchunk s h =
    let bits = calculate_bits_per_block (length s.palette) in
    let w = palette-IsWhole (length s.palette) h.whole in
    let fits = WholeSize-fits (length s.palette) h.whole in
    let range = bits_small (length s.palette) in
    let fit : AllFit bits s.blocks =
      All-map (λ (i : ℕ) (below : i < length s.palette). omega (arith, w.covers)) s.blocks
        h.inside in
    let filled : 4096 - length s.blocks ≡ 0 = omega (arith, h.sized) in
    rw
      (
        encode_subchunk-parts s fits,
        eq_false bits 0 (omega arith),
        ltb-false 32 bits (omega arith),
        read-pack_blocks bits w.per_word w.full w.some_bits w.room w.narrow (words_needed bits)
            s.blocks (palette_bytes s.palette) [] (h.sized ∙ sym w.words) fit
            (omega (arith, h.sized)),
        read_palette-bytes s.palette h.ids fits,
        filled,
        append-nil s.blocks,
      )
      refl
