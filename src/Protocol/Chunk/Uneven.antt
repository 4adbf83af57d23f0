-- ===== src/Protocol/Chunk/Uneven.antt =====
-- Subchunks whose bits per block do not divide a word: crates/protocol/src/chunk.rs packs more
-- blocks into a word than decode.rs counts, so the decoder runs out of words.
use rust_mine.Base.{
  ℕ, zero, suc, ◌+◌, ◌*◌, ◌%◌, ◌^◌, ◌≤◌, ◌<◌, bit_or, ltb-true, ltb-false, leb-true, leb-false,
  eq_false, ◌≡◌, refl, ap, ◌⊎◌, inl, inr, List, [], ◌∷◌, ◌++◌, length, length-append, length-drop,
  drop, take, some, dec_lt, arith,
}
use rust_mine.Base.Bytes.{from_le_bytes}
use rust_mine.Base.Result.{err}
use rust_mine.Nbt.Varint.{write_var_u32}
use rust_mine.Nbt.Varint.Bounds.{write_var_u32_shape}
use rust_mine.Protocol.Chunk.{
  SubChunk, calculate_bits_per_block, pack_blocks, write_ids, encode_subchunk,
}
use rust_mine.Protocol.Chunk.Decode.{
  unexpected_end, unpack_word, read_words, words_needed, decode_storage, decode_subchunk,
}
use rust_mine.Protocol.Chunk.RoundTrip.{
  AllU32, palette_bytes, write_ids-append, bits_small, encode_subchunk-parts,
}
use native.Mathlib.Nat.{mul-le-mul_left}

-- A word takes a block more, up to `suc p` of them.
length-pack_blocks :
    (bits p j word : ℕ) (bs : List ℕ)
    → 32 ≤ bits * suc p
    → bits * p < 32
    → 0 < bits
    → j ≤ p
    → suc p * length (pack_blocks bits bs word (bits * j)) ≤ 4 * (length bs + j + p)
unfolding pack_blocks
length-pack_blocks bits p zero word [] reach below some_bits inside =
    rw (ltb-false 0 (bits * 0) (omega arith)) (omega arith)
length-pack_blocks bits p (suc j) word [] reach below some_bits inside =
    rw (ltb-true 0 (bits * suc j) (omega arith)) (omega arith)
length-pack_blocks bits p j word (b ∷ bs) reach below some_bits inside =
    let word' = bit_or word (b * 2 ^ (bits * j) % 2 ^ 32) in
    elim (dec_lt j p) [
      | yes more ↦
          let next : bits * suc j ≡ bits * j + bits = omega arith in
          rw
            (leb-false 32 (bits * j + bits)
              (omega (arith, mul-le-mul_left {m = suc j} {n = p} bits more)))
            (omega (
              arith,
              length-pack_blocks bits p (suc j) word' bs reach below some_bits more,
              ap (λ (t : ℕ). suc p * length (pack_blocks bits bs word' t)) next,
            ))
      | no last ↦
          let at : j ≡ p = omega arith in
          let none_left : bits * 0 ≡ 0 = omega arith in
          rw (leb-true 32 (bits * j + bits) (omega (arith, ap (λ (t : ℕ). bits * t) at))) (
            omega (
              arith,
              length-pack_blocks bits p 0 0 bs reach below some_bits (omega arith),
              ap (λ (t : ℕ). suc p * length (pack_blocks bits bs 0 t)) none_left,
            ))
    ]

read_words_short :
    (words bits : ℕ) (buf blocks : List ℕ)
    → length buf < 4 * words
    → read_words words bits buf blocks ≡ err unexpected_end
unfolding read_words
read_words_short zero bits buf blocks h = absurd (omega arith)
read_words_short (suc words) bits buf blocks h = elim (dec_lt (length buf) 4) [
  | yes short ↦ rw (ltb-true (length buf) 4 short) refl
  | no more ↦ rw (ltb-false (length buf) 4 (omega arith)) (
      read_words_short words bits (drop 4 buf)
        (unpack_word 32 bits (from_le_bytes (take 4 buf)) 0 blocks)
        (omega (arith, length-drop 4 buf)))
]

length-write_ids : (ids : List ℕ) → AllU32 ids → length (write_ids [] ids) ≤ 5 * length ids
unfolding write_ids
length-write_ids [] h = omega arith
length-write_ids (id ∷ ids) h = omega (
  arith,
  ap length (write_ids-append (write_var_u32 [] id) ids),
  length-append (write_var_u32 [] id) (write_ids [] ids),
  (write_var_u32_shape id h.0).2,
  length-write_ids ids h.1,
)

-- A number of palette entries whose places take 3, 5, 6 or 7 bits.
abbrev pub UnevenSize : ℕ → Type 0
UnevenSize n = ((4 < n) × (n ≤ 8)) ⊎ ((16 < n) × (n ≤ 128))

-- How the blocks of such a subchunk are packed, and that its bytes do not fill the words.
record FallsShort (size bits : ℕ) : Type 0 where
  last : ℕ
  reach : 32 ≤ bits * suc last
  below : bits * last < 32
  short :
      (packed : ℕ)
      → suc last * packed ≤ 4 * (4096 + 0 + last)
      → packed + (5 + 5 * size) < 4 * words_needed bits

FallsShort-with :
    (n bits last : ℕ)
    → calculate_bits_per_block n ≡ bits
    → 32 ≤ bits * suc last
    → bits * last < 32
    → ((packed : ℕ)
        → suc last * packed ≤ 4 * (4096 + 0 + last)
        → packed + (5 + 5 * n) < 4 * words_needed bits)
    → FallsShort n (calculate_bits_per_block n)
FallsShort-with n bits last e reach below short =
    let at : FallsShort n bits = record {
      last = last;
      reach = reach;
      below = below;
      short = short;
    } in
    rw e at

calculate_uneven :
    (n : ℕ)
    → (4 < n → n ≤ 8 → calculate_bits_per_block n ≡ 3)
      × (16 < n → n ≤ 32 → calculate_bits_per_block n ≡ 5)
      × (32 < n → n ≤ 64 → calculate_bits_per_block n ≡ 6)
      × (64 < n → n ≤ 128 → calculate_bits_per_block n ≡ 7)
unfolding calculate_bits_per_block
calculate_uneven n =
    (λ h k. ground arith, λ h k. ground arith, λ h k. ground arith, λ h k. ground arith)

palette-FallsShort : (n : ℕ) → UnevenSize n → FallsShort n (calculate_bits_per_block n)
palette-FallsShort n (inl h) =
    FallsShort-with n 3 10 ((calculate_uneven n).0 h.0 h.1) (omega arith) (omega arith)
      (λ k e. omega arith)
palette-FallsShort n (inr h) = elim (dec_lt 32 n) [
  | no few ↦
      FallsShort-with n 5 6 ((calculate_uneven n).1 h.0 (omega arith)) (omega arith) (omega arith)
        (λ k e. omega arith)
  | yes some_more ↦ elim (dec_lt 64 n) [
    | no fewer ↦
        FallsShort-with n 6 5 ((calculate_uneven n).2 some_more (omega arith)) (omega arith)
          (omega arith) (λ k e. omega arith)
    | yes many ↦
        FallsShort-with n 7 4 ((calculate_uneven n).3 many h.1) (omega arith) (omega arith)
          (λ k e. omega arith)
  ]
]

UnevenSize-fits : (n : ℕ) → UnevenSize n → n < 2 ^ 32
UnevenSize-fits n (inl h) = omega arith
UnevenSize-fits n (inr h) = omega arith

-- A subchunk of 4096 blocks with a palette of 5 to 8, or 17 to 128, 32-bit ids is never decoded:
-- its bytes end before the words that decode_subchunk counts.
pub decode-encode_subchunk_uneven :
    (s : SubChunk)
    → length s.blocks ≡ 4096
    → AllU32 s.palette
    → UnevenSize (length s.palette)
    → decode_subchunk (encode_subchunk s) ≡ some (err unexpected_end)
unfolding decode_subchunk decode_storage
decode-encode_subchunk_uneven s sized ids size =
    let n = length s.palette in
    let bits = calculate_bits_per_block n in
    let short = palette-FallsShort n size in
    let fits = UnevenSize-fits n size in
    let range = bits_small n in
    let packed = pack_blocks bits s.blocks 0 0 in
    let zero_bits : bits * 0 ≡ 0 = omega arith in
    let long : suc short.last * length packed ≤ 4 * (4096 + 0 + short.last) = omega (
      arith,
      length-pack_blocks bits short.last 0 0 s.blocks short.reach short.below range.0 (omega arith),
      ap (λ (t : ℕ). suc short.last * length (pack_blocks bits s.blocks 0 t)) zero_bits,
      sized,
    ) in
    let ends : length (packed ++ palette_bytes s.palette) < 4 * words_needed bits = omega (
      arith,
      short.short (length packed) long,
      length-append packed (palette_bytes s.palette),
      length-append (write_var_u32 [] n) (write_ids [] s.palette),
      (write_var_u32_shape n fits).2,
      length-write_ids s.palette ids,
    ) in
    rw
      (
        encode_subchunk-parts s fits,
        eq_false bits 0 (omega arith),
        ltb-false 32 bits (omega arith),
        read_words_short (words_needed bits) bits (packed ++ palette_bytes s.palette) [] ends,
      )
      refl
