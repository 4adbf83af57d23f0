-- ===== src/Protocol/Chunk/Decode.antt =====
-- crates/protocol/src/decode.rs. `none` is a panic: an index past the end, or a division by zero.
use rust_mine.Base.{
  ℕ, zero, suc, ◌+◌, ◌-◌, ◌/◌, ◌%◌, ◌^◌, bit_and, ltb, ◌==◌, ◌&&◌, if◌then◌else◌, List, [], ◌∷◌,
  ◌++◌, length, take, drop, get_or, replicate, Option, none, some,
}
use rust_mine.Base.Bytes.{from_le_bytes}
use rust_mine.Base.Result.{Result, ok, err, ◌>>=◌}
use rust_mine.Nbt.Varint.{NbtError, read_var_u32}
use rust_mine.World.{local_to_index}

pub record DecodedSubChunk : Type 0 where
  pub version : ℕ
  pub palette : List ℕ
  pub blocks : List ℕ

-- `DecodedSubChunk::get_block`.
unfoldable pub decoded_block : DecodedSubChunk → ℕ → ℕ → ℕ → ℕ
decoded_block s lx ly lz = get_or s.palette (get_or s.blocks (local_to_index lx ly lz) 0) 0

pub data ChunkDecodeError : Type 0 where
  unexpected_end palette_read_error : ChunkDecodeError
  unsupported_storage_count invalid_version : ℕ → ChunkDecodeError

-- The `while` loop over a word. The shift for the mask is taken modulo 32. The word's bits rise to
-- 32, so as many rounds are enough.
unfoldable pub unpack_word : ℕ → ℕ → ℕ → ℕ → List ℕ → List ℕ
unpack_word zero bits word read blocks = blocks
unpack_word (suc rounds) bits word read blocks =
    let idx = bit_and (word / 2 ^ read) (2 ^ (bits % 32) - 1) in
    let more = unpack_word rounds bits word (read + bits) (blocks ++ idx % 2 ^ 16 ∷ []) in
    if ltb read 32 && ltb (length blocks) 4096 then more else blocks

unfoldable pub read_words : ℕ → ℕ → List ℕ → List ℕ → Result ChunkDecodeError (List ℕ × List ℕ)
unfolding unpack_word
read_words zero bits buf blocks = ok (blocks, buf)
read_words (suc words) bits buf blocks =
    let word = from_le_bytes (take 4 buf) in
    let more = read_words words bits (drop 4 buf) (unpack_word 32 bits word 0 blocks) in
    if ltb (length buf) 4 then err unexpected_end else more

-- Filled with zeros up to 4096.
abbrev pub pad : List ℕ → List ℕ
pad blocks = blocks ++ replicate (4096 - length blocks) 0

abbrev pub take_id : Result NbtError ℕ × List ℕ → Result ChunkDecodeError (ℕ × List ℕ)
take_id (ok id, rest) = ok (id, rest)
take_id (err e, rest) = err palette_read_error

unfoldable pub read_ids : ℕ → List ℕ → Result ChunkDecodeError (List ℕ)
read_ids zero buf = ok []
read_ids (suc n) buf = take_id (read_var_u32 buf) >>= λ (read : ℕ × List ℕ).
    read_ids n read.1 >>= λ (ids : List ℕ). ok (read.0 ∷ ids)

unfoldable pub read_palette : List ℕ → Result ChunkDecodeError (List ℕ)
unfolding read_ids
read_palette buf = take_id (read_var_u32 buf) >>= λ (read : ℕ × List ℕ). read_ids read.0 read.1

-- How many words the decoder reads.
abbrev pub words_needed : ℕ → ℕ
words_needed bits =
    let blocks_per_word = 32 / bits in (4096 + blocks_per_word - 1) / blocks_per_word

-- What follows the bits per block, where these are 1 to 32.
unfoldable pub decode_storage : ℕ → ℕ → List ℕ → Result ChunkDecodeError DecodedSubChunk
unfolding read_words read_palette
decode_storage version bits buf =
    read_words (words_needed bits) bits buf [] >>= λ (read : List ℕ × List ℕ).
    read_palette read.1 >>= λ (ids : List ℕ).
    let s : DecodedSubChunk = record { version = version; palette = ids; blocks = pad read.0 } in
    ok s

-- A single storage, from its bits per block on.
abbrev pub decode_single : ℕ → List ℕ → Option (Result ChunkDecodeError DecodedSubChunk)
decode_single version [] = none
decode_single version (bits ∷ buf) =
    let air : DecodedSubChunk = record {
      version = version;
      palette = 0 ∷ [];
      blocks = replicate 4096 0;
    } in
    if bits == 0
    then some (ok air)
    else if ltb 32 bits
    then none
    else some (decode_storage version bits buf)

unfoldable pub decode_subchunk : List ℕ → Option (Result ChunkDecodeError DecodedSubChunk)
unfolding decode_storage
decode_subchunk [] = some (err unexpected_end)
decode_subchunk (version ∷ []) = none
decode_subchunk (version ∷ num_storages ∷ buf) =
    if num_storages == 1
    then decode_single version buf
    else some (err (unsupported_storage_count num_storages))
