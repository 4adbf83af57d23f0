-- ===== src/Protocol/Tests.antt =====
-- Runs of crates/protocol, and the theorems at concrete inputs.
use rust_mine.Base.{◌≡◌, refl, [], ◌∷◌, some, arith}
use rust_mine.Base.Int.{pos, negsuc}
use rust_mine.Base.Result.{ok, err}
use rust_mine.Protocol.Batch.{encode_batch, decode_batch, bad_magic}
use rust_mine.Protocol.Batch.RoundTrip.{decode-encode_batch}
use rust_mine.Protocol.Interaction.{parse_place_block}
use rust_mine.Protocol.Interaction.Parsing.{placement, parse_place_block-placement}

decode-encode_batch_example :
    decode_batch (encode_batch ((1 ∷ 2 ∷ []) ∷ [] ∷ (9 ∷ []) ∷ []))
    ≡ ok ((1 ∷ 2 ∷ []) ∷ [] ∷ (9 ∷ []) ∷ [])
decode-encode_batch_example =
    decode-encode_batch ((1 ∷ 2 ∷ []) ∷ [] ∷ (9 ∷ []) ∷ [])
      (omega arith, (omega arith, (omega arith, tt)))

parse_place_block-placement_example :
    parse_place_block (placement (pos 1) (pos 65) (negsuc 4) (pos 0) 2 [])
    ≡ some
        (record { x = pos 1; y = pos 65; z = negsuc 4; face = some (pos 0); runtime_id = some 2 })
parse_place_block-placement_example =
    parse_place_block-placement (pos 1) (pos 65) (negsuc 4) (pos 0) 2 [] (omega arith) (omega arith)
      (omega arith) (omega arith) (omega arith)

wrong_magic : decode_batch (0xfd ∷ []) ≡ err (bad_magic 0xfd)
unfolding decode_batch
wrong_magic = refl
