-- ===== src/Nbt/Writer/Tests.antt =====
-- The theorems on the tag writer at a concrete compound, and tests.
use rust_mine.Base.{◌≡◌, refl, some, List, [], ◌∷◌, ◌++◌, map, replicate, arith}
use rust_mine.Base.Int.{pos, negsuc}
use rust_mine.Base.Text.{codes}
use rust_mine.Base.Result.{ok}
use rust_mine.Nbt.Writer.{from_u8, write_string, long_array}
use rust_mine.Nbt.Writer.Reader.{
  Field, byte_field, int_field, long_field, string_field, float_field, write_compound,
  read_compound, kept_field,
}
use rust_mine.Nbt.Writer.RoundTrip.{read-write_compound}

abbrev player_tag : List Field
player_tag =
    byte_field (codes "flying") 1
    ∷ int_field (codes "x") (negsuc 15)
    ∷ long_field (codes "seed") (pos 0x0123_4567_89ab)
    ∷ string_field (codes "name") (codes "Steve")
    ∷ float_field (codes "yaw") 0x42b40000
    ∷ []

read-write_compound_example :
    read_compound 6 (write_compound (codes "root") player_tag ++ 255 ∷ [])
    ≡ some (map kept_field player_tag, 255 ∷ [])
read-write_compound_example =
    read-write_compound 6 (codes "root") player_tag (255 ∷ []) (omega arith)
      (omega arith, (omega arith, (omega arith, (tt, (omega arith, tt)))))

last_tag : from_u8 12 ≡ ok long_array
unfolding from_u8
last_tag = refl

-- A text of 65536 bytes is written as the empty one.
long_text : write_string [] (replicate 65536 97) ≡ 0 ∷ 0 ∷ []
unfolding write_string
long_text = refl
