-- ===== src/Protocol/Interaction.antt =====
-- crates/protocol/src/interaction.rs: parsers and validators; the distance test is in Reach.
pub mod Parsing
pub mod Reach
use rust_mine.Base.{
  ℕ, if◌then◌else◌, ◌||◌, not, Bool, true, false, List, [], ◌∷◌, ◌++◌, Option, none, some,
}
use rust_mine.Base.Int.{ℤ, pos, ltz}
use rust_mine.Base.Result.{Result, ok, err, to_option}
use rust_mine.Base.Maybe.{◌>>=◌}
use rust_mine.Nbt.Varint.{NbtError, read_var_u32, read_var_i32, write_var_u32, write_var_i32}
use rust_mine.Protocol.{write_packet}

pub record BreakBlockInfo : Type 0 where
  pub x : ℤ
  pub y : ℤ
  pub z : ℤ
  pub face : Option ℤ

pub record PlaceBlockInfo : Type 0 where
  pub x : ℤ
  pub y : ℤ
  pub z : ℤ
  pub face : Option ℤ
  pub runtime_id : Option ℕ

-- `read_var_i32(..).ok()?`.
abbrev pub got_int : Result NbtError ℤ × List ℕ → Option (ℤ × List ℕ)
got_int (err e, rest) = none
got_int (ok v, rest) = some (v, rest)

abbrev pub read_int : List ℕ → Option (ℤ × List ℕ)
read_int body = got_int (read_var_i32 body)

-- The three coordinates, and the bytes behind them.
abbrev pub read_position : List ℕ → Option ((ℤ × ℤ × ℤ) × List ℕ)
read_position body = do
  (x, rest) ← read_int body
  (y, rest) ← read_int rest
  (z, rest) ← read_int rest
  some ((x, y, z), rest)

-- `if pos < body.len() { .. }`.
abbrev pub read_face : List ℕ → Option ℤ
read_face [] = none
read_face (b ∷ rest) = to_option (read_var_i32 (b ∷ rest)).0

unfoldable pub parse_break_block : List ℕ → Option BreakBlockInfo
parse_break_block body = do
  ((x, y, z), rest) ← read_position body
  some (record { x = x; y = y; z = z; face = read_face rest })

-- A reader that fails moves the cursor all the same.
unfoldable pub parse_place_block : List ℕ → Option PlaceBlockInfo
parse_place_block body = do
  ((x, y, z), rest) ← read_position body
  let face = (read_var_i32 rest).0
  let after_face = (read_var_i32 rest).1
  some (record {
    x = x;
    y = y;
    z = z;
    face = to_option face;
    runtime_id = to_option (read_var_u32 after_face).0;
  })

-- The error texts.
pub data Refusal : Type 0 where
  out_of_world_bounds : ℤ → Refusal
  cannot_break_air already_occupied no_runtime_id : Refusal

-- `y < 0 || y >= 256`.
abbrev pub is_outside : ℤ → Bool
is_outside y = ltz y (pos 0) || not (ltz y (pos 256))

unfoldable pub validate_break : ℤ → ℤ → ℤ → Bool → Result Refusal (Unit {0})
validate_break x y z is_air =
    if is_outside y
    then err (out_of_world_bounds y)
    else if is_air
    then err cannot_break_air
    else ok tt

abbrev is_none {ℓ} : {A : Type ℓ} → Option A → Bool
is_none none = true
is_none (some a) = false

unfoldable pub validate_place : ℤ → ℤ → ℤ → Bool → Option ℕ → Result Refusal (Unit {0})
validate_place x y z is_air runtime_id =
    if is_outside y
    then err (out_of_world_bounds y)
    else if not is_air
    then err already_occupied
    else if is_none runtime_id
    then err no_runtime_id
    else ok tt

unfoldable pub encode_update_block : ℤ → ℤ → ℤ → ℕ → List ℕ
encode_update_block x y z runtime_id =
    let p₁ = write_var_i32 (write_var_i32 (write_var_i32 [] x) y) z in
    write_packet 0x15 (write_var_u32 (write_var_u32 p₁ runtime_id) 0)
