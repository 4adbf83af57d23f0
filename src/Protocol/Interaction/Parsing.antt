-- ===== src/Protocol/Interaction/Parsing.antt =====
-- What the parsers and validators of crates/protocol/src/interaction.rs accept.
use rust_mine.Base.{
  ℕ, ◌<◌, ◌^◌, ◌↔◌, Bool, true, ◌≡◌, refl, ap, ◌∙◌, List, [], ◌++◌, Option, none, some, arith,
}
use rust_mine.Base.Int.{ℤ, pos, negsuc, IsI32}
use rust_mine.Base.Result.{ok, to_option}
use rust_mine.Nbt.Varint.{read_var_u32, read_var_i32, write_var_u32, write_var_i32}
use rust_mine.Nbt.Varint.RoundTrip.{read-write_var_i32, read-write_var_u32}
use rust_mine.Protocol.Interaction.{
  PlaceBlockInfo, got_int, read_int, read_position, parse_place_block, validate_place,
}
use rust_mine.Base.Maybe.{◌>>=◌}

abbrev int : ℤ → List ℕ
int = write_var_i32 []

-- The five fields of a PLACE_BLOCK payload, and what follows.
abbrev pub placement : ℤ → ℤ → ℤ → ℤ → ℕ → List ℕ → List ℕ
placement x y z face runtime_id rest =
    int x ++ (int y ++ (int z ++ (int face ++ (write_var_u32 [] runtime_id ++ rest))))

read_int-write : (v : ℤ) (rest : List ℕ) → IsI32 v → read_int (int v ++ rest) ≡ some (v, rest)
read_int-write v rest h = ap got_int (read-write_var_i32 v rest h)

read_position-write :
    (x y z : ℤ) (rest : List ℕ)
    → IsI32 x
    → IsI32 y
    → IsI32 z
    → read_position (int x ++ (int y ++ (int z ++ rest))) ≡ some ((x, y, z), rest)
read_position-write x y z rest hx hy hz =
    ap (λ o. o >>= λ p. read_int p.1 >>= λ q. read_int q.1 >>= λ r. some ((p.0, q.0, r.0), r.1))
      (read_int-write x (int y ++ (int z ++ rest)) hx)
    ∙ ap (λ o. o >>= λ q. read_int q.1 >>= λ r. some ((x, q.0, r.0), r.1))
        (read_int-write y (int z ++ rest) hy)
    ∙ ap (λ o. o >>= λ r. some ((x, y, r.0), r.1)) (read_int-write z rest hz)

abbrev place_behind : Option ((ℤ × ℤ × ℤ) × List ℕ) → Option PlaceBlockInfo
place_behind o = o >>= λ p. some (record {
  x = p.0.0;
  y = p.0.1;
  z = p.0.2;
  face = to_option (read_var_i32 p.1).0;
  runtime_id = to_option (read_var_u32 (read_var_i32 p.1).1).0;
})

-- A payload that starts with the five fields of a placement is parsed to them, for 32-bit values,
-- whatever follows.
pub parse_place_block-placement :
    (x y z face : ℤ) (runtime_id : ℕ) (rest : List ℕ)
    → IsI32 x
    → IsI32 y
    → IsI32 z
    → IsI32 face
    → runtime_id < 2 ^ 32
    → parse_place_block (placement x y z face runtime_id rest)
      ≡ some (record { x = x; y = y; z = z; face = some face; runtime_id = some runtime_id })
unfolding parse_place_block
parse_place_block-placement x y z face runtime_id rest hx hy hz hf hr =
    ap place_behind
      (read_position-write x y z (int face ++ (write_var_u32 [] runtime_id ++ rest)) hx hy hz)
    ∙ rw
        (
          read-write_var_i32 face (write_var_u32 [] runtime_id ++ rest) hf,
          read-write_var_u32 runtime_id rest hr,
        )
        refl

-- What the validator of a place asks for.
abbrev IsPlaceable : ℤ → Bool → Option ℕ → Type 0
IsPlaceable (negsuc h) is_air runtime_id = ⊥
IsPlaceable (pos h) is_air none = ⊥
IsPlaceable (pos h) is_air (some n) = (h < 256) × (is_air ≡ true)

-- A place passes exactly if its height is from 0 to 255, the position is free and there is an id.
validate_place-ok :
    (x y z : ℤ) (is_air : Bool) (runtime_id : Option ℕ)
    → (validate_place x y z is_air runtime_id ≡ ok tt) ↔ IsPlaceable y is_air runtime_id
unfolding validate_place
validate_place-ok x (negsuc h) z is_air runtime_id = (λ e. ground arith, λ e. absurd e)
validate_place-ok x (pos h) z is_air none = (λ e. ground arith, λ e. absurd e)
validate_place-ok x (pos h) z is_air (some n) = (λ e. ground arith, λ e. ground arith)
