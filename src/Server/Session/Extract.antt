-- ===== src/Server/Session/Extract.antt =====
-- What crates/server/src/session.rs reads from the bodies of packets. An f32 is its bit pattern.
use rust_mine.Base.{
  ℕ, suc, ◌+◌, ◌-◌, ◌*◌, ◌/◌, ◌%◌, ◌^◌, bit_and, bit_or, bit_xor, ltb, leb, ◌==◌, ◌&&◌,
  if◌then◌else◌, Bool, true, false, List, [], ◌∷◌, length, take, drop, Option, none, some,
}
use rust_mine.Base.Int.{ℤ, pos, negsuc, of_bits}
use rust_mine.Base.Bytes.{from_le_bytes}
use rust_mine.Base.Maybe.{◌>>=◌}
use rust_mine.Base.Text.{codes}
use rust_mine.World.{position}
use rust_mine.Protocol.{is_utf8}

pub record Position : Type 0 where
  pub x : ℕ
  pub y : ℕ
  pub z : ℕ
  pub yaw : ℕ
  pub pitch : ℕ
  pub on_ground : Bool

-- The bits of 70.0.
abbrev seventy : ℕ
seventy = 0x428c0000

abbrev pub default_position : Position
default_position = record { x = 0; y = seventy; z = 0; yaw = 0; pitch = 0; on_ground = true }

abbrev pub spawn_point : ℕ × ℕ × ℕ
spawn_point = (0, seventy, 0)

abbrev pub starts_with : List ℕ → List ℕ → Bool
starts_with [] xs = true
starts_with (n ∷ needle) [] = false
starts_with (n ∷ needle) (x ∷ xs) = n == x && starts_with needle xs

-- The first window that is the needle, which is not empty.
unfoldable pub find_subslice : List ℕ → List ℕ → Option ℕ
find_subslice [] needle = none
find_subslice (x ∷ xs) needle = elim (starts_with needle (x ∷ xs)) [
  | true ↦ some 0
  | false ↦ elim (find_subslice xs needle) [ none ↦ none | some i ↦ some (suc i) ]
]

abbrev pub needle : List ℕ
needle = codes "displayName"

-- `String::from_utf8(..).ok()`.
abbrev pub to_text : List ℕ → Option (List ℕ)
to_text bytes = if is_utf8 bytes then some bytes else none

abbrev pub name_text : List ℕ → Option (List ℕ)
name_text [] = none
name_text (b ∷ bs) = to_text (b ∷ bs)

-- `"`.
abbrev pub quote : ℕ
quote = 34

unfoldable pub extract_offline_username : List ℕ → Option (List ℕ)
unfolding find_subslice
extract_offline_username body = do
  idx ← find_subslice body needle
  let rest = drop (idx + length needle) body
  start ← position rest quote
  let after = drop (start + 1) rest
  end ← position after quote
  name_text (take end after)

-- `((result as u32) >> 1) as i32 ^ -((result as u32) & 1) as i32`. The negation of a u32 does not
-- compile; it is taken to give -1, all bits, for the last bit, and 0 without it.
unfoldable pub undo_zigzag : ℕ → ℤ
undo_zigzag result =
    let sign = if bit_and result 1 == 0 then 0 else 2 ^ 32 - 1 in
    of_bits (2 ^ 31) (bit_xor (result / 2) sign)

-- The loop of `decode_varint_at`; the i32 that it builds is kept as a u32.
unfoldable pub decode_loop : List ℕ → ℕ → ℕ → Option (ℤ × List ℕ)
unfolding undo_zigzag
decode_loop [] result shift = none
decode_loop (b ∷ rest) result shift =
    let result' = bit_or result (bit_and b 0x7f * 2 ^ shift % 2 ^ 32) in
    let more = decode_loop rest result' (shift + 7) in
    if leb 35 shift
    then none
    else if bit_and b 0x80 == 0
    then some (undo_zigzag result', rest)
    else more

unfoldable pub decode_varint_at : List ℕ → Option (ℤ × List ℕ)
unfolding decode_loop
decode_varint_at body = decode_loop body 0 0

unfoldable pub decode_varint : List ℕ → Option ℤ
unfolding decode_varint_at
decode_varint body = do (v, rest) ← decode_varint_at body; some v

unfoldable pub read_lfloat : List ℕ → Option (ℕ × List ℕ)
read_lfloat body =
    if ltb (length body) 4 then none else some (from_le_bytes (take 4 body), drop 4 body)

unfoldable pub parse_move_player : List ℕ → Option Position
unfolding decode_varint_at read_lfloat
parse_move_player body = if ltb (length body) 49 then none else do
  (id, rest) ← decode_varint_at body
  (x, rest) ← read_lfloat rest
  (y, rest) ← read_lfloat rest
  (z, rest) ← read_lfloat rest
  (pitch, rest) ← read_lfloat rest
  (yaw, rest) ← read_lfloat rest
  some (record { x = x; y = y; z = z; yaw = yaw; pitch = pitch; on_ground = false })

-- The text behind its length. A negative length is a huge `usize`: with the cursor `at` added it
-- wraps around, and the slice panics, unless it stays above the body's length.
abbrev pub text_behind : ℕ → ℤ × List ℕ → Option (Option (List ℕ))
text_behind at (pos n, rest) = some (if ltb (length rest) n then none else to_text (take n rest))
text_behind at (negsuc n, rest) = if leb (n + 1) at then none else some none

abbrev pub text_after : List ℕ → Option (ℤ × List ℕ) → Option (Option (List ℕ))
text_after body none = some none
text_after body (some (len, rest)) = text_behind (length body - length rest) (len, rest)

unfoldable pub extract_chat_message : List ℕ → Option (Option (List ℕ))
unfolding decode_varint_at
extract_chat_message body =
    if ltb (length body) 2 then some none else text_after body (decode_varint_at body)

-- The same code again.
unfoldable pub extract_command : List ℕ → Option (Option (List ℕ))
unfolding decode_varint_at
extract_command body =
    if ltb (length body) 2 then some none else text_after body (decode_varint_at body)
