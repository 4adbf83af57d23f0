-- ===== src/Nbt/Varint/RoundTrip.antt =====
-- Reading back what the writers of crates/nbt/src/varint.rs wrote, and reading malformed input.
use rust_mine.Base.{
  ℕ, zero, suc, ◌+◌, ◌*◌, ◌/◌, ◌%◌, ◌^◌, ◌≤◌, ◌<◌, bit_and, bit_or, ◌≡◌, refl, ap, ◌∙◌, List, [],
  ◌∷◌, ◌++◌, append-nil, length, All, arith, leb-false, eq_true, eq_false, dec_lt,
}
use rust_mine.Base.Bits.{bit_and-mask, bit_or_fields, byte_top}
use rust_mine.Base.Order.{lt_wf}
use rust_mine.Base.Int.{ℤ, IsI32, IsI64}
use rust_mine.Base.Result.{ok, err}
use rust_mine.Nbt.Varint.{
  unexpected_eof, var_int_too_long, read_loop, write_loop, read_var_u32, read_var_u64,
  write_var_u32, write_var_u64, read_var_i32, read_var_i64, write_var_i32, write_var_i64,
  rest_shrinks,
}
use rust_mine.Nbt.Varint.Bounds.{pow_seven, low_group, more_group}
use rust_mine.Nbt.Varint.Zigzag.{
  zigzag, encode_i32-zigzag, encode_i64-zigzag, decode_i32-zigzag, decode_i64-zigzag, zigzag32-lt,
  zigzag64-lt,
}
use mathlib.Core.Logic.{dif_pos}
use native.Mathlib.Bridge.{le_prop}
use mathlib.Core.WellFounded.{Acc}
use native.Mathlib.Nat.{mod-eq_of_lt, pow-suc}

-- One round of `read_loop`, on a byte that ends the number and on one that does not.
read_last :
    (width limit acc shift g : ℕ) (rest : List ℕ)
    → shift < limit
    → g < 128
    → acc < 2 ^ shift
    → acc + g * 2 ^ shift < 2 ^ width
    → read_loop width limit (g ∷ rest) acc shift ≡ (ok (acc + g * 2 ^ shift), rest)
unfolding read_loop
read_last width limit acc shift g rest room hg low fits = rw (
  leb-false limit shift room,
  eq_true (bit_and g 0x80) 0 (omega (arith, byte_top g)),
  bit_and-mask 7 g,
  mod-eq_of_lt {n = g} {m = 128} hg,
  mod-eq_of_lt {n = g * 2 ^ shift} {m = 2 ^ width} (omega arith),
  bit_or_fields shift acc g low,
)

read_more :
    (width limit acc shift g : ℕ) (rest : List ℕ)
    → shift < limit
    → g < 128
    → acc < 2 ^ shift
    → acc + g * 2 ^ shift < 2 ^ width
    → read_loop width limit ((g + 128) ∷ rest) acc shift
      ≡ read_loop width limit rest (acc + g * 2 ^ shift) (shift + 7)
unfolding read_loop
read_more width limit acc shift g rest room hg low fits = rw (
  leb-false limit shift room,
  eq_false (bit_and (g + 128) 0x80) 0 (omega (arith, byte_top (g + 128))),
  low_g,
  mod-eq_of_lt {n = g * 2 ^ shift} {m = 2 ^ width} (omega arith),
  bit_or_fields shift acc g low,
)
  where
    low_g : bit_and (g + 128) 0x7f ≡ g
    low_g = omega (arith, bit_and-mask 7 (g + 128))

-- The value split at its lowest seven bits, both parts moved up by `s`.
split_seven : (v s : ℕ) → v * 2 ^ s ≡ v % 128 * 2 ^ s + v / 128 * 2 ^ (s + 7)
split_seven v s =
    let parts : (v / 128 * 128 + v % 128) * 2 ^ s ≡ v * 2 ^ s =
      ap (λ (t : ℕ). t * 2 ^ s) (omega arith) in
    omega (arith, parts, ap (λ (t : ℕ). v / 128 * t) (pow_seven s))

-- Seven more bits keep the accumulated value below the next shift.
fill_seven : (acc g s : ℕ) → acc < 2 ^ s → g < 128 → acc + g * 2 ^ s < 2 ^ (s + 7)
fill_seven acc g s low hg =
    let top : g * 2 ^ s ≤ 127 * 2 ^ s = grind arith in omega (arith, top, pow_seven s)

write_loop_end : (v : ℕ) (w : Acc ◌<◌ v) → v < 128 → write_loop v w ≡ v ∷ []
unfolding write_loop
write_loop_end v (Acc.intro _ smaller) h = ground (arith, low_group v)

-- A value below 128 is one byte.
pub write_var_u32_small : (v : ℕ) → v < 128 → write_var_u32 [] v ≡ v ∷ []
unfolding write_var_u32
write_var_u32_small v h = write_loop_end v (lt_wf.apply v) h

rest_pos : (v : ℕ) → 128 ≤ v → 0 < v / 2 ^ 7
rest_pos v h = omega arith

write_loop_more :
    (v : ℕ) (w : Acc ◌<◌ v)
    → 128 ≤ v
    → (w' : Acc ◌<◌ (v / 128)) × (write_loop v w ≡ (v % 128 + 128) ∷ write_loop (v / 128) w')
unfolding write_loop
write_loop_more v (Acc.intro _ smaller) h = (
  smaller (v / 2 ^ 7) (rest_shrinks v (rest_pos v h)),
  rw (dif_pos (dec_lt 0 (v / 2 ^ 7)) le_prop (rest_pos v h), more_group v),
)

read-write_loop :
    (width limit k v acc shift : ℕ) (w : Acc ◌<◌ v) (rest : List ℕ)
    → v < 128 ^ suc k
    → shift + 7 * k < limit
    → acc < 2 ^ shift
    → acc + v * 2 ^ shift < 2 ^ width
    → read_loop width limit (write_loop v w ++ rest) acc shift ≡ (ok (acc + v * 2 ^ shift), rest)
read-write_loop width limit zero v acc shift w rest hv room low fits =
    rw (write_loop_end v w (omega arith))
      (read_last width limit acc shift v rest (omega arith) (omega arith) low fits)
read-write_loop width limit (suc k) v acc shift w rest hv room low fits = elim (dec_lt v 128) [
  | yes small ↦
      rw (write_loop_end v w small)
        (read_last width limit acc shift v rest (omega arith) small low fits)
  | no large ↦
      let (w', e) = write_loop_more v w (omega arith) in
      let parts = split_seven v shift in
      let acc' : ℕ = acc + v % 128 * 2 ^ shift in
      rw e (
        read_more width limit acc shift (v % 128) (write_loop (v / 128) w' ++ rest) (omega arith)
          (omega arith) low (omega arith)
        ∙ read-write_loop width limit k (v / 128) acc' (shift + 7) w' rest
            (omega (arith, pow-suc 128 (suc k))) (omega arith)
            (fill_seven acc (v % 128) shift low (omega arith)) (omega arith)
        ∙ ap (λ (t : ℕ). (ok t, rest)) (omega arith))
]

-- read_var_u32 reads back the u32 that write_var_u32 wrote, and leaves what follows.
pub read-write_var_u32 :
    (v : ℕ) (rest : List ℕ) → v < 2 ^ 32 → read_var_u32 (write_var_u32 [] v ++ rest) ≡ (ok v, rest)
unfolding read_var_u32 write_var_u32
read-write_var_u32 v rest h =
    read-write_loop 32 35 4 v 0 0 (lt_wf.apply v) rest (omega arith) (omega arith) (omega arith)
      (omega arith)
    ∙ ap (λ (t : ℕ). (ok t, rest)) (omega arith)

-- read_var_u64 reads back the u64 that write_var_u64 wrote, and leaves what follows.
read-write_var_u64 :
    (v : ℕ) (rest : List ℕ) → v < 2 ^ 64 → read_var_u64 (write_var_u64 [] v ++ rest) ≡ (ok v, rest)
unfolding read_var_u64 write_var_u64
read-write_var_u64 v rest h =
    read-write_loop 64 70 9 v 0 0 (lt_wf.apply v) rest (omega arith) (omega arith) (omega arith)
      (omega arith)
    ∙ ap (λ (t : ℕ). (ok t, rest)) (omega arith)

-- read_var_i32 reads back the i32 that write_var_i32 wrote, and leaves what follows.
pub read-write_var_i32 :
    (v : ℤ) (rest : List ℕ) → IsI32 v → read_var_i32 (write_var_i32 [] v ++ rest) ≡ (ok v, rest)
unfolding read_var_i32 write_var_i32
read-write_var_i32 v rest h =
    rw (encode_i32-zigzag v h, read-write_var_u32 (zigzag v) rest (zigzag32-lt v h))
      (ap (λ (t : ℤ). (ok t, rest)) (decode_i32-zigzag v h))

-- read_var_i64 reads back the i64 that write_var_i64 wrote, and leaves what follows.
pub read-write_var_i64 :
    (v : ℤ) (rest : List ℕ) → IsI64 v → read_var_i64 (write_var_i64 [] v ++ rest) ≡ (ok v, rest)
unfolding read_var_i64 write_var_i64
read-write_var_i64 v rest h =
    rw (encode_i64-zigzag v h, read-write_var_u64 (zigzag v) rest (zigzag64-lt v h))
      (ap (λ (t : ℤ). (ok t, rest)) (decode_i64-zigzag v h))

-- Bytes that all announce another one.
abbrev pub IsMore : ℕ → Type 0
IsMore b = (128 ≤ b) × (b < 256)

read_loop-one_more :
    (width limit b acc shift : ℕ) (rest : List ℕ)
    → shift < limit
    → IsMore b
    → (acc' : ℕ) × (read_loop width limit (b ∷ rest) acc shift
        ≡ read_loop width limit rest acc' (shift + 7))
unfolding read_loop
read_loop-one_more width limit b acc shift rest room h = (
  bit_or acc (bit_and b 0x7f * 2 ^ shift % 2 ^ width),
  rw (leb-false limit shift room, eq_false (bit_and b 0x80) 0 (omega (arith, byte_top b))),
)

read_loop_more :
    (width limit k : ℕ) (bs rest : List ℕ) (acc shift : ℕ)
    → length bs ≡ k
    → shift + 7 * k ≤ limit
    → All IsMore bs
    → (acc' : ℕ) × (read_loop width limit (bs ++ rest) acc shift
        ≡ read_loop width limit rest acc' (shift + 7 * k))
read_loop_more width limit k [] rest acc shift n room h =
    (acc, ap (read_loop width limit rest acc) (omega arith))
read_loop_more width limit zero (b ∷ bs) rest acc shift n room h = absurd (omega arith)
read_loop_more width limit (suc k) (b ∷ bs) rest acc shift n room h =
    let (acc₁, first) = read_loop-one_more width limit b acc shift (bs ++ rest) (omega arith) h.0 in
    let (acc₂, others) =
      read_loop_more width limit k bs rest acc₁ (shift + 7) (omega arith) (omega arith) h.1 in
    (acc₂, first ∙ others ∙ ap (read_loop width limit rest acc₂) (omega arith))

-- A buffer of at most five bytes that all announce another one makes read_var_u32 refuse with
-- UnexpectedEof.
pub read_var_u32_cut :
    (bs : List ℕ) → All IsMore bs → length bs ≤ 5 → read_var_u32 bs ≡ (err unexpected_eof, [])
unfolding read_var_u32
read_var_u32_cut bs h n =
    rw (← append-nil bs) (
      (read_loop_more 32 35 (length bs) bs [] 0 0 refl (omega arith) h).1
      ∙ unfold read_loop in refl)

-- Five bytes that announce another one, and one more byte, make read_var_u32 refuse with
-- VarIntTooLong at the sixth byte.
read_var_u32_long :
    (bs : List ℕ) (b : ℕ) (rest : List ℕ)
    → All IsMore bs
    → length bs ≡ 5
    → read_var_u32 (bs ++ b ∷ rest) ≡ (err var_int_too_long, b ∷ rest)
unfolding read_var_u32
read_var_u32_long bs b rest h n =
    (read_loop_more 32 35 5 bs (b ∷ rest) 0 0 n (omega arith) h).1 ∙ unfold read_loop in refl
