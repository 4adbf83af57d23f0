-- ===== src/Protocol/Chunk/Packing.antt =====
-- Blocks in the words of a subchunk: how chunk.rs packs them and decode.rs takes them out again.
use rust_mine.Base.{
  ℕ, zero, suc, ◌+◌, ◌-◌, ◌*◌, ◌/◌, ◌%◌, ◌^◌, ◌≤◌, ◌<◌, bit_and, bit_or, ltb-true, ltb-false,
  leb-true, leb-false, ◌≡◌, refl, sym, ap, ◌∙◌, List, [], ◌∷◌, ◌++◌, length, take, drop,
  length-append, length-take, length-drop, take-append-drop, All, append_assoc, append-nil, dec_lt,
  arith,
}
use mathlib.Core.Path.{subst}
use rust_mine.Base.Bits.{bit_and-mask, bit_or_fields}
use rust_mine.Base.Bytes.{to_le_bytes, from-to_le_bytes}
use rust_mine.Base.Result.{ok}
use rust_mine.Protocol.Chunk.{pack_blocks}
use rust_mine.Protocol.Chunk.Decode.{unpack_word, read_words}
use native.Mathlib.Nat.{
  pow-suc, one-le-pow, add-mul-mod_self_right, mul-le-mul_right, mod-eq_of_lt, div-div-eq-div-mul,
  add-mul-div_right, div-eq_of_lt,
}

pub two_pow-add : (r b : ℕ) → 2 ^ (r + b) ≡ 2 ^ r * 2 ^ b
two_pow-add r zero = let e : r + 0 ≡ r = omega arith in omega (arith, ap (λ (t : ℕ). 2 ^ t) e)
two_pow-add r (suc b) = omega (
  arith,
  pow-suc 2 (r + b),
  ap (λ (t : ℕ). 2 ^ t) (r-suc),
  two_pow-add r b,
  ap (λ (t : ℕ). 2 ^ r * t) (pow-suc 2 b),
)
  where
    r-suc : r + suc b ≡ suc (r + b)
    r-suc = omega arith

-- The number that a group of indices makes, the first one lowest.
abbrev pub fields : ℕ → List ℕ → ℕ
fields bits [] = 0
fields bits (x ∷ xs) = x + fields bits xs * 2 ^ bits

abbrev pub AllFit : ℕ → List ℕ → Type 0
AllFit bits = All (λ x. x < 2 ^ bits)

-- One field more on top of `word`.
fill_field :
    (bits used word x : ℕ)
    → word < 2 ^ used
    → x < 2 ^ bits
    → word + x * 2 ^ used < 2 ^ (used + bits)
fill_field bits used word x low hx =
    omega (arith, two_pow-add used bits, mul-le-mul_right {m = suc x} {n = 2 ^ bits} (2 ^ used) hx)

fields_shift :
    (bits used word x f : ℕ)
    → word + (x + f * 2 ^ bits) * 2 ^ used ≡ word + x * 2 ^ used + f * 2 ^ (used + bits)
fields_shift bits used word x f = omega (arith, ap (λ (t : ℕ). f * t) (two_pow-add used bits))

width_step : (bits used n : ℕ) → used + bits * suc n ≡ used + bits + bits * n
width_step bits used n = omega arith

fields-lt :
    (bits used word : ℕ) (g : List ℕ)
    → word < 2 ^ used
    → AllFit bits g
    → word + fields bits g * 2 ^ used < 2 ^ (used + bits * length g)
fields-lt bits used word [] low fit =
    let e : used + bits * 0 ≡ used = omega arith in omega (arith, ap (λ (t : ℕ). 2 ^ t) e)
fields-lt bits used word (x ∷ g) low fit = omega (
  arith,
  fields_shift bits used word x (fields bits g),
  ap (λ (t : ℕ). 2 ^ t) (width_step bits used (length g)),
  fields-lt bits (used + bits) (word + x * 2 ^ used) g (fill_field bits used word x low fit.0)
      fit.1,
)

-- One block more in the word, as the loop puts it there.
pack_field :
    (bits used word x : ℕ)
    → word < 2 ^ used
    → x * 2 ^ used < 2 ^ 32
    → bit_or word (x * 2 ^ used % 2 ^ 32) ≡ word + x * 2 ^ used
pack_field bits used word x low top =
    rw (mod-eq_of_lt {n = x * 2 ^ used} {m = 2 ^ 32} top) (bit_or_fields used word x low)

-- A group of blocks that fills the word goes out as that word.
pack_group :
    (bits used word x : ℕ) (g rest : List ℕ)
    → 0 < bits
    → used + bits * suc (length g) ≡ 32
    → word < 2 ^ used
    → AllFit bits (x ∷ g)
    → pack_blocks bits ((x ∷ g) ++ rest) word used
      ≡ to_le_bytes 4 (word + fields bits (x ∷ g) * 2 ^ used) ++ pack_blocks bits rest 0 0
unfolding pack_blocks
pack_group bits used word x [] rest some_bits full low fit =
    let below : word + fields bits (x ∷ []) * 2 ^ used < 2 ^ 32 =
      omega (arith, fields-lt bits used word (x ∷ []) low fit, ap (λ (t : ℕ). 2 ^ t) full) in
    rw (pack_field bits used word x low (omega arith), leb-true 32 (used + bits) (omega arith))
      (ap (λ (t : ℕ). to_le_bytes 4 t ++ pack_blocks bits rest 0 0) (omega arith))
pack_group bits used word x (y ∷ g) rest some_bits full low fit =
    let below : word + fields bits (x ∷ y ∷ g) * 2 ^ used < 2 ^ 32 =
      omega (arith, fields-lt bits used word (x ∷ y ∷ g) low fit, ap (λ (t : ℕ). 2 ^ t) full) in
    let shifted = fields_shift bits used word x (fields bits (y ∷ g)) in
    rw
      (
        pack_field bits used word x low (omega (arith, shifted)),
        leb-false 32 (used + bits) (omega (arith, full)),
      )
      (pack_group bits (used + bits) (word + x * 2 ^ used) y g rest some_bits
          (omega (arith, width_step bits used (suc (length g))))
          (fill_field bits used word x low fit.0) fit.1
        ∙ ap (λ (t : ℕ). to_le_bytes 4 t ++ pack_blocks bits rest 0 0) (sym shifted))

-- The next block of a word, and what is left above it.
field_low : (bits x f : ℕ) → x < 2 ^ bits → (x + f * 2 ^ bits) % 2 ^ bits ≡ x
field_low bits x f h = add-mul-mod_self_right x f (2 ^ bits) ∙ mod-eq_of_lt {n = x} {m = 2 ^ bits} h

field_high : (bits x f : ℕ) → x < 2 ^ bits → (x + f * 2 ^ bits) / 2 ^ bits ≡ f
field_high bits x f h =
    add-mul-div_right x f (one-le-pow bits 2 (omega arith))
    ∙ omega (arith, div-eq_of_lt {n = x} {m = 2 ^ bits} h)

-- A mask of fewer than 32 bits is not shifted too far.
shift_in_range : (bits read m : ℕ) → 2 ^ bits ≤ 2 ^ 16 → read + bits * suc m ≡ 32 → bits % 32 ≡ bits
shift_in_range bits read m narrow full = mod-eq_of_lt {n = bits} {m = 32} (elim (dec_lt bits 32) [
  | yes below ↦ below
  | no above ↦
      let whole : bits ≡ 32 = omega (arith, full, width_step bits read m) in
      absurd (omega (arith, subst (λ (b : ℕ). 2 ^ b ≤ 2 ^ 16) whole narrow))
])

-- What is taken out of a word is the group that it holds from the bit `read` on.
unpack_group :
    (rounds bits word read : ℕ) (blocks g : List ℕ)
    → length g ≤ rounds
    → 0 < bits
    → 2 ^ bits ≤ 2 ^ 16
    → read + bits * length g ≡ 32
    → word / 2 ^ read ≡ fields bits g
    → AllFit bits g
    → length blocks + length g ≤ 4096
    → unpack_word rounds bits word read blocks ≡ blocks ++ g
unfolding unpack_word
unpack_group zero bits word read blocks [] room some_bits narrow full h fit short =
    sym (append-nil blocks)
unpack_group zero bits word read blocks (x ∷ g) room some_bits narrow full h fit short =
    absurd (omega arith)
unpack_group (suc rounds) bits word read blocks [] room some_bits narrow full h fit short =
    rw (ltb-false read 32 (omega arith)) (sym (append-nil blocks))
unpack_group (suc rounds) bits word read blocks (x ∷ g) room some_bits narrow full h fit short =
    let next : bit_and (word / 2 ^ read) (2 ^ bits - 1) ≡ x =
      bit_and-mask bits (word / 2 ^ read)
      ∙ ap (λ (t : ℕ). t % 2 ^ bits) h
      ∙ field_low bits x (fields bits g) fit.0 in
    let above : word / 2 ^ (read + bits) ≡ fields bits g =
      ap (λ (t : ℕ). word / t) (two_pow-add read bits)
      ∙ sym (div-div-eq-div-mul word (2 ^ read) (2 ^ bits))
      ∙ ap (λ (t : ℕ). t / 2 ^ bits) h
      ∙ field_high bits x (fields bits g) fit.0 in
    rw
      (
        ltb-true read 32 (omega (arith, width_step bits read (length g))),
        ltb-true (length blocks) 4096 (omega arith),
        shift_in_range bits read (length g) narrow full,
        next,
        mod-eq_of_lt {n = x} {m = 2 ^ 16} (omega arith),
      )
      (unpack_group rounds bits word (read + bits) (blocks ++ x ∷ []) g (omega arith) some_bits
          narrow (omega (arith, width_step bits read (length g))) above fit.1
          (omega (arith, length-append blocks (x ∷ [])))
        ∙ append_assoc blocks (x ∷ []) g)

All-split {ℓ κ} :
    {A : Type ℓ} (P : A → Type κ) (n : ℕ) (xs : List A)
    → All P xs
    → All P (take n xs) × All P (drop n xs)
All-split P zero xs h = (tt, h)
All-split P (suc n) [] h = (tt, tt)
All-split P (suc n) (x ∷ xs) h = let rest = All-split P n xs h.1 in ((h.0, rest.0), rest.1)

module _ (bits m : ℕ) (full : bits * suc m ≡ 32) (some_bits : 0 < bits) (room : m < 32)
    (narrow : 2 ^ bits ≤ 2 ^ 16) where
  -- The decoder reads the word of a group, and the group is the blocks that it pushes.
  read_word :
      (words x : ℕ) (g bs rest blocks : List ℕ)
      → length g ≡ m
      → AllFit bits (x ∷ g)
      → length blocks + suc m ≤ 4096
      → read_words (suc words) bits (pack_blocks bits ((x ∷ g) ++ bs) 0 0 ++ rest) blocks
        ≡ read_words words bits (pack_blocks bits bs 0 0 ++ rest) (blocks ++ x ∷ g)
  unfolding read_words
  read_word words x g bs rest blocks n fit short =
      let wide : 0 + bits * suc (length g) ≡ 32 =
        omega (arith, full, ap (λ (t : ℕ). bits * suc t) n) in
      let whole : 0 + bits * length (x ∷ g) ≡ 32 = wide in
      let w : ℕ = 0 + fields bits (x ∷ g) * 2 ^ 0 in
      let below : w < 2 ^ 32 =
        omega (arith, fields-lt bits 0 0 (x ∷ g) (omega arith) fit, ap (λ (t : ℕ). 2 ^ t) whole) in
      rw
        (
          pack_group bits 0 0 x g bs some_bits wide (omega arith) fit,
          from-to_le_bytes 4 w below,
          unpack_group 32 bits w 0 blocks (x ∷ g) (omega arith) some_bits narrow whole (omega arith)
              fit (omega arith),
          ltb-false (length (to_le_bytes 4 w ++ pack_blocks bits bs 0 0 ++ rest)) 4 (omega arith),
        )
        refl

  -- The blocks that fill `words` words are read back from them, and what follows is left.
  pub read-pack_blocks :
      (words : ℕ) (bs rest blocks : List ℕ)
      → length bs ≡ words * suc m
      → AllFit bits bs
      → length blocks + length bs ≤ 4096
      → read_words words bits (pack_blocks bits bs 0 0 ++ rest) blocks ≡ ok (blocks ++ bs, rest)
  read-pack_blocks zero [] rest blocks n fit short =
      unfold read_words pack_blocks in ap (λ t. ok (t, rest)) (sym (append-nil blocks))
  read-pack_blocks zero (b ∷ bs) rest blocks n fit short = absurd (omega arith)
  read-pack_blocks (suc words) [] rest blocks n fit short = absurd (omega arith)
  read-pack_blocks (suc words) (b ∷ bs) rest blocks n fit short =
      let parts = All-split (λ (x : ℕ). x < 2 ^ bits) m bs fit.1 in
      let joined = take-append-drop m bs in
      let g_size : length (take m bs) ≡ m = omega (arith, length-take m bs) in
      let size : length (drop m bs) ≡ words * suc m = omega (arith, length-drop m bs) in
      ap (λ (t : List ℕ). read_words (suc words) bits (pack_blocks bits (b ∷ t) 0 0 ++ rest) blocks)
        (sym joined)
      ∙ read_word words b (take m bs) (drop m bs) rest blocks g_size (fit.0, parts.0) (omega arith)
      ∙ read-pack_blocks words (drop m bs) rest (blocks ++ b ∷ take m bs) size parts.1
          (omega (arith, length-append blocks (b ∷ take m bs)))
      ∙ ap (λ t. ok (t, rest))
          (append_assoc blocks (b ∷ take m bs) (drop m bs) ∙ ap (λ t. blocks ++ b ∷ t) joined)
