-- ===== src/Protocol/Chunk/Height.antt =====
-- How many subchunks crates/protocol/src/chunk.rs sends of a column.
use rust_mine.Base.{
  ℕ, suc, ◌-◌, ◌≤◌, ◌<◌, ltb-true, ltb-false, true, false, Bool-cases, ◌≡◌, refl, ap, ◌∙◌, inl, inr,
  List, [], ◌∷◌, length, drop, All, All-map, get_elem?, some, dec_lt, arith,
}
use rust_mine.Protocol.Chunk.{
  SubChunk, all_zero, is_subchunk_empty, highest, calculate_needed_height,
}

-- Every block of a subchunk has index 0 of its palette.
abbrev pub IsBlank : SubChunk → Type 0
IsBlank s = All (λ (b : ℕ). b ≡ 0) s.blocks

all_zero-true : (bs : List ℕ) → all_zero bs ≡ true → All (λ (b : ℕ). b ≡ 0) bs
unfolding all_zero
all_zero-true [] e = tt
all_zero-true (b ∷ bs) e = (ground (arith, e), all_zero-true bs (ground (arith, e)))

all_zero-false : (bs : List ℕ) → all_zero bs ≡ false → ¬ (All (λ (b : ℕ). b ≡ 0) bs)
unfolding all_zero
all_zero-false [] e h = absurd (cc)
all_zero-false (b ∷ bs) e h = all_zero-false bs (ground (arith, e, h.0)) h.1

abbrev IsEmpty : SubChunk → Type 0
IsEmpty s = is_subchunk_empty s ≡ true

-- From `h` on there are empty subchunks only, and the one below `h`, if any, is not empty.
record IsTop (ss : List SubChunk) (h : ℕ) : Type 0 where
  inside : h ≤ length ss
  clear : All IsEmpty (drop h ss)
  top : (0 < h) → (s : SubChunk) × (get_elem? ss (h - 1) ≡ some s) × (is_subchunk_empty s ≡ false)

highest-IsTop : (ss : List SubChunk) → IsTop ss (highest ss)
unfolding highest
highest-IsTop [] = record { inside = omega arith; clear = tt; top = λ h. absurd (omega arith) }
highest-IsTop (s ∷ ss) =
    let above = highest-IsTop ss in
    elim (dec_lt 0 (highest ss)) [
      | yes some_above ↦
          let step : suc (highest ss) - 1 ≡ suc (highest ss - 1) = omega arith in
          let (t, at, full) = above.top some_above in
          rw (ltb-true 0 (highest ss) some_above) (record {
            inside = omega (arith, above.inside);
            clear = above.clear;
            top = λ _. (t, ap (get_elem? (s ∷ ss)) step ∙ at, full);
          })
      | no none_above ↦
          let zero_above : highest ss ≡ 0 = omega arith in
          let clear : All IsEmpty ss = rw zero_above at above.clear in
          rw (ltb-false 0 (highest ss) (omega arith)) (elim (Bool-cases (is_subchunk_empty s)) [
            | inl empty ↦ rw empty (record {
              inside = omega arith;
              clear = (empty, clear);
              top = λ h. absurd (omega arith);
            })
            | inr full ↦
                rw full (record { inside = omega arith; clear = clear; top = λ _. (s, refl, full) })
          ])
    ]

drop_one : (ss : List SubChunk) → All IsEmpty ss → All IsEmpty (drop 1 ss)
drop_one [] h = tt
drop_one (s ∷ ss) h = h.1

needed_height_top :
    (ss : List SubChunk)
    → (1 ≤ calculate_needed_height ss)
      × All IsEmpty (drop (calculate_needed_height ss) ss)
      × (1 < calculate_needed_height ss
          → (s : SubChunk) × (get_elem? ss (calculate_needed_height ss - 1) ≡ some s)
            × (is_subchunk_empty s ≡ false))
unfolding calculate_needed_height
needed_height_top ss =
    let h = highest-IsTop ss in
    elim (dec_lt 0 (highest ss)) [
      | yes some_above ↦
          rw (ltb-true 0 (highest ss) some_above) (omega arith, h.clear, λ k. h.top some_above)
      | no none_above ↦
          let zero_above : highest ss ≡ 0 = omega arith in
          rw (ltb-false 0 (highest ss) (omega arith))
            (omega arith, drop_one ss (rw zero_above at h.clear), λ k. absurd (omega arith))
    ]

-- The number of subchunks to send is at least 1; in all subchunks from there on every block is
-- place 0 of the palette, and when it is more than 1 the last one that is sent has another.
pub calculate_needed_height_lem :
    (ss : List SubChunk)
    → (1 ≤ calculate_needed_height ss)
      × All IsBlank (drop (calculate_needed_height ss) ss)
      × (1 < calculate_needed_height ss
          → (s : SubChunk) × (get_elem? ss (calculate_needed_height ss - 1) ≡ some s)
            × ¬ (IsBlank s))
calculate_needed_height_lem ss =
    let (low, clear, top) = needed_height_top ss in
    (
      low,
      All-map (λ s e. all_zero-true s.blocks e) (drop (calculate_needed_height ss) ss) clear,
      λ k. let (s, at, full) = top k in (s, at, all_zero-false s.blocks full),
    )
