-- ===== src/Raknet/Server/Outbound/Pieces.antt =====
-- The pieces of `split_payload`: how many there are, and that they are the payload.
use rust_mine.Base.{
  ℕ, zero, suc, ◌+◌, ◌-◌, ◌/◌, ◌≤◌, ◌<◌, ◌≡◌, refl, sym, ap, ◌∙◌, List, [], ◌∷◌, ◌++◌, length, take,
  drop, take-append-drop, length-drop, length-take, chunks, chunk_rounds, arith, All, dec_lt,
}
use mathlib.Core.List.{flatten}
use native.Mathlib.Nat.{add-div_right, div-eq_of_lt, div-le_self}

flatten-chunk_rounds :
    (n k : ℕ) (xs : List ℕ) → 0 < k → length xs ≤ n → flatten (chunk_rounds n k xs) ≡ xs
unfolding flatten
flatten-chunk_rounds zero k [] pos room = refl
flatten-chunk_rounds zero k (x ∷ xs) pos room = absurd (omega arith)
flatten-chunk_rounds (suc n) k [] pos room = refl
flatten-chunk_rounds (suc n) k (x ∷ xs) pos room =
    ap (◌++◌ (take k (x ∷ xs)))
      (flatten-chunk_rounds n k (drop k (x ∷ xs)) pos (omega (arith, length-drop k (x ∷ xs))))
    ∙ take-append-drop k (x ∷ xs)

-- The chunks of a list, put one behind the other, are the list.
pub flatten-chunks : (k : ℕ) (xs : List ℕ) → 0 < k → flatten (chunks k xs) ≡ xs
flatten-chunks k xs pos = flatten-chunk_rounds (length xs) k xs pos (omega arith)

-- A division by `k` that rounds up counts one more for `k` more.
ceil_more : (k m : ℕ) → 0 < k → k ≤ m → (m - k + k - 1) / k + 1 ≡ (m + k - 1) / k
ceil_more k m pos h =
    ap (λ (n : ℕ). n / k + 1) {x = m - k + k - 1} {y = m - 1} (omega arith)
    ∙ sym (add-div_right (m - 1) pos)
    ∙ ap (λ (n : ℕ). n / k) {x = m - 1 + k} {y = m + k - 1} (omega arith)

ceil_zero : (k : ℕ) → 0 < k → (0 + k - 1) / k ≡ 0
ceil_zero k pos = div-eq_of_lt {n = 0 + k - 1} {m = k} (omega arith)

ceil_pos : (k m : ℕ) → 0 < k → 0 < m → (m + k - 1) / k ≡ (m - 1) / k + 1
ceil_pos k m pos h =
    ap (λ (n : ℕ). n / k) {x = m + k - 1} {y = m - 1 + k} (omega arith) ∙ add-div_right (m - 1) pos

ceil_less : (k m : ℕ) → 0 < m → m ≤ k → (m + k - 1) / k ≡ 1
ceil_less k m pos h =
    ceil_pos k m (omega arith) pos
    ∙ ap (λ (n : ℕ). n + 1) (div-eq_of_lt {n = m - 1} {m = k} (omega arith))

length-chunk_rounds :
    (n k : ℕ) (xs : List ℕ)
    → 0 < k
    → length xs ≤ n
    → length (chunk_rounds n k xs) ≡ (length xs + k - 1) / k
length-chunk_rounds zero k [] pos room = sym (ceil_zero k pos)
length-chunk_rounds zero k (x ∷ xs) pos room = absurd (omega arith)
length-chunk_rounds (suc n) k [] pos room = sym (ceil_zero k pos)
length-chunk_rounds (suc n) k (x ∷ xs) pos room =
    let others =
      length-chunk_rounds n k (drop k (x ∷ xs)) pos (omega (arith, length-drop k (x ∷ xs))) in
    elim (dec_lt k (suc (length xs))) [
      | yes more ↦
          ap suc (others ∙ ap (λ (l : ℕ). (l + k - 1) / k) (length-drop k (x ∷ xs)))
          ∙ omega (arith, ceil_more k (suc (length xs)) pos (omega arith))
      | no last ↦
          let gone : length (drop k (x ∷ xs)) ≡ 0 = omega (arith, length-drop k (x ∷ xs)) in
          ap suc (others ∙ ap (λ (l : ℕ). (l + k - 1) / k) gone)
          ∙ omega
              (arith, ceil_zero k pos, ceil_less k (suc (length xs)) (omega arith) (omega arith))
    ]

-- There are as many chunks as a division of the length that rounds up says.
pub length-chunks : (k : ℕ) (xs : List ℕ) → 0 < k → length (chunks k xs) ≡ (length xs + k - 1) / k
length-chunks k xs pos = length-chunk_rounds (length xs) k xs pos (omega arith)

length-chunk_rounds_le :
    (n k : ℕ) (xs : List ℕ) → All (λ piece. length piece ≤ k) (chunk_rounds n k xs)
length-chunk_rounds_le zero k xs = tt
length-chunk_rounds_le (suc n) k [] = tt
length-chunk_rounds_le (suc n) k (x ∷ xs) =
    (omega (arith, length-take k (x ∷ xs)), length-chunk_rounds_le n k (drop k (x ∷ xs)))

-- No chunk is longer than the given size.
pub length-chunks_le : (k : ℕ) (xs : List ℕ) → All (λ piece. length piece ≤ k) (chunks k xs)
length-chunks_le k xs = length-chunk_rounds_le (length xs) k xs

-- A list that is not empty has a chunk at least, and no more of them than it is long.
pub length-chunks_bounds :
    (k : ℕ) (xs : List ℕ)
    → 0 < k
    → 0 < length xs
    → (0 < length (chunks k xs)) × (length (chunks k xs) ≤ length xs)
length-chunks_bounds k xs pos h = (
  omega (arith, length-chunks k xs pos, ceil_pos k (length xs) pos h),
  omega
      (arith, length-chunks k xs pos, ceil_pos k (length xs) pos h, div-le_self (length xs - 1) k),
)
