-- ===== src/World/Columns.antt =====
-- `Chunk` of crates/world/src/lib.rs: sixteen subchunks, one above the other.
use rust_mine.Base.{
  ℕ, zero, suc, ◌/◌, ◌%◌, ◌^◌, ◌<◌, ◌==◌, ==_iff, eq_false, ◌&&◌, if◌then◌else◌, false, ◌≡◌, refl,
  sym, ap, ◌∙◌, List, [], ◌∷◌, length, length-set, get_elem?, set, All, All-set, length-replicate,
  All-replicate, some, arith, Bool-cases, inl, inr,
}
use mathlib.Core.Path.{subst}
use mathlib.Core.Option.{some-injective}
use rust_mine.Base.Int.{ℤ}
use rust_mine.World.{
  SubChunk, BlockState, Chunk, chunk_set_block, chunk_get_block, set_local, get_local, new_chunk,
  new_subchunk,
}
use rust_mine.World.Blocks.{IsSubChunk, named, set_local-IsSubChunk, get_local-set_local}

pub get_elem?-some {ℓ} :
    {A : Type ℓ} (xs : List A) (i : ℕ) → i < length xs → (a : A) × (get_elem? xs i ≡ some a)
get_elem?-some [] i h = absurd (omega arith)
get_elem?-some (x ∷ xs) zero h = (x, refl)
get_elem?-some (x ∷ xs) (suc i) h = get_elem?-some xs i (omega arith)

pub get_elem?-set {ℓ} :
    {A : Type ℓ} (xs : List A) (i j : ℕ) (v : A)
    → i < length xs
    → get_elem? (set xs i v) j ≡ (if i == j then some v else get_elem? xs j)
get_elem?-set [] i j v h = absurd (omega arith)
get_elem?-set (x ∷ xs) zero zero v h = refl
get_elem?-set (x ∷ xs) zero (suc j) v h = rw (eq_false 0 (suc j) (omega arith)) refl
get_elem?-set (x ∷ xs) (suc i) zero v h = rw (eq_false (suc i) 0 (omega arith)) refl
get_elem?-set (x ∷ xs) (suc i) (suc j) v h = get_elem?-set xs i j v (omega arith) ∙ ground arith

pub All-get_elem? {ℓ κ} :
    {A : Type ℓ} (P : A → Type κ) (xs : List A) (i : ℕ) (a : A)
    → All P xs
    → get_elem? xs i ≡ some a
    → P a
All-get_elem? P [] i a h e = absurd (cc)
All-get_elem? P (x ∷ xs) zero a h e = subst P (some-injective x a e) h.0
All-get_elem? P (x ∷ xs) (suc i) a h e = All-get_elem? P xs i a h.1 e

-- A subchunk with room for one more entry in its palette.
abbrev pub HasRoom : SubChunk → Type 0
HasRoom s = length s.palette < 2 ^ 16

pub record IsChunk (c : Chunk) : Type 0 where
  pub stacked : length c.subchunks ≡ 16
  pub sound : All IsSubChunk c.subchunks

pub get-at :
    (c : Chunk) (s : SubChunk) (mx my mz : ℕ)
    → get_elem? c.subchunks (my / 16) ≡ some s
    → chunk_get_block c mx my mz ≡ get_local s mx (my % 16) mz
unfolding chunk_get_block
get-at c s mx my mz e = rw (chunk_get_block, e) refl

-- Coordinates in a chunk.
abbrev pub IsColumn : ℕ → ℕ → ℕ → Type 0
IsColumn lx ly lz = (lx < 16) × (ly < 256) × (lz < 16)

module _ (c : Chunk) (state : BlockState) (sound : IsChunk c) (lx ly lz : ℕ)
    (p : IsColumn lx ly lz) where
  pub here : (s : SubChunk) × (get_elem? c.subchunks (ly / 16) ≡ some s)
  here = get_elem?-some c.subchunks (ly / 16) (omega (arith, sound.stacked))

  pub set-eq :
      chunk_set_block c lx ly lz state
      ≡ record c { subchunks = set c.subchunks (ly / 16) (set_local here.0 lx (ly % 16) lz state) }
  unfolding chunk_set_block
  set-eq = rw (chunk_set_block, here.1) refl

  sound-here : IsSubChunk here.0
  sound-here = All-get_elem? IsSubChunk c.subchunks (ly / 16) here.0 sound.sound here.1

  -- A block that is set in a sound chunk with room leaves a sound chunk.
  pub chunk_set_block-IsChunk : All HasRoom c.subchunks → IsChunk (chunk_set_block c lx ly lz state)
  chunk_set_block-IsChunk room = rw set-eq (record {
    stacked = length-set c.subchunks (ly / 16) _ ∙ sound.stacked;
    sound =
        All-set IsSubChunk c.subchunks (ly / 16) (set_local here.0 lx (ly % 16) lz state)
          sound.sound
          (set_local-IsSubChunk here.0 state sound-here
            (All-get_elem? HasRoom c.subchunks (ly / 16) here.0 room here.1) lx (ly % 16) lz).0;
  })

  -- In a sound chunk with room, for coordinates within it, the block that was set is read at its
  -- place and every other place reads as before.
  pub chunk_get_block-set :
      (mx my mz : ℕ)
      → All HasRoom c.subchunks
      → IsColumn mx my mz
      → chunk_get_block (chunk_set_block c lx ly lz state) mx my mz
        ≡ (if lx == mx && ly == my && lz == mz then named state else chunk_get_block c mx my mz)
  chunk_get_block-set mx my mz room q =
      let s' = set_local here.0 lx (ly % 16) lz state in
      let c' : Chunk = record c { subchunks = set c.subchunks (ly / 16) s' } in
      let stored =
        get_elem?-set c.subchunks (ly / 16) (my / 16) s' (omega (arith, sound.stacked)) in
      let room' = All-get_elem? HasRoom c.subchunks (ly / 16) here.0 room here.1 in
      rw set-eq (elim (Bool-cases (ly / 16 == my / 16)) [
        | inl e ↦
            let level : ly / 16 ≡ my / 16 = (==_iff (ly / 16) (my / 16)).0 e in
            get-at c' s' mx my mz (stored ∙ rw e refl)
            ∙ get_local-set_local here.0 state sound-here room' lx (ly % 16) lz mx (my % 16) mz
                (p.0, omega arith, p.2) (q.0, omega arith, q.2)
            ∙ ap (λ b. if b then named state else get_local here.0 mx (my % 16) mz)
                (same_level level)
            ∙ ap (λ t. if lx == mx && ly == my && lz == mz then named state else t)
                (sym (get-at c here.0 mx my mz (ap (get_elem? c.subchunks) (sym level) ∙ here.1)))
        | inr e ↦
            let (t, found) = get_elem?-some c.subchunks (my / 16) (omega (arith, sound.stacked)) in
            get-at c' t mx my mz (stored ∙ rw e found)
            ∙ sym (get-at c t mx my mz found)
            ∙ rw (other_level e) refl
      ])
    where
      same_level :
          ly / 16 ≡ my / 16
          → (lx == mx && ly % 16 == my % 16 && lz == mz) ≡ (lx == mx && ly == my && lz == mz)
      same_level level = ground arith

      other_level : (ly / 16 == my / 16) ≡ false → (lx == mx && ly == my && lz == mz) ≡ false
      other_level e = ground arith

-- A new chunk is sound and has room everywhere.
pub new_chunk-IsChunk : (x z : ℤ) → IsChunk (new_chunk x z) × All HasRoom (new_chunk x z).subchunks
new_chunk-IsChunk x z = (
  record {
    stacked = length-replicate 16 new_subchunk;
    sound = All-replicate IsSubChunk 16 new_subchunk (record {
      sized = length-replicate {A = ℕ} 4096 0;
      inside = All-replicate (λ i. i < 1) 4096 0 (omega arith);
    });
  },
  All-replicate HasRoom 16 new_subchunk (omega arith),
)
