-- ===== src/World/Palettes.antt =====
-- How far the palette of a subchunk of crates/world/src/lib.rs grows when only named blocks are set.
use rust_mine.Base.{
  ℕ, zero, suc, ◌+◌, ◌/◌, ◌%◌, ◌≤◌, ◌<◌, ◌==◌, if◌then◌else◌, Bool, Bool-cases, ==_iff, ◌≡◌, ◌≢◌,
  refl, sym, ap, ◌∙◌, List, [], ◌∷◌, ◌++◌, length, length-append, All, All-map, All-set,
  All-replicate, Option, none, some, inl, inr, true, false, arith,
}
use rust_mine.Base.Int.{ℤ}
use rust_mine.World.{
  SubChunk, BlockState, Chunk, runtime_id, position, set_local, chunk_set_block, new_chunk,
  new_subchunk,
}
use rust_mine.World.Blocks.{named}
use rust_mine.World.Columns.{
  IsChunk, HasRoom, IsColumn, chunk_set_block-IsChunk, here, set-eq, All-get_elem?,
  new_chunk-IsChunk,
}

-- One of the sixteen blocks with a name, which are read back as themselves.
abbrev pub IsNamed : BlockState → Type 0
IsNamed state = (runtime_id state < 16) × (named state ≡ state)

abbrev absent : Option ℕ → ℕ
absent none = 1
absent (some i) = 0

-- How many of the ids below `n` are not in the palette.
abbrev missing : ℕ → List ℕ → ℕ
missing zero palette = 0
missing (suc n) palette = absent (position palette n) + missing n palette

absent-position :
    (x : ℕ) (xs : List ℕ) (k : ℕ)
    → absent (position (x ∷ xs) k) ≡ (if x == k then 0 else absent (position xs k))
absent-position x xs k = by_test (x == k) (position xs k)
  where
    by_test :
        (b : Bool) (o : Option ℕ)
        → absent (if b then some 0 else elim o [ none ↦ none | some i ↦ some (suc i) ])
          ≡ (if b then 0 else absent o)
    by_test true o = refl
    by_test false none = refl
    by_test false (some i) = refl

position-snoc :
    (xs : List ℕ) (id k : ℕ)
    → absent (position (xs ++ id ∷ []) k) ≡ (if id == k then 0 else absent (position xs k))
position-snoc [] id k = absent-position id [] k
position-snoc (x ∷ xs) id k =
    ground
      (arith, absent-position x (xs ++ id ∷ []) k, absent-position x xs k, position-snoc xs id k)

missing-snoc_le : (n : ℕ) (xs : List ℕ) (id : ℕ) → missing n (xs ++ id ∷ []) ≤ missing n xs
missing-snoc_le zero xs id = omega arith
missing-snoc_le (suc n) xs id = ground (arith, position-snoc xs id n, missing-snoc_le n xs id)

-- A new id below `n` is missing no more.
missing-snoc :
    (n : ℕ) (xs : List ℕ) (id : ℕ)
    → id < n
    → position xs id ≡ none
    → missing n (xs ++ id ∷ []) + 1 ≤ missing n xs
missing-snoc zero xs id h e = absurd (omega arith)
missing-snoc (suc n) xs id h e = elim (Bool-cases (id == n)) [
  | inl same ↦
      let at : id ≡ n = (==_iff id n).0 same in
      let gone : absent (position (xs ++ id ∷ []) n) ≡ 0 = position-snoc xs id n ∙ rw same refl in
      let there : absent (position xs n) ≡ 1 = ap absent (ap (position xs) (sym at) ∙ e) in
      omega (arith, gone, there, missing-snoc_le n xs id)
  | inr other ↦
      let kept : absent (position (xs ++ id ∷ []) n) ≡ absent (position xs n) =
        position-snoc xs id n ∙ rw other refl in
      let apart : id ≢ n = λ e'. absurd (let same = (==_iff id n).1 e' in cc) in
      omega (arith, kept, missing-snoc n xs id (omega (arith, apart)) e)
]

-- There is room for every named block that is not in the palette yet.
abbrev pub HasSpare : SubChunk → Type 0
HasSpare s = length s.palette + missing 16 s.palette ≤ 16

HasSpare-HasRoom : (s : SubChunk) → HasSpare s → HasRoom s
HasSpare-HasRoom s h = omega (arith, h)

set_local-HasSpare :
    (s : SubChunk) (state : BlockState) (lx ly lz : ℕ)
    → IsNamed state
    → HasSpare s
    → HasSpare (set_local s lx ly lz state)
unfolding set_local
set_local-HasSpare s state lx ly lz (low, same) h =
    by_place (position s.palette (runtime_id state)) refl
  where
    by_place :
        (o : Option ℕ)
        → position s.palette (runtime_id state) ≡ o
        → let placed : List ℕ × ℕ = elim o [
          | some i ↦ (s.palette, i)
          | none ↦ (s.palette ++ runtime_id state ∷ [], length s.palette)
        ] in
          length placed.0 + missing 16 placed.0 ≤ 16
    by_place none e = omega (
      arith,
      h,
      length-append s.palette (runtime_id state ∷ []),
      missing-snoc 16 s.palette (runtime_id state) low e,
    )
    by_place (some i) e = h

-- A sound chunk whose palettes have been filled with named blocks only.
pub record IsTerrain (c : Chunk) : Type 0 where
  pub sound : IsChunk c
  pub spare : All HasSpare c.subchunks

pub IsTerrain-room : (c : Chunk) → IsTerrain c → All HasRoom c.subchunks
IsTerrain-room c h = All-map HasSpare-HasRoom c.subchunks h.spare

pub chunk_set_block-IsTerrain :
    (c : Chunk) (state : BlockState) (lx ly lz : ℕ)
    → IsColumn lx ly lz
    → IsNamed state
    → IsTerrain c
    → IsTerrain (chunk_set_block c lx ly lz state)
chunk_set_block-IsTerrain c state lx ly lz p n h = record {
  sound = chunk_set_block-IsChunk c state h.sound lx ly lz p (IsTerrain-room c h);
  spare =
      let (s, found) = here c state h.sound lx ly lz p in
      rw (set-eq c state h.sound lx ly lz p) (
        All-set HasSpare c.subchunks (ly / 16) (set_local s lx (ly % 16) lz state) h.spare (
          set_local-HasSpare s state lx (ly % 16) lz n
            (All-get_elem? HasSpare c.subchunks (ly / 16) s h.spare found)));
}

pub new_chunk-IsTerrain : (x z : ℤ) → IsTerrain (new_chunk x z)
new_chunk-IsTerrain x z = record {
  sound = (new_chunk-IsChunk x z).0;
  spare = All-replicate HasSpare 16 new_subchunk (omega arith);
}
