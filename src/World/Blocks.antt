-- ===== src/World/Blocks.antt =====
-- `SubChunk` of crates/world/src/lib.rs: what is set is read back, through the palette.
use rust_mine.Base.{
  ℕ, zero, suc, ◌+◌, ◌%◌, ◌^◌, ◌≤◌, ◌<◌, ◌==◌, ◌&&◌, if◌then◌else◌, Bool, ◌≡◌, ◌≢◌, refl, sym, ap,
  ◌∙◌, List, [], ◌∷◌, ◌++◌, length, length-append, length-set, get_or, get_or-set_self,
  get_or-set_ne, set, All, All-set, All-map, All-get_or, Option, none, some, inl, inr, Bool-cases,
  ==_iff, true, false, ◌↔◌, arith,
}
use rust_mine.World.{
  SubChunk, BlockState, runtime_id, from_runtime_id, runtime, named_blocks, local_to_index,
  position, place_in, set_local, get_local,
}

-- The id of a named block, or of any other.
abbrev pub named : BlockState → BlockState
named state = from_runtime_id (runtime_id state)

-- The ids of the blocks are numbers in a row, from `k`.
abbrev AreNumbered : ℕ → List BlockState → Type 0
AreNumbered k [] = Unit
AreNumbered k (b ∷ bs) = (runtime_id b ≡ k) × AreNumbered (k + 1) bs

get_or-AreNumbered :
    (k i n : ℕ) (bs : List BlockState)
    → AreNumbered k bs
    → k + i ≡ n
    → runtime_id (get_or bs i (runtime n)) ≡ n
get_or-AreNumbered k i n [] h e = refl
get_or-AreNumbered k zero n (b ∷ bs) h e = h.0 ∙ omega (arith, e)
get_or-AreNumbered k (suc i) n (b ∷ bs) h e = get_or-AreNumbered (k + 1) i n bs h.1 (omega arith)

-- A block that is read from an id has that id again, for named blocks and others.
runtime_id-from_runtime_id : (n : ℕ) → runtime_id (from_runtime_id n) ≡ n
unfolding from_runtime_id
runtime_id-from_runtime_id n = get_or-AreNumbered 0 n n named_blocks numbered (omega arith)
  where
    numbered : AreNumbered 0 named_blocks
    numbered = (
      refl,
      (
        refl,
        (
          refl,
          (
            refl,
            (
              refl,
              (
                refl,
                (refl, (refl, (refl, (refl, (refl, (refl, (refl, (refl, (refl, (refl, tt)))))))))),
              ),
            ),
          ),
        ),
      ),
    )

-- A subchunk: its blocks are places in its palette.
pub record IsSubChunk (s : SubChunk) : Type 0 where
  pub sized : length s.blocks ≡ 4096
  pub inside : All (λ i. i < length s.palette) s.blocks

abbrev Found : List ℕ → ℕ → Option ℕ → Type 0
Found xs id none = Unit
Found xs id (some i) = (i < length xs) × (get_or xs i 0 ≡ id)

position-Found : (xs : List ℕ) (id : ℕ) → Found xs id (position xs id)
position-Found [] id = tt
position-Found (x ∷ xs) id = step (x == id) (position xs id) (==_iff x id).0 (position-Found xs id)
  where
    step :
        (b : Bool) (o : Option ℕ)
        → (b ≡ true → x ≡ id)
        → Found xs id o
        → Found (x ∷ xs) id (if b then some 0 else elim o [ none ↦ none | some i ↦ some (suc i) ])
    step true o h f = (omega arith, h refl)
    step false none h f = tt
    step false (some i) h f = (omega (arith, f.0), f.1)

get_or-append : (xs ys : List ℕ) (i : ℕ) → i < length xs → get_or (xs ++ ys) i 0 ≡ get_or xs i 0
get_or-append [] ys i h = absurd (omega arith)
get_or-append (x ∷ xs) ys zero h = refl
get_or-append (x ∷ xs) ys (suc i) h = get_or-append xs ys i (omega arith)

get_or-snoc : (xs : List ℕ) (x : ℕ) → get_or (xs ++ x ∷ []) (length xs) 0 ≡ x
get_or-snoc [] x = refl
get_or-snoc (y ∷ xs) x = get_or-snoc xs x

-- What `place_in` gives: the id stands at the index, and the other places are as before.
record IsPlace (xs : List ℕ) (id : ℕ) (placed : List ℕ × ℕ) : Type 0 where
  holds : (placed.1 < length placed.0) × (get_or placed.0 placed.1 0 ≡ id)
  keeps : (i : ℕ) → i < length xs → get_or placed.0 i 0 ≡ get_or xs i 0
  grows : (length xs ≤ length placed.0) × (length placed.0 ≤ length xs + 1)

place_in-IsPlace : (xs : List ℕ) (id : ℕ) → IsPlace xs id (place_in xs id)
place_in-IsPlace xs id = step (position xs id) (position-Found xs id)
  where
    step :
        (o : Option ℕ)
        → Found xs id o
        → IsPlace xs id (elim o [ some i ↦ (xs, i) | none ↦ (xs ++ id ∷ [], length xs) ])
    step none f =
        let longer = length-append xs (id ∷ []) in
        record {
          holds = (omega (arith, longer), get_or-snoc xs id);
          keeps = λ i h. get_or-append xs (id ∷ []) i h;
          grows = (omega (arith, longer), omega (arith, longer));
        }
    step (some i) f = record { holds = f; keeps = λ j h. refl; grows = (omega arith, omega arith) }

-- Coordinates in a subchunk.
abbrev pub IsLocal : ℕ → ℕ → ℕ → Type 0
IsLocal lx ly lz = (lx < 16) × (ly < 16) × (lz < 16)

-- Places with the same coordinates, and only those, have the same index.
index_iff :
    (lx ly lz mx my mz : ℕ)
    → IsLocal lx ly lz
    → IsLocal mx my mz
    → ((lx == mx && ly == my && lz == mz) ≡ true)
      ↔ (local_to_index lx ly lz ≡ local_to_index mx my mz)
index_iff lx ly lz mx my mz p q = (λ h. ground arith, λ h. ground arith)

apart : false ≢ true
apart e = absurd (cc)

module _ (s : SubChunk) (state : BlockState) (sound : IsSubChunk s)
    (room : length s.palette < 2 ^ 16) where
  place : IsPlace s.palette (runtime_id state) (place_in s.palette (runtime_id state))
  place = place_in-IsPlace s.palette (runtime_id state)

  fits :
      (place_in s.palette (runtime_id state)).1 % 2 ^ 16 ≡ (place_in s.palette (runtime_id state)).1
  fits = omega (arith, place.holds.0, place.grows.1)

  -- A block that is set leaves a sound subchunk, with one palette entry more at most.
  pub set_local-IsSubChunk :
      (lx ly lz : ℕ)
      → IsSubChunk (set_local s lx ly lz state)
        × (length (set_local s lx ly lz state).palette ≤ length s.palette + 1)
  unfolding set_local
  set_local-IsSubChunk lx ly lz = (
    record {
      sized = length-set s.blocks (local_to_index lx ly lz) _ ∙ sound.sized;
      inside =
          All-set (λ i. i < length (place_in s.palette (runtime_id state)).0) s.blocks
            (local_to_index lx ly lz) ((place_in s.palette (runtime_id state)).1 % 2 ^ 16)
            (All-map (λ i h. omega (arith, h, place.grows.0)) s.blocks sound.inside)
            (omega (arith, fits, place.holds.0));
    },
    place.grows.1,
  )

  -- The block that was set is read at its place, and every other place reads as before.
  pub get_local-set_local :
      (lx ly lz mx my mz : ℕ)
      → IsLocal lx ly lz
      → IsLocal mx my mz
      → get_local (set_local s lx ly lz state) mx my mz
        ≡ (if lx == mx && ly == my && lz == mz then named state else get_local s mx my mz)
  unfolding get_local set_local
  get_local-set_local lx ly lz mx my mz p q =
      let i = local_to_index lx ly lz in
      let j = local_to_index mx my mz in
      let v = (place_in s.palette (runtime_id state)).1 % 2 ^ 16 in
      let palette' = (place_in s.palette (runtime_id state)).0 in
      elim (Bool-cases (lx == mx && ly == my && lz == mz)) [
        | inl e ↦
            let at = (index_iff lx ly lz mx my mz p q).0 e in
            ap (λ (t : ℕ). from_runtime_id (get_or palette' t 0))
              (ap (λ (k : ℕ). get_or (set s.blocks i v) k 0) (sym at)
                ∙ get_or-set_self s.blocks i v 0 (omega (arith, sound.sized))
                ∙ fits)
            ∙ ap from_runtime_id place.holds.1
            ∙ rw e refl
        | inr e ↦
            ap (λ (t : ℕ). from_runtime_id (get_or palette' t 0))
              (get_or-set_ne s.blocks i j v 0
                (λ at. apart (sym e ∙ (index_iff lx ly lz mx my mz p q).1 at)))
            ∙ ap from_runtime_id (
                place.keeps (get_or s.blocks j 0) (
                  All-get_or (λ k. k < length s.palette) s.blocks j 0 sound.inside
                    (omega (arith, sound.sized))))
            ∙ rw e refl
      ]
