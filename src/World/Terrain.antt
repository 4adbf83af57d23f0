-- ===== src/World/Terrain.antt =====
-- Loops that fill a chunk of crates/world/src/lib.rs block by block: what each place reads as.
use rust_mine.Base.{
  ℕ, zero, suc, ◌+◌, ◌*◌, ◌/◌, ◌%◌, ◌≤◌, ◌<◌, ◌==◌, ◌&&◌, ==_iff, Bool-cases, inl, inr, true, false,
  if◌then◌else◌, ◌≡◌, refl, sym, ◌∙◌, ◌↔◌, arith,
}
use mathlib.Core.Path.{subst}
use rust_mine.World.{BlockState, Chunk, chunk_set_block, chunk_get_block, for_range}
use rust_mine.World.Blocks.{named}
use rust_mine.World.Columns.{IsColumn, chunk_get_block-set}
use rust_mine.World.Palettes.{IsNamed, IsTerrain, IsTerrain-room, chunk_set_block-IsTerrain}

-- A round of a loop from `k` on that hits.
pub record Round (k n : ℕ) (hits : ℕ → Type 0) : Type 0 where
  pub index : ℕ
  pub from : k ≤ index
  pub below : index < k + n
  pub hitting : hits index

abbrev pub round_at : (n : ℕ) (hits : ℕ → Type 0) (i : ℕ) → i < n → hits i → Round 0 n hits
round_at n hits i h k = record { index = i; from = omega arith; below = omega arith; hitting = k }

module _ {S : Type 0} (T Q : S → Type 0) where
  -- A step of a loop keeps the invariant `T` and what is known, `Q`; where it hits, it makes it known.
  pub record Body (step : S → S) (hits : Type 0) : Type 0 where
    pub keeps : (s : S) → T s → T (step s)
    pub retains : (s : S) → T s → Q s → Q (step s)
    pub hit : (s : S) → hits → T s → Q (step s)

  -- A loop is such a step too: it hits if one of its rounds does.
  pub for_range-Body :
      (n k : ℕ) (step : ℕ → S → S) (hits : ℕ → Type 0)
      → ((i : ℕ) → i < k + n → Body (step i) (hits i))
      → Body (for_range n k step) (Round k n hits)
  unfolding for_range
  for_range-Body zero k step hits body = record {
    keeps = λ s t. t;
    retains = λ s t q. q;
    hit = λ s h t. absurd (omega (arith, h.from, h.below));
  }
  for_range-Body (suc n) k step hits body =
      let first = body k (omega arith) in
      let rest = for_range-Body n (k + 1) step hits (λ i h. body i (omega arith)) in
      record {
        keeps = λ s t. rest.keeps (step k s) (first.keeps s t);
        retains = λ s t q. rest.retains (step k s) (first.keeps s t) (first.retains s t q);
        hit = λ s h t. elim (Bool-cases (k == h.index)) [
          | inl e ↦
              let at : k ≡ h.index = (==_iff k h.index).0 e in
              rest.retains (step k s) (first.keeps s t)
                (first.hit s (subst hits (sym at) h.hitting) t)
          | inr e ↦
              rest.hit (step k s)
                (record {
                  index = h.index;
                  from = later k h.index e h.from;
                  below = omega (arith, h.below);
                  hitting = h.hitting;
                })
                (first.keeps s t)
        ];
      }
    where
      later : (k i : ℕ) → (k == i) ≡ false → k ≤ i → k + 1 ≤ i
      later k i e h = ground arith

-- The block that every place of a chunk is to read as.
module _ (block : ℕ → ℕ → ℕ → BlockState) (are_named : (lx ly lz : ℕ) → IsNamed (block lx ly lz))
    (mx my mz : ℕ) (q : IsColumn mx my mz) where
  abbrev pub Reads : Chunk → Type 0
  Reads c = chunk_get_block c mx my mz ≡ block mx my mz

  module _ (lx ly lz : ℕ) (p : IsColumn lx ly lz) where
    abbrev AreSame : Type 0
    AreSame = (lx ≡ mx) × (ly ≡ my) × (lz ≡ mz)

    same_iff : ((lx == mx && ly == my && lz == mz) ≡ true) ↔ AreSame
    same_iff = (λ h. ground arith, λ h. ground arith)

    there : AreSame → named (block lx ly lz) ≡ block mx my mz
    there (ex, ey, ez) = (are_named lx ly lz).1 ∙ rw (ex, ey, ez) refl

    after-eq :
        (c : Chunk)
        → IsTerrain c
        → chunk_get_block (chunk_set_block c lx ly lz (block lx ly lz)) mx my mz ≡ (
            if lx == mx && ly == my && lz == mz
            then named (block lx ly lz)
            else chunk_get_block c mx my mz)
    after-eq c t =
        chunk_get_block-set c (block lx ly lz) t.sound lx ly lz p mx my mz (IsTerrain-room c t) q

    pub set-Body :
        Body IsTerrain Reads
          (λ c. chunk_set_block c lx ly lz (block lx ly lz))
          ((lx ≡ mx) × (ly ≡ my) × (lz ≡ mz))
    set-Body = record {
      keeps = λ c t. chunk_set_block-IsTerrain c (block lx ly lz) lx ly lz p (are_named lx ly lz) t;
      retains = λ c t r. after-eq c t ∙ elim (Bool-cases (lx == mx && ly == my && lz == mz)) [
        | inl e ↦ rw e (there (same_iff.0 e))
        | inr e ↦ rw e r
      ];
      hit = λ c h t. after-eq c t ∙ rw (same_iff.1 h) (there h);
    }

  -- The loops over `sub_y`, and over the blocks of a column in each subchunk.
  pub column-Body :
      (lx lz : ℕ)
      → lx < 16
      → lz < 16
      → Body IsTerrain Reads
          (for_range 16 0 λ sub_y.
            for_range 16 0
              λ ly c. chunk_set_block c lx (sub_y * 16 + ly) lz (block lx (sub_y * 16 + ly) lz))
          ((lx ≡ mx) × (lz ≡ mz))
  column-Body lx lz hx hz =
      let body =
        for_range-Body IsTerrain Reads 16 0
          (λ sub_y.
            for_range 16 0
              λ ly c. chunk_set_block c lx (sub_y * 16 + ly) lz (block lx (sub_y * 16 + ly) lz))
          (λ sub_y. Round 0 16 λ ly. (lx ≡ mx) × (sub_y * 16 + ly ≡ my) × (lz ≡ mz))
          (λ sub_y hy.
            for_range-Body IsTerrain Reads 16 0
              (λ ly c. chunk_set_block c lx (sub_y * 16 + ly) lz (block lx (sub_y * 16 + ly) lz))
              (λ ly. (lx ≡ mx) × (sub_y * 16 + ly ≡ my) × (lz ≡ mz))
              (λ ly h. set-Body lx (sub_y * 16 + ly) lz (hx, omega arith, hz))) in
      record {
        keeps = body.keeps;
        retains = body.retains;
        hit = λ c h t.
            body.hit c
              (round_at 16 _ (my / 16) (omega (arith, q.1))
                (round_at 16 _ (my % 16) (omega arith) (h.0, omega arith, h.1)))
              t;
      }

  -- The loops over the columns, with a step for each of them.
  pub columns-Body :
      (column : ℕ → ℕ → Chunk → Chunk)
      → ((lx lz : ℕ)
          → lx < 16
          → lz < 16
          → Body IsTerrain Reads (column lx lz) ((lx ≡ mx) × (lz ≡ mz)))
      → Body IsTerrain Reads (for_range 16 0 λ lx. for_range 16 0 λ lz. column lx lz) (Unit {0})
  columns-Body column each =
      let body =
        for_range-Body IsTerrain Reads 16 0 (λ lx. for_range 16 0 λ lz. column lx lz)
          (λ lx. Round 0 16 λ lz. (lx ≡ mx) × (lz ≡ mz))
          (λ lx hx.
            for_range-Body IsTerrain Reads 16 0 (λ lz. column lx lz) (λ lz. (lx ≡ mx) × (lz ≡ mz))
              (λ lz hz. each lx lz hx hz)) in
      record {
        keeps = body.keeps;
        retains = body.retains;
        hit = λ c h t. body.hit c (round_at 16 _ mx q.0 (round_at 16 _ mz q.2 (refl, refl))) t;
      }
