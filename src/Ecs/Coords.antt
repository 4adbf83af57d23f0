-- ===== src/Ecs/Coords.antt =====
-- The coordinates of a block of crates/ecs/src/lib.rs in its chunk.
use rust_mine.Base.{◌||◌, ==_iff, not, false, ◌≡◌, ap, arith}
use rust_mine.Base.Int.{ℤ, pos, ltz, sar, low_bits, eqz_iff}
use rust_mine.World.Store.Placing.{same_low, same_y}
use rust_mine.Ecs.{BlockPosition, chunk_coords, local_coords}

-- The height is that of a block of a chunk.
abbrev pub IsBuildable : BlockPosition → Type 0
IsBuildable p = (ltz p.y (pos 0) || not (ltz p.y (pos 256))) ≡ false

same_axis : (a b : ℤ) → sar a 4 ≡ sar b 4 → low_bits a 4 ≡ low_bits b 4 → a ≡ b
same_axis a b h l = (eqz_iff a b).0 (
    ground (
      arith,
      same_low a b,
      (eqz_iff (sar a 4) (sar b 4)).1 h,
      (==_iff (low_bits a 4) (low_bits b 4)).1 l,
    ))

-- Two positions within the height of a chunk that have the same chunk and the same coordinates in
-- it are the same.
coords_unique :
    (p q : BlockPosition)
    → IsBuildable p
    → IsBuildable q
    → chunk_coords p ≡ chunk_coords q
    → local_coords p ≡ local_coords q
    → (p.x ≡ q.x) × (p.y ≡ q.y) × (p.z ≡ q.z)
unfolding chunk_coords local_coords
coords_unique p q hp hq h l = (
  same_axis p.x q.x (ap (λ c. c.0) h) (ap (λ c. c.0) l),
  (eqz_iff p.y q.y).0 (
      ground (
        arith,
        same_y p.y q.y hp hq,
        (==_iff (low_bits p.y 8) (low_bits q.y 8)).1 (ap (λ c. c.1) l),
      )),
  same_axis p.z q.z (ap (λ c. c.1) h) (ap (λ c. c.2) l),
)
