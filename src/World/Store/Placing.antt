-- ===== src/World/Store/Placing.antt =====
-- `World::set_block` and `World::get_block` of crates/world/src/lib.rs.
use rust_mine.Base.{
  ◌<◌, ◌==◌, ◌||◌, ◌&&◌, not, if◌then◌else◌, Bool, Bool-cases, true, false, All, some, ap, ◌∙◌,
  arith, ◌≡◌, refl, sym, inl, inr,
}
use rust_mine.Base.Int.{ℤ, pos, negsuc, sar, low_bits, ltz, eqz}
use rust_mine.Base.Result.{ok}
use rust_mine.Base.Assoc.{lookup, insert, lookup-insert, pair_eq, int_eq}
use rust_mine.World.{BlockState, air, Chunk, chunk_set_block, chunk_get_block}
use rust_mine.World.Blocks.{named}
use rust_mine.World.Columns.{IsChunk, HasRoom, IsColumn, chunk_get_block-set}
use rust_mine.World.Store.{
  BlockPos, World, to_chunk, local_x, local_y, local_z, chunk_or_new, get_chunk, set_block,
  get_block, out_of_bounds,
}

abbrev pub same_pos : BlockPos → BlockPos → Bool
same_pos p q = eqz p.x q.x && eqz p.y q.y && eqz p.z q.z

abbrev pub same_chunk : BlockPos → BlockPos → Bool
same_chunk p q = eqz (sar p.x 4) (sar q.x 4) && eqz (sar p.z 4) (sar q.z 4)

abbrev same_local : BlockPos → BlockPos → Bool
same_local p q = local_x p == local_x q && local_y p == local_y q && local_z p == local_z q

pub same_low : (a b : ℤ) → (eqz (sar a 4) (sar b 4) && low_bits a 4 == low_bits b 4) ≡ eqz a b
same_low (pos a) (pos b) = ground arith
same_low (pos a) (negsuc b) = refl
same_low (negsuc a) (pos b) = refl
same_low (negsuc a) (negsuc b) = ground arith

pub same_y :
    (a b : ℤ)
    → (ltz a (pos 0) || not (ltz a (pos 256))) ≡ false
    → (ltz b (pos 0) || not (ltz b (pos 256))) ≡ false
    → (low_bits a 8 == low_bits b 8) ≡ eqz a b
same_y (pos a) (pos b) h k = ground arith
same_y (pos a) (negsuc b) h k = absurd (cc)
same_y (negsuc a) b h k = absurd (cc)

-- Two positions in bounds are the same if their chunks and their places in it are.
same_pos-eq :
    (p q : BlockPos)
    → out_of_bounds p ≡ false
    → out_of_bounds q ≡ false
    → same_pos p q ≡ (same_chunk p q && same_local p q)
same_pos-eq p q hp hq = ground (arith, same_low p.x q.x, same_low p.z q.z, same_y p.y q.y hp hq)

pos-local :
    (p q : BlockPos)
    → out_of_bounds p ≡ false
    → out_of_bounds q ≡ false
    → same_chunk p q ≡ true
    → same_local p q ≡ same_pos p q
pos-local p q hp hq e = sym (same_pos-eq p q hp hq ∙ rw e refl)

pos-chunk :
    (p q : BlockPos)
    → out_of_bounds p ≡ false
    → out_of_bounds q ≡ false
    → same_chunk p q ≡ false
    → same_pos p q ≡ false
pos-chunk p q hp hq e = same_pos-eq p q hp hq ∙ rw e refl

apart_y :
    (a b : ℤ)
    → (ltz a (pos 0) || not (ltz a (pos 256))) ≡ false
    → (ltz b (pos 0) || not (ltz b (pos 256))) ≡ true
    → eqz a b ≡ false
apart_y (pos a) (pos b) h k = ground arith
apart_y (pos a) (negsuc b) h k = refl
apart_y (negsuc a) b h k = absurd (cc)

pos-out : (p q : BlockPos) → out_of_bounds p ≡ false → out_of_bounds q ≡ true → same_pos p q ≡ false
pos-out p q hp hq = ground (arith, apart_y p.y q.y hp hq)

pub local-IsColumn : (p : BlockPos) → IsColumn (local_x p) (local_y p) (local_z p)
local-IsColumn p = (low4 p.x, low8 p.y, low4 p.z)
  where
    low4 : (v : ℤ) → low_bits v 4 < 16
    low4 (pos n) = omega arith
    low4 (negsuc n) = omega arith

    low8 : (v : ℤ) → low_bits v 8 < 256
    low8 (pos n) = omega arith
    low8 (negsuc n) = omega arith

-- The chunk that a position is in, generated or not.
abbrev pub chunk_at : World → BlockPos → Chunk
chunk_at w p = chunk_or_new w.generator (to_chunk p) (lookup (to_chunk p) w.chunks)

pub get-in :
    (w : World) (q : BlockPos) (c : Chunk)
    → out_of_bounds q ≡ false
    → lookup (to_chunk q) w.chunks ≡ some c
    → get_block w q ≡ chunk_get_block c (local_x q) (local_y q) (local_z q)
unfolding get_block
get-in w q c h e = rw (h, e) refl

get-same :
    (v w : World) (q : BlockPos)
    → lookup (to_chunk q) v.chunks ≡ lookup (to_chunk q) w.chunks
    → get_block v q ≡ get_block w q
unfolding get_block
get-same v w q e = rw e refl

get-out : (w : World) (q : BlockPos) → out_of_bounds q ≡ true → get_block w q ≡ air
unfolding get_block
get-out w q h = rw h refl

-- The world in which the chunk of a position is there.
abbrev pub visited : World → BlockPos → World
visited w p = record w { chunks = insert (to_chunk p) (chunk_at w p) w.chunks }

abbrev pub placed : World → BlockPos → BlockState → World
placed w p state = record w {
  chunks =
      insert (to_chunk p) (chunk_set_block (chunk_at w p) (local_x p) (local_y p) (local_z p) state)
        (visited w p).chunks;
}

set_block-placed :
    (w : World) (p : BlockPos) (state : BlockState)
    → out_of_bounds p ≡ false
    → set_block w p state ≡ ok (placed w p state)
unfolding set_block get_chunk
set_block-placed w p state h = rw h refl

module _ (w : World) (p q : BlockPos) (state : BlockState) (inside : out_of_bounds p ≡ false)
    (sound : IsChunk (chunk_at w p)) (room : All HasRoom (chunk_at w p).subchunks) where
  lookup-placed : lookup (to_chunk q) (placed w p state).chunks ≡ (
      if same_chunk p q
      then some (chunk_set_block (chunk_at w p) (local_x p) (local_y p) (local_z p) state)
      else lookup (to_chunk q) (visited w p).chunks)
  lookup-placed = lookup-insert (to_chunk p) (to_chunk q) _ (visited w p).chunks

  lookup-visited :
      lookup (to_chunk q) (visited w p).chunks
      ≡ (if same_chunk p q then some (chunk_at w p) else lookup (to_chunk q) w.chunks)
  lookup-visited = lookup-insert (to_chunk p) (to_chunk q) _ w.chunks

  get-placed :
      get_block (placed w p state) q
      ≡ (if same_pos p q then named state else get_block (visited w p) q)
  get-placed = elim (Bool-cases (out_of_bounds q)) [
    | inl out ↦
        get-out (placed w p state) q out
        ∙ sym (rw (pos-out p q inside out) (get-out (visited w p) q out))
    | inr in_ ↦ elim (Bool-cases (same_chunk p q)) [
      | inl e ↦
          get-in (placed w p state) q
            (chunk_set_block (chunk_at w p) (local_x p) (local_y p) (local_z p) state) in_
            (lookup-placed ∙ rw e refl)
          ∙ chunk_get_block-set (chunk_at w p) state sound (local_x p) (local_y p) (local_z p)
              (local-IsColumn p) (local_x q) (local_y q) (local_z q) room (local-IsColumn q)
          ∙ ap (λ t. if same_local p q then named state else t)
              (sym (get-in (visited w p) q (chunk_at w p) in_ (lookup-visited ∙ rw e refl)))
          ∙ ap (λ b. if b then named state else get_block (visited w p) q)
              (pos-local p q inside in_ e)
      | inr e ↦
          get-same (placed w p state) (visited w p) q (lookup-placed ∙ rw e refl)
          ∙ ap (λ b. if b then named state else get_block (visited w p) q)
              (sym (pos-chunk p q inside in_ e))
    ]
  ]

-- set_block within the height bounds succeeds, its position reads as that block, and every other
-- position reads as in the world with that chunk generated, for a sound chunk with room in its
-- palettes.
pub get_block-set_block :
    (w : World) (p : BlockPos) (state : BlockState)
    → out_of_bounds p ≡ false
    → IsChunk (chunk_at w p)
    → All HasRoom (chunk_at w p).subchunks
    → (w' : World) × (set_block w p state ≡ ok w')
      × ((q : BlockPos)
          → get_block w' q
            ≡ (if same_pos p q then named state else get_block (get_chunk w (to_chunk p)).0 q))
unfolding get_chunk
get_block-set_block w p state inside sound room = (
  placed w p state,
  set_block-placed w p state inside,
  λ q. get-placed w p q state inside sound room,
)
