-- ===== src/Game/Space.antt =====
-- Where the players of crates/game/src/lib.rs are. A float is its bit pattern, and what the code does
-- with floats is a parameter.
use mathlib.Core.List.{Memᴰ}
use mathlib.Core.List.Memᴰ.{head, tail}
use rust_mine.Base.{
  ℕ, ◌≡◌, refl, sym, ap, ◌&&◌, if◌then◌else◌, Bool, true, List, [], ◌∷◌, map, retain, Option, some,
  Bool-cases, inl, inr, arith,
}
use rust_mine.Base.Int.{ℤ, sar, eqz}
use rust_mine.Base.Assoc.{Assoc, lookup, adjust, same_refl, int_eq}
use rust_mine.Protocol.Interaction.Reach.{FloatOps}
use rust_mine.Game.{Vec3, Rotation, PlayerData, GameState, player_move, process_event}

-- `get_player` and `get_player_mut`.
abbrev pub get_player : GameState → ℤ → Option PlayerData
get_player g entity_id = lookup entity_id g.players

-- `from_coords`; the cast of an f64 to an f32 is a parameter.
abbrev pub from_coords : (ℕ → ℕ) → ℕ → ℕ → ℕ → Vec3
from_coords to_f32 x y z = record { x = to_f32 x; y = to_f32 y; z = to_f32 z }

module _ (f : FloatOps) where
  unfoldable pub distance : Vec3 → Vec3 → ℕ
  distance a b =
      let dx = f.sub a.x b.x in
      let dy = f.sub a.y b.y in
      let dz = f.sub a.z b.z in f.sqrt (f.add (f.add (f.mul dx dx) (f.mul dy dy)) (f.mul dz dz))

  abbrev pub to_block_pos : Vec3 → ℤ × ℤ × ℤ
  to_block_pos v = (f.to_i32 v.x, f.to_i32 v.y, f.to_i32 v.z)

  -- The test in the filter.
  abbrev pub is_in_chunk : ℤ → ℤ → PlayerData → Bool
  is_in_chunk chunk_x chunk_z p =
      eqz (sar (f.to_i32 p.position.x) 4) chunk_x && eqz (sar (f.to_i32 p.position.z) 4) chunk_z

  unfoldable pub players_in_chunk : GameState → ℤ → ℤ → List PlayerData
  players_in_chunk g chunk_x chunk_z =
      retain (is_in_chunk chunk_x chunk_z) (map (λ e. e.1) g.players)

abbrev pub moved : Vec3 → Rotation → PlayerData → PlayerData
moved pos rot p = record p { position = pos; rotation = rot }

module _ (test : PlayerData → Bool) where
  Memᴰ-retain :
      (p : PlayerData) (ps : List PlayerData) → test p ≡ true → Memᴰ p ps → Memᴰ p (retain test ps)
  Memᴰ-retain p [] h m = elim m [ ]
  Memᴰ-retain p (q ∷ ps) h (head e) = rw (retain, sym (ap test e), h) (head e)
  Memᴰ-retain p (q ∷ ps) h (tail m) = elim (Bool-cases (test q)) [
    | inl on ↦ rw (retain, on) (tail (Memᴰ-retain p ps h m))
    | inr off ↦ rw (retain, off) (Memᴰ-retain p ps h m)
  ]

found_first :
    {q p : PlayerData} {here : Bool} (rest : Option PlayerData)
    → here ≡ true
    → (if here then some q else rest) ≡ some p
    → q ≡ p
found_first rest on h = ground (arith, h, on)

Memᴰ-adjust :
    (id : ℤ) (f : PlayerData → PlayerData) (p : PlayerData) (ps : Assoc ℤ PlayerData)
    → lookup id ps ≡ some p
    → Memᴰ (f p) (map (λ e. e.1) (adjust id f ps))
Memᴰ-adjust id f p [] h = absurd (ground (arith, h))
Memᴰ-adjust id f p ((j, q) ∷ ps) h = elim (Bool-cases (eqz j id)) [
  | inl on ↦ rw on (head (sym (ap f (found_first (lookup id ps) on h))))
  | inr off ↦ rw off (tail (Memᴰ-adjust id f p ps (ground (arith, h, off))))
]

-- A player of the game that moves is afterwards among the players of the chunk of its new position,
-- with that position and rotation and all else as it was.
players_in_chunk-move :
    (f : FloatOps) (g : GameState) (id : ℤ) (p : PlayerData) (pos : Vec3) (rot : Rotation)
    → get_player g id ≡ some p
    → Memᴰ (moved pos rot p) (
        players_in_chunk f
          (process_event g (player_move id pos rot)).0
          (sar (f.to_i32 pos.x) 4)
          (sar (f.to_i32 pos.z) 4))
unfolding players_in_chunk process_event
players_in_chunk-move f g id p pos rot h =
    Memᴰ-retain (is_in_chunk f (sar (f.to_i32 pos.x) 4) (sar (f.to_i32 pos.z) 4)) (moved pos rot p)
      (map (λ e. e.1) (adjust id (moved pos rot) g.players))
      (rw (same_refl (sar (f.to_i32 pos.x) 4), same_refl (sar (f.to_i32 pos.z) 4)) refl)
      (Memᴰ-adjust id (moved pos rot) p g.players h)
