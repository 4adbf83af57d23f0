-- ===== src/Ecs/Tests.antt =====
-- Runs of crates/ecs/src/lib.rs.
use rust_mine.Base.{◌≡◌, refl, List, [], ◌∷◌, map}
use rust_mine.Base.Int.{pos, negsuc}
use rust_mine.Base.Text.{codes}
use rust_mine.Ecs.{BlockPosition, chunk_coords, local_coords, spawn_player, PlayerBundle}

abbrev west : BlockPosition
west = record { x = negsuc 0; y = pos 70; z = pos 33 }

west_coords : (chunk_coords west ≡ (negsuc 0, pos 2)) × (local_coords west ≡ (15, 70, 1))
unfolding chunk_coords local_coords
west_coords = (refl, refl)

-- A world that is the list of what was spawned has the player.
one_player :
    map
      (λ p. p.info.username)
      (spawn_player
        (λ (store : List PlayerBundle) p. (p ∷ store, store))
        []
        (codes "Steve")
        (pos 1)
        1
        0
        0x428c0000
        0).0
    ≡ codes "Steve" ∷ []
unfolding spawn_player
one_player = refl
