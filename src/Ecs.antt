-- ===== src/Ecs.antt =====
-- crates/ecs/src/lib.rs: the components, and what the spawners put together. A float is its bit
-- pattern; a `String` is the list of its UTF-8 bytes. The world of the hecs package is a parameter
-- with its `spawn`.
mod Coords
mod Tests
use rust_mine.Base.{ℕ, List}
use rust_mine.Base.Int.{ℤ, sar, low_bits}
use rust_mine.Base.Text.{codes}
use rust_mine.Protocol.Interaction.Reach.{FloatOps}

pub record Vec3 : Type 0 where
  pub x : ℕ
  pub y : ℕ
  pub z : ℕ

unfoldable pub distance : FloatOps → Vec3 → Vec3 → ℕ
distance f a b =
    let dx = f.sub a.x b.x in
    let dy = f.sub a.y b.y in
    let dz = f.sub a.z b.z in f.sqrt (f.add (f.add (f.mul dx dx) (f.mul dy dy)) (f.mul dz dz))

-- The components of a player.
pub record Position : Type 0 where
  pub x : ℕ
  pub y : ℕ
  pub z : ℕ

abbrev pub from_vec3 : Vec3 → Position
from_vec3 v = record { x = v.x; y = v.y; z = v.z }

abbrev pub to_vec3 : Position → Vec3
to_vec3 p = record { x = p.x; y = p.y; z = p.z }

abbrev pub chunk_coords_of : FloatOps → Position → ℤ × ℤ
chunk_coords_of f p = (sar (f.to_i32 p.x) 4, sar (f.to_i32 p.z) 4)

pub record Rotation : Type 0 where
  pub yaw : ℕ
  pub pitch : ℕ

pub record Velocity : Type 0 where
  pub x : ℕ
  pub y : ℕ
  pub z : ℕ

abbrev pub no_rotation : Rotation
no_rotation = record { yaw = 0; pitch = 0 }

abbrev pub no_velocity : Velocity
no_velocity = record { x = 0; y = 0; z = 0 }

pub record PlayerInfo : Type 0 where
  pub username : List ℕ
  pub entity_id : ℤ
  pub runtime_id : ℕ
  pub gamemode : ℕ
  pub health : ℕ
  pub hunger : ℕ

pub data NetworkState : Type 0 where
  connecting logging_in playing disconnected : NetworkState

-- What one call of `spawn` puts together: a player or an item.
pub record PlayerBundle : Type 0 where
  pub position : Position
  pub rotation : Rotation
  pub velocity : Velocity
  pub info : PlayerInfo
  pub network : NetworkState

pub record ItemComponent : Type 0 where
  pub item_id : ℕ
  pub count : ℕ
  pub pickup_delay : ℕ

pub record ItemBundle : Type 0 where
  pub position : Position
  pub velocity : Velocity
  pub item : ItemComponent

-- 20.0.
abbrev full_health : ℕ
full_health = 0x41a00000

module _ {Store Entity : Type 0} where
  unfoldable pub spawn_player :
      (Store → PlayerBundle → Store × Entity) → Store → List ℕ → ℤ → ℕ → ℕ → ℕ → ℕ → Store × Entity
  spawn_player spawn world username entity_id runtime_id x y z = spawn world (record {
    position = record { x = x; y = y; z = z };
    rotation = no_rotation;
    velocity = no_velocity;
    info = record {
      username = username;
      entity_id = entity_id;
      runtime_id = runtime_id;
      gamemode = 1;
      health = full_health;
      hunger = 20;
    };
    network = playing;
  })

  unfoldable pub spawn_item :
      (Store → ItemBundle → Store × Entity) → Store → ℕ → ℕ → ℕ → ℕ → ℕ → Store × Entity
  spawn_item spawn world item_id count x y z = spawn world (record {
    position = record { x = x; y = y; z = z };
    velocity = no_velocity;
    item = record { item_id = item_id; count = count; pickup_delay = 0 };
  })

-- The components of a block.
pub record BlockPosition : Type 0 where
  pub x : ℤ
  pub y : ℤ
  pub z : ℤ

unfoldable pub chunk_coords : BlockPosition → ℤ × ℤ
chunk_coords p = (sar p.x 4, sar p.z 4)

unfoldable pub local_coords : BlockPosition → ℕ × ℕ × ℕ
local_coords p = (low_bits p.x 4, low_bits p.y 8, low_bits p.z 4)

pub record BlockType : Type 0 where
  pub runtime_id : ℕ
  pub name : List ℕ

-- `BlockType::air`, `stone`, `grass` and `dirt`.
abbrev pub air : BlockType
air = record { runtime_id = 0; name = codes "air" }

abbrev pub stone : BlockType
stone = record { runtime_id = 1; name = codes "stone" }

abbrev pub grass : BlockType
grass = record { runtime_id = 2; name = codes "grass" }

abbrev pub dirt : BlockType
dirt = record { runtime_id = 3; name = codes "dirt" }

-- `place_block` leaves the world as it is.
abbrev pub place_block {ℓ} : {Store : Type ℓ} → Store → BlockPosition → BlockType → Store
place_block world pos block_type = world
