-- ===== src/Server/Config.antt =====
-- crates/server/src/config.rs, and what `ServerState::new` of main.rs makes of it. A `String` is the
-- list of its UTF-8 bytes. The file system and the parser of TOML are parameters: a file gives the
-- fields that stand in it, each with its type, and serde's attributes say what a missing one is.
use rust_mine.Base.{ℕ, ◌^◌, if◌then◌else◌, Bool, false, List, [], Option, none, some, unwrap_or}
use rust_mine.Base.Int.{pos, of_bits}
use rust_mine.Base.Text.{codes}
use rust_mine.Base.Maybe.{◌>>=◌}
use rust_mine.Base.Result.{Result, ok, err}
use rust_mine.World.Store.{WorldGenerator, flat_generator}
use rust_mine.World.Noise.{NoiseOps, noise_generator}
use rust_mine.Server.Main.{ServerState, new_state}

pub record ServerSection : Type 0 where
  pub name : List ℕ
  pub motd : List ℕ
  pub port : ℕ
  pub max_players : ℕ
  pub bind_address : List ℕ

pub record GameSection : Type 0 where
  pub view_distance : ℕ
  pub gamemode : List ℕ
  pub difficulty : List ℕ
  pub world_name : List ℕ
  pub seed : ℕ
  pub flat_world : Bool

pub record AuthSection : Type 0 where
  pub online_mode : Bool

pub record LoggingSection : Type 0 where
  pub level : List ℕ

pub record ServerConfig : Type 0 where
  pub server : ServerSection
  pub game : GameSection
  pub auth : AuthSection
  pub logging : LoggingSection

-- `Default` of a `ServerConfig`, by the `default_` functions.
abbrev pub default_server : ServerSection
default_server = record {
  name = codes "RustMine Server";
  motd = codes "A RustMine Bedrock Server";
  port = 19_132;
  max_players = 20;
  bind_address = codes "0.0.0.0";
}

abbrev pub default_game : GameSection
default_game = record {
  view_distance = 10;
  gamemode = codes "survival";
  difficulty = codes "normal";
  world_name = codes "world";
  seed = 0;
  flat_world = false;
}

abbrev pub default_auth : AuthSection
default_auth = record { online_mode = false }

abbrev pub default_log_level : List ℕ
default_log_level = codes "info"

abbrev pub default_config : ServerConfig
default_config = record {
  server = default_server;
  game = default_game;
  auth = default_auth;
  logging = record { level = default_log_level };
}

-- The fields that a file has.
pub record ServerFields : Type 0 where
  pub name : Option (List ℕ)
  pub motd : Option (List ℕ)
  pub port : Option ℕ
  pub max_players : Option ℕ
  pub bind_address : Option (List ℕ)

pub record GameFields : Type 0 where
  pub view_distance : Option ℕ
  pub gamemode : Option (List ℕ)
  pub difficulty : Option (List ℕ)
  pub world_name : Option (List ℕ)
  pub seed : Option ℕ
  pub flat_world : Option Bool

-- A section of one field is the field, if there is one.
pub record ConfigFields : Type 0 where
  pub server : Option ServerFields
  pub game : Option GameFields
  pub auth : Option (Option Bool)
  pub logging : Option (Option (List ℕ))

abbrev pub fill_server : ServerFields → ServerSection
fill_server r = record {
  name = unwrap_or r.name default_server.name;
  motd = unwrap_or r.motd default_server.motd;
  port = unwrap_or r.port default_server.port;
  max_players = unwrap_or r.max_players default_server.max_players;
  bind_address = unwrap_or r.bind_address default_server.bind_address;
}

-- `seed` and `flat_world` are those of their types.
abbrev pub fill_game : GameFields → GameSection
fill_game r = record {
  view_distance = unwrap_or r.view_distance default_game.view_distance;
  gamemode = unwrap_or r.gamemode default_game.gamemode;
  difficulty = unwrap_or r.difficulty default_game.difficulty;
  world_name = unwrap_or r.world_name default_game.world_name;
  seed = unwrap_or r.seed 0;
  flat_world = unwrap_or r.flat_world false;
}

-- Without the section it is the derived `Default`, whose level is empty.
abbrev pub fill_logging : Option (Option (List ℕ)) → LoggingSection
fill_logging none = record { level = [] }
fill_logging (some level) = record { level = unwrap_or level default_log_level }

pub data LoadError : Type 0 where
  io parse : List ℕ → LoadError

-- The sections that have no default; the text of the error is that of serde.
abbrev pub fill_config : ConfigFields → Option ServerConfig
fill_config r = do
  server ← r.server
  game ← r.game
  auth ← r.auth
  some (record {
    server = fill_server server;
    game = fill_game game;
    auth = record { online_mode = unwrap_or auth default_auth.online_mode };
    logging = fill_logging r.logging;
  })

pub record Files : Type 0 where
  pub read_to_string : List ℕ → Result (List ℕ) (List ℕ)
  pub from_toml : List ℕ → Result (List ℕ) ConfigFields
  pub missing_field : List ℕ

abbrev from_fields : Files → Result (List ℕ) ConfigFields → Result LoadError ServerConfig
from_fields f (err e) = err (parse e)
from_fields f (ok r) = elim (fill_config r) [
  | none ↦ err (parse f.missing_field)
  | some config ↦ ok config
]

abbrev from_content : Files → Result (List ℕ) (List ℕ) → Result LoadError ServerConfig
from_content f (err e) = err (io e)
from_content f (ok content) = from_fields f (f.from_toml content)

-- `ServerConfig::load`.
unfoldable pub load : Files → List ℕ → Result LoadError ServerConfig
load f path = from_content f (f.read_to_string path)

-- 1.0, an f64.
abbrev one : ℕ
one = 0x3ff0000000000000

-- The generator of `ServerState::new`. The source hands the u64 seed over where an i64 is wanted,
-- which does not compile; here it is cast.
abbrev pub generator_of : NoiseOps → GameSection → WorldGenerator
generator_of f game =
    if game.flat_world
    then flat_generator (pos 64)
    else noise_generator f (record {
      seed = of_bits (2 ^ 63) game.seed;
      surface_height = pos 64;
      amplitude = pos 20;
      frequency = one;
    })

abbrev pub configured_state : NoiseOps → ServerConfig → ServerState
configured_state f config =
    new_state config.game.world_name (of_bits (2 ^ 63) config.game.seed)
      (generator_of f config.game)
