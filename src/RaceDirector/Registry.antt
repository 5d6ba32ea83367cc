-- ===== src/RaceDirector/Registry.antt =====
-- What the race director looks up: courses (libserver/registry/CourseRegistry), which are loaded from
-- a file, characters (libserver/data), and the random device.
use alicia_server.Common.{ℕ, Option, List}

abbrev pub Position : Type 0
Position = ℕ × ℕ × ℕ

-- A deck item on a map: its deck and where it stands.
pub record MapDeckItem : Type 0 where
  pub deck_id : ℕ
  pub position : Position

-- Course::MapBlockInfo
pub record MapBlockInfo : Type 0 where
  pub required_level : ℕ
  pub time_limit : ℕ
  pub wait_time : ℕ
  pub offset : Position
  pub deck_items : List MapDeckItem

-- Course::GameModeInfo
pub record GameModeInfo : Type 0 where
  pub map_pool : List ℕ
  pub used_deck_item_ids : List ℕ

-- `none` is an exception: the entry is not there, or the record cannot be read. `character_level`
-- reads the record of a character and of its mount. `plus` adds two floats. `pick` draws an index
-- of a list that is not empty.
pub record Registry : Type 0 where
  pub map_block_info : ℕ → Option MapBlockInfo
  pub game_mode_info : ℕ → Option GameModeInfo
  pub deck_item_types : ℕ → Option (List ℕ)
  pub character_level : ℕ → Option ℕ
  pub plus : ℕ → ℕ → ℕ
  pub pick : List ℕ → ℕ
