-- ===== src/Tracker/Race.antt =====
-- server/tracker/RaceTracker: the racers and items of a race. An object identifier is a uint16_t,
-- and 0 is the invalid one. The order of a map is not modelled.
pub mod Oids
use alicia_server.Common.{
  ℕ, ◌+◌, ◌-◌, ◌%◌, ◌^◌, Bool, true, false, Option, none, some, List, [], ◌==◌, if◌then◌else◌,
}
use alicia_server.Common.Dict
use alicia_server.Common.Dict.{Dict}

pub data RacerState : Type 0 where
  disconnected loading racing finishing : RacerState

-- protocol::TeamColor
pub data TeamColor : Type 0 where
  solo red blue : TeamColor

pub data Shield : Type 0 where
  no_shield normal critical : Shield

-- RaceTracker::Racer. `course_time` is an int32_t, given as the uint32_t of the same bits.
pub record Racer : Type 0 where
  pub oid : ℕ
  pub state : RacerState
  pub team : TeamColor
  pub star_point_value : ℕ
  pub jump_combo_value : ℕ
  pub course_time : ℕ
  pub magic_item : Option ℕ
  pub tracked_items : Dict (Unit {0})
  pub shield : Shield
  pub darkness : Bool
  pub hot_rodded : Bool
  pub crit_chance : Bool
  pub gauge_buff : Bool

abbrev pub new_racer : Racer
new_racer = record {
  oid = 0;
  state = disconnected;
  team = solo;
  star_point_value = 0;
  jump_combo_value = 0;
  course_time = 2 ^ 31 - 1;
  magic_item = none;
  tracked_items = [];
  shield = no_shield;
  darkness = false;
  hot_rodded = false;
  crit_chance = false;
  gauge_buff = false;
}

-- RaceTracker::Item; a time point and the coordinates of a position are numbers.
pub record Item : Type 0 where
  pub oid : ℕ
  pub item_types : List ℕ
  pub current_type : ℕ
  pub respawn_time_point : ℕ
  pub position : ℕ × ℕ × ℕ

abbrev pub new_item : Item
new_item = record {
  oid = 0;
  item_types = [];
  current_type = 0;
  respawn_time_point = 0;
  position = (0, 0, 0);
}

pub record TeamInfo : Type 0 where
  pub points : ℕ
  pub boost_count : ℕ
  pub gauge_locked : Bool

abbrev pub new_team : TeamInfo
new_team = record { points = 0; boost_count = 0; gauge_locked = false }

pub record RaceTracker : Type 0 where
  pub blue_team : TeamInfo
  pub red_team : TeamInfo
  pub next_object_oid : ℕ
  pub racers : Dict Racer
  pub items : Dict Item
  pub next_obstacle_instance_id : ℕ

abbrev pub new_tracker : RaceTracker
new_tracker = record {
  blue_team = new_team;
  red_team = new_team;
  next_object_oid = 1;
  racers = [];
  items = [];
  next_obstacle_instance_id = 1;
}

-- `x++` of a uint16_t
abbrev pub next_u16 : ℕ → ℕ
next_u16 x = (x + 1) % 2 ^ 16

-- `none` is the exception "Character is already a racer"; the result is the new racer's OID.
unfoldable pub add_racer : ℕ → RaceTracker → Option (RaceTracker × ℕ)
add_racer character_uid t =
    if Dict.contains character_uid t.racers
    then none
    else some (
      record t {
        racers = Dict.assign character_uid (record new_racer { oid = t.next_object_oid }) t.racers;
        next_object_oid = next_u16 t.next_object_oid;
      },
      t.next_object_oid,
    )

unfoldable pub remove_racer : ℕ → RaceTracker → RaceTracker
remove_racer character_uid t = record t { racers = Dict.erase character_uid t.racers }

unfoldable pub is_racer : ℕ → RaceTracker → Bool
is_racer character_uid t = Dict.contains character_uid t.racers

-- `none` is the exception "Character is not a racer".
unfoldable pub get_racer : ℕ → RaceTracker → Option Racer
get_racer character_uid t = Dict.find character_uid t.racers

-- `none` is the exception "Item is already added to the race map".
unfoldable pub add_item : RaceTracker → Option (RaceTracker × ℕ)
add_item t =
    if Dict.contains t.next_object_oid t.items
    then none
    else some (
      record t {
        items = Dict.assign t.next_object_oid (record new_item { oid = t.next_object_oid }) t.items;
        next_object_oid = next_u16 t.next_object_oid;
      },
      t.next_object_oid,
    )

unfoldable pub remove_item : ℕ → RaceTracker → RaceTracker
remove_item item_id t = record t { items = Dict.erase item_id t.items }

-- `none` is the exception "Item is not in the race map".
pub get_item : ℕ → RaceTracker → Option Item
get_item item_id t = Dict.find item_id t.items

unfoldable pub clear : RaceTracker → RaceTracker
clear t = record t { racers = []; items = []; next_object_oid = 1 }

-- GetNextObstacleInstanceIdAndIncrementBy; the result is the counter before the increment.
unfoldable pub take_obstacle_instance_ids : ℕ → RaceTracker → RaceTracker × ℕ
take_obstacle_instance_ids increment t =
    let next = (t.next_obstacle_instance_id + increment) % 2 ^ 16 in
    (
      record t { next_obstacle_instance_id = if next == 0 then 1 else next },
      t.next_obstacle_instance_id,
    )
