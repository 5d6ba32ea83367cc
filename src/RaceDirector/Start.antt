-- ===== src/RaceDirector/Start.antt =====
-- RaceDirector::HandleStartRace and PrepareItemSpawners. The message that tells the clients of the
-- start, which is scheduled for the end of the countdown, changes nothing and is left out.
use alicia_server.Common.{
  ℕ, suc, ◌+◌, ◌%◌, ◌^◌, Bool, true, false, not, ◌&&◌, ◌||◌, Option, none, some, List, [], ◌∷◌, leb,
  ◌==◌, if◌then◌else◌, get_elem?,
}
use alicia_server.Common.Dict
use alicia_server.Common.Dict.{Dict}
use alicia_server.Tracker.Race.{RaceTracker, RacerState, TeamColor, add_racer, add_item, clear}
use alicia_server.Room.{Room, Player, Team, is_red, is_blue, is_team_mode, set_room_playing}
use alicia_server.RaceDirector.{
  Stage, RaceInstance, RaceDirector, Reason, not_ready, not_team_balance, Outcome, threw_at, done,
  seconds, broadcast, room_countdown, start_race_cancel, get_client_context, get_race_instance,
}
use alicia_server.RaceDirector.Registry.{Registry, Position, MapDeckItem, MapBlockInfo}

-- What the loop over the players finds: whether all are ready, and the sizes of the teams.
pub record Readiness : Type 0 where
  pub all_players_ready : Bool
  pub red_team_count : ℕ
  pub blue_team_count : ℕ

abbrev pub count_if : Bool → ℕ → ℕ
count_if b n = if b then suc n else n

-- The loop ends at the first player who is neither ready nor the master.
unfoldable pub check_players : ℕ → Dict Player → (red blue : ℕ) → Readiness
check_players master [] red blue = record {
  all_players_ready = true;
  red_team_count = red;
  blue_team_count = blue;
}
check_players master ((uid, p) ∷ players) red blue =
    let red' = count_if (is_red p.team) red in
    let blue' = count_if (is_blue p.team) blue in
    let rest = check_players master players red' blue' in
    if not (uid == master) && not p.is_ready
    then record { all_players_ready = false; red_team_count = red'; blue_team_count = blue' }
    else rest

-- Why a race is not started, if it is not.
unfoldable pub refusal : ℕ → Room → Option Reason
refusal master room =
    let found = check_players master room.players 0 0 in
    if not found.all_players_ready
    then some not_ready
    else if is_team_mode room.details.mode && not (found.red_team_count == found.blue_team_count)
    then some not_team_balance
    else none

abbrev pub is_map_choice : ℕ → Bool
is_map_choice course = course == 10000 || course == 10001 || course == 10002

abbrev pub is_open_map : Registry → ℕ → ℕ → Bool
is_open_map registry master_level map_block_id = elim (registry.map_block_info map_block_id) [
  | none ↦ false
  | some info ↦ leb info.required_level master_level
]

-- The IDs of the pool are uint32_t, those of the filtered maps uint16_t.
unfoldable pub filter_maps : Registry → (master_level : ℕ) → List ℕ → List ℕ
filter_maps registry master_level [] = []
filter_maps registry master_level (m ∷ maps) =
    let rest = filter_maps registry master_level maps in
    if is_open_map registry master_level m then (m % 2 ^ 16) ∷ rest else rest

-- The map of the race. Where no map of the pool is open to the master, the index that is drawn is
-- one of no element, and the behaviour is undefined: that is `none`, as are the exceptions.
unfoldable pub choose_map : Registry → (master course game_mode : ℕ) → Option ℕ
choose_map registry master course game_mode =
    if is_map_choice course
    then elim (registry.game_mode_info game_mode) [
      | none ↦ none
      | some info ↦ elim info.map_pool [
        | [] ↦ some 1
        | map ∷ maps ↦ elim (registry.character_level master) [
          | none ↦ none
          | some level ↦
              let filtered = filter_maps registry level (map ∷ maps) in
              get_elem? filtered (registry.pick filtered)
        ]
      ]
    ]
    else some course

abbrev pub current_type : Registry → List ℕ → ℕ
current_type registry [] = 0
current_type registry (t ∷ types) = elim (get_elem? (t ∷ types) (registry.pick (t ∷ types))) [
  | none ↦ 0
  | some type ↦ type
]

abbrev pub plus_offset : Registry → Position → Position → Position
plus_offset registry p offset =
    (registry.plus p.0 offset.0, registry.plus p.1 offset.1, registry.plus p.2 offset.2)

-- The items of one deck on the map. The second result tells that an exception ended the loop.
unfoldable pub spawn_deck :
    Registry
    → Position
    → (deck : ℕ) → (types : List ℕ) → List MapDeckItem
    → RaceTracker
    → RaceTracker × Bool
spawn_deck registry offset deck types [] t = (t, false)
spawn_deck registry offset deck types (i ∷ deck_items) t =
    let placed : RaceTracker × ℕ → RaceTracker = λ added. record added.0 {
      items =
          Dict.modify added.1
            (λ item. record item {
              item_types = types;
              current_type = current_type registry types;
              position = plus_offset registry i.position offset;
            })
            added.0.items;
    } in
    if i.deck_id == deck
    then elim (add_item t) [
      | none ↦ (t, true)
      | some added ↦ spawn_deck registry offset deck types deck_items (placed added)
    ]
    else spawn_deck registry offset deck types deck_items t

unfoldable pub spawn_decks : Registry → MapBlockInfo → List ℕ → RaceTracker → RaceTracker
spawn_decks registry map [] t = t
spawn_decks registry map (deck ∷ decks) t = elim (registry.deck_item_types deck) [
  | none ↦ t
  | some types ↦
      let spawned = spawn_deck registry map.offset deck types map.deck_items t in
      if spawned.1 then spawned.0 else spawn_decks registry map decks spawned.0
]

-- Its exceptions are caught.
unfoldable pub prepare_item_spawners : Registry → RaceInstance → RaceTracker → RaceTracker
prepare_item_spawners registry race t = elim (registry.game_mode_info race.race_game_mode) [
  | none ↦ t
  | some mode ↦ elim (registry.map_block_info race.race_map_block_id) [
    | none ↦ t
    | some map ↦ spawn_decks registry map mode.used_deck_item_ids t
  ]
]

abbrev pub racer_team : Team → TeamColor
racer_team Team.solo = TeamColor.solo
racer_team Team.red = TeamColor.red
racer_team Team.blue = TeamColor.blue

-- The player who has been added is set up, and what follows goes on with the tracker.
abbrev pub set_up : ℕ → Player → RaceTracker → RaceTracker
set_up uid p t = record t {
  racers =
      Dict.modify uid (λ r. record r { state = RacerState.loading; team = racer_team p.team })
        t.racers;
}

abbrev pub unless_threw :
    (RaceTracker → RaceTracker × Bool) → RaceTracker → Option (RaceTracker × ℕ) → RaceTracker × Bool
unless_threw rest t none = (t, true)
unless_threw rest t (some (added, oid)) = rest added

-- "Add the racers"; the second result tells that AddRacer has thrown.
unfoldable pub add_racers : Dict Player → RaceTracker → RaceTracker × Bool
add_racers [] t = (t, false)
add_racers ((uid, p) ∷ players) t =
    unless_threw (λ added. add_racers players (set_up uid p added)) t (add_racer uid t)

abbrev pub with_race : ℕ → RaceInstance → RaceDirector → RaceDirector
with_race room_uid race d = record d { race_instances = Dict.assign room_uid race d.race_instances }

-- The race takes the modes of its room.
abbrev pub take_modes : Room → RaceInstance → RaceInstance
take_modes room race = record race {
  race_game_mode = room.details.game_mode;
  race_team_mode = room.details.mode;
  race_mission_id = room.details.mission_id;
}

-- The tracker is cleared and filled again, and the race starts to load.
unfoldable pub begin_loading :
    Registry → (now room_uid : ℕ) → Room → RaceInstance → RaceDirector → Outcome
begin_loading registry now room_uid room race d =
    let countdown = broadcast (room_countdown race.race_map_block_id) race.clients in
    let spawned = prepare_item_spawners registry race (clear race.tracker) in
    let filled = add_racers room.players spawned in
    if filled.1
    then record {
      director = with_race room_uid (record race { tracker = filled.0 }) d;
      sent = countdown;
      threw = true;
    }
    else let loading = record race {
      tracker = filled.0;
      stage = Stage.loading;
      stage_timeout_time_point = now + seconds 30;
    } in
      done
        (record (with_race room_uid loading d) {
          room_system = record d.room_system {
            rooms = Dict.modify room_uid (set_room_playing true) d.room_system.rooms;
          };
        })
        countdown

-- The race begins to load on the map that is chosen, if one is.
abbrev pub load_map :
    Registry → (now room_uid : ℕ) → Room → RaceInstance → RaceDirector → Option ℕ → Outcome
load_map registry now room_uid room race d none = threw_at (with_race room_uid race d)
load_map registry now room_uid room race d (some map) =
    begin_loading registry now room_uid room (record race { race_map_block_id = map }) d

unfoldable pub start_race_in :
    Registry → (now client_id room_uid : ℕ) → Room → RaceInstance → RaceDirector → Outcome
start_race_in registry now client_id room_uid room race d = elim (refusal race.master_uid room) [
  | some reason ↦ done d ((client_id, start_race_cancel reason) ∷ [])
  | none ↦
      load_map registry now room_uid room (take_modes room race) d
        (choose_map registry race.master_uid room.details.course_id room.details.game_mode)
]

unfoldable pub handle_start_race : Registry → (now client_id : ℕ) → RaceDirector → Outcome
handle_start_race registry now client_id d = elim (get_client_context client_id true d) [
  | none ↦ threw_at d
  | some c ↦ elim (get_race_instance c false d) [
    | none ↦ threw_at d
    | some race ↦
        if c.character_uid == race.master_uid
        then elim (Dict.find c.room_uid d.room_system.rooms) [
          | none ↦ threw_at d
          | some room ↦ start_race_in registry now client_id c.room_uid room race d
        ]
        else threw_at d
  ]
]
