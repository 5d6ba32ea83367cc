-- ===== src/RaceDirector/Examples.antt =====
-- A concrete race.
use alicia_server.Common.{
  ℕ, ◌≡◌, ◌⊎◌, ◌↔◌, refl, true, false, Option, none, some, List, [], ◌∷◌, arith, ◌+◌, ◌-◌, ◌^◌, ◌≤◌,
}
use alicia_server.Common.Dict
use alicia_server.Common.Dict.{Dict}
use alicia_server.Room as Rooms
use alicia_server.Room.{
  Room, Player, TeamMode, is_red, is_blue, is_team_mode, team_count, remove_player,
}
use alicia_server.Room.Registry.{new_details}
use alicia_server.Tracker.Race.{is_racer, Racer, RacerState, new_racer, new_tracker, get_racer}
use alicia_server.RaceDirector.{
  get_client_context, get_race_instance, Stage, RaceInstance, RaceDirector, ClientContext, new_race,
}
use alicia_server.RaceDirector.Registry.{Registry, MapBlockInfo}
use alicia_server.RaceDirector.Tick.{
  for_races, then_for_races, tick, tick_loading, tick_racing, tick_finishing, all_racers, any_racer,
  disconnect_absent, fill_scoreboard,
}
use alicia_server.RaceDirector.Start.{refusal}
use alicia_server.RaceDirector.Handlers.{
  handle_loading_complete, handle_leave_room, leave_race, drop_racer, next_master, pass_mastership,
  close_if_empty,
}
use alicia_server.RaceDirector.Board.{IsAscending, first_at, find-fill_scoreboard}
use alicia_server.RaceDirector.Served.{IsServed}
use alicia_server.RaceDirector.Loops.{left_at}
use alicia_server.RaceDirector.Ending.{
  Event, ticks, loads, leaves, happen_all, happen, late_ticks, IsOver, happen_all-IsOver,
}
use alicia_server.RaceDirector.Stages.{Advanced, tick-Advanced}
use alicia_server.RaceDirector.Starts.{AllReady, refusal-none}
use alicia_server.RaceDirector.Masters.{pass_mastership-contains, leave_race-master}

abbrev course : MapBlockInfo
course = record {
  required_level = 1;
  time_limit = 300;
  wait_time = 5;
  offset = (0, 0, 0);
  deck_items = [];
}

abbrev registry : Registry
registry = record {
  map_block_info = λ _. some course;
  game_mode_info = λ _. none;
  deck_item_types = λ _. none;
  character_level = λ _. some 7;
  plus = λ _ _. 0;
  pick = λ _. 0;
}

abbrev racer : ℕ → RacerState → Racer
racer oid state = record new_racer { oid = oid; state = state }

abbrev both : Dict Racer
both = (11, racer 1 RacerState.loading) ∷ (12, racer 2 RacerState.racing) ∷ []

abbrev race : RaceInstance
race = record new_race {
  stage = Stage.loading;
  stage_timeout_time_point = 100;
  master_uid = 11;
  tracker = record new_tracker { racers = both };
  clients = (1, tt) ∷ (2, tt) ∷ [];
}

abbrev room : Room
room = record {
  details = new_details;
  uid = 5;
  queued_players = [];
  players =
      (11, record { is_ready = false; team = Rooms.solo })
      ∷ (12, record { is_ready = true; team = Rooms.solo })
      ∷ [];
  is_playing = false;
}

abbrev context : ClientContext
context = record { character_uid = 11; room_uid = 5; is_authenticated = true }

abbrev director : RaceDirector
director = record {
  clients = (1, context) ∷ [];
  race_instances = (5, race) ∷ [];
  room_system = record { sequenced_id = 5; rooms = (5, room) ∷ [] };
  otp_system = [];
}

tick-Advanced_example : Advanced 5 race (tick registry 100 101 director).director
unfolding Dict.find
tick-Advanced_example = tick-Advanced registry 100 101 5 director race refl

-- A racer loads, three ticks come late, and the racer leaves between them.
abbrev events : List Event
events =
    loads 1
    ∷ ticks 200 201
    ∷ leaves 1
    ∷ ticks (10 ^ 12) (10 ^ 12 + 1)
    ∷ ticks (10 ^ 13) (10 ^ 13 + 1)
    ∷ []

three_late : late_ticks registry 5 events director ≡ 3
unfolding late_ticks happen handle_loading_complete handle_leave_room leave_race close_if_empty
    pass_mastership next_master drop_racer get_racer get_client_context get_race_instance tick
    is_racer remove_player for_races then_for_races tick_loading tick_racing tick_finishing
    all_racers any_racer disconnect_absent Dict.find Dict.modify Dict.assign Dict.erase
    Dict.in_order Dict.insert_ordered
three_late = refl

events_late : left_at 5 director ≤ late_ticks registry 5 events director
unfolding Dict.find
events_late = omega (arith, three_late)

director-IsServed : IsServed registry director
unfolding Dict.find
director-IsServed = (refl, refl, tt)

happen_all-IsOver_example :
    IsOver (Dict.find 5 (happen_all registry events director).race_instances)
happen_all-IsOver_example =
    happen_all-IsOver registry (λ c. refl) 5 events director director-IsServed events_late

find-fill_scoreboard_example :
    IsAscending (fill_scoreboard both [])
    × (Dict.find (2 ^ 31 - 1) (fill_scoreboard both []) ≡ first_at (2 ^ 31 - 1) both)
find-fill_scoreboard_example = find-fill_scoreboard both (2 ^ 31 - 1)

refusal-none_example : (refusal 11 room ≡ none) ↔ (
    AllReady 11 room.players
    × ((is_team_mode room.details.mode ≡ false)
        ⊎ (team_count is_red room.players ≡ team_count is_blue room.players)))
refusal-none_example = refusal-none 11 room

abbrev waiting_race : RaceInstance
waiting_race = record race { stage = Stage.waiting }

is_player : Dict.contains 11 room.players ≡ true
unfolding Dict.find
is_player = refl

nobody : Dict.contains 0 room.players ≡ false
unfolding Dict.find
nobody = refl

pass_mastership-contains_example :
    ((remove_player 11 room).players ≡ [])
    ⊎ (Dict.contains
          (pass_mastership 11 (remove_player 11 room) waiting_race).0.master_uid
          (remove_player 11 room).players
        ≡ true)
pass_mastership-contains_example =
    pass_mastership-contains 11 room waiting_race refl is_player nobody

abbrev or_race : Option RaceInstance → RaceInstance
or_race none = race
or_race (some r) = r

abbrev race_left : RaceInstance
race_left = or_race (Dict.find 5 (leave_race 1 context race room director).director.race_instances)

race_stays :
    Dict.find 5 (leave_race 1 context race room director).director.race_instances ≡ some race_left
unfolding leave_race drop_racer next_master pass_mastership close_if_empty remove_player get_racer
    Dict.find Dict.erase Dict.modify Dict.assign Dict.in_order Dict.insert_ordered
race_stays = refl

first_racer : Dict.first_key (Dict.in_order both) ≡ some 11
unfolding Dict.in_order Dict.insert_ordered
first_racer = refl

leave_race-master_example :
    (race_left.master_uid ≡ 11) × (Dict.contains 1 race_left.clients ≡ false)
leave_race-master_example =
    leave_race-master 1 context race race_left room director refl refl first_racer race_stays
