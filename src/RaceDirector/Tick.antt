-- ===== src/RaceDirector/Tick.antt =====
-- RaceDirector::Tick, after the tick of its scheduler, whose tasks are not modelled and whose
-- exceptions are only logged: the loops over the races that are loading, racing and finishing. The clock is
-- read where a loop tests a time-out and again where it sets one: `now` and `later`.
use alicia_server.Common.{
  ℕ, ◌+◌, ◌-◌, ◌^◌, Bool, true, false, not, ◌&&◌, ◌||◌, Option, none, some, List, [], ◌∷◌, ◌++◌,
  ltb, leb, ◌==◌, if◌then◌else◌, is_some,
}
use alicia_server.Common.Dict
use alicia_server.Common.Dict.{Dict}
use alicia_server.Tracker.Race.{RaceTracker, RacerState, Racer, is_racer}
use alicia_server.Room.{Room, Player, set_ready, set_room_playing}
use alicia_server.Room.Registry.{RoomSystem, get_room}
use alicia_server.RaceDirector.{
  Stage, RaceInstance, RaceDirector, Score, Sent, Outcome, seconds, broadcast, race_countdown,
  race_final, race_result, get_client_context,
}
use alicia_server.RaceDirector.Registry.{Registry, MapBlockInfo}

abbrev pub is_disconnected : RacerState → Bool
is_disconnected RacerState.disconnected = true
is_disconnected _ = false

abbrev pub is_racing : RacerState → Bool
is_racing RacerState.racing = true
is_racing _ = false

abbrev pub is_finishing : RacerState → Bool
is_finishing RacerState.finishing = true
is_finishing _ = false

unfoldable pub all_racers : (RacerState → Bool) → Dict Racer → Bool
all_racers test [] = true
all_racers test ((uid, r) ∷ racers) = test r.state && all_racers test racers

unfoldable pub any_racer : (RacerState → Bool) → Dict Racer → Bool
any_racer test [] = false
any_racer test ((uid, r) ∷ racers) = test r.state || any_racer test racers

-- What one round of a loop leaves.
pub record Turn : Type 0 where
  pub race : RaceInstance
  pub rooms : RoomSystem
  pub sent : List Sent
  pub threw : Bool

abbrev pub unchanged : RaceInstance → RoomSystem → Turn
unchanged race rooms = record { race = race; rooms = rooms; sent = []; threw = false }

-- "For now just consider them disconnected."
unfoldable pub disconnect_absent : Dict Racer → Dict Racer
disconnect_absent [] = []
disconnect_absent ((uid, r) ∷ racers) =
    (uid, if is_racing r.state then r else record r { state = RacerState.disconnected })
    ∷ disconnect_absent racers

abbrev pub with_racers : Dict Racer → RaceInstance → RaceInstance
with_racers racers race = record race { tracker = record race.tracker { racers = racers } }

-- The switch to the racing stage, once the map is found.
abbrev pub start_racing : (later : ℕ) → RaceInstance → RoomSystem → Option MapBlockInfo → Turn
start_racing later race rooms none = record { race = race; rooms = rooms; sent = []; threw = true }
start_racing later race rooms (some map) =
    let start = later + seconds map.wait_time in
    record {
      race = record race {
        stage = Stage.racing;
        stage_timeout_time_point = later + seconds map.time_limit;
        race_start_time_point = start;
      };
      rooms = rooms;
      sent = broadcast (race_countdown start) race.clients;
      threw = false;
    }

abbrev pub loads_on : RacerState → Bool
loads_on s = is_racing s || is_disconnected s

unfoldable pub tick_loading : Registry → (now later : ℕ) → RaceInstance → RoomSystem → Turn
tick_loading registry now later race rooms = elim race.stage [
  | Stage.loading ↦
      let all_racers_loaded = all_racers loads_on race.tracker.racers in
      let load_timeout_reached = leb race.stage_timeout_time_point now in
      if not all_racers_loaded && not load_timeout_reached
      then unchanged race rooms
      else start_racing later (with_racers (disconnect_absent race.tracker.racers) race) rooms
          (registry.map_block_info race.race_map_block_id)
  | _ ↦ unchanged race rooms
]

-- The clients who take part are told that the time is over.
unfoldable pub notify_final : RaceDirector → RaceTracker → Dict (Unit {0}) → List Sent
notify_final d tracker [] = []
notify_final d tracker ((client_id, _) ∷ clients) =
    let rest = notify_final d tracker clients in
    elim (get_client_context client_id true d) [
      | none ↦ rest
      | some c ↦ if is_racer c.character_uid tracker then (client_id, race_final) ∷ rest else rest
    ]

unfoldable pub tick_racing : RaceDirector → (now later : ℕ) → RaceInstance → RoomSystem → Turn
tick_racing d now later race rooms = elim race.stage [
  | Stage.racing ↦
      let race_timeout_reached = leb race.stage_timeout_time_point now in
      let is_race_finishing = any_racer is_finishing race.tracker.racers in
      if not is_race_finishing && not race_timeout_reached then unchanged race rooms else record {
        race = record race {
          stage = Stage.finishing;
          stage_timeout_time_point = later + seconds 15;
        };
        rooms = rooms;
        sent = if race_timeout_reached then notify_final d race.tracker race.clients else [];
        threw = false;
      }
  | _ ↦ unchanged race rooms
]

-- `try_emplace` into the std::map of the score board, which is sorted by course time.
unfoldable pub emplace_time : (course_time uid : ℕ) → List (ℕ × ℕ) → List (ℕ × ℕ)
emplace_time course_time uid [] = (course_time, uid) ∷ []
emplace_time course_time uid ((t, u) ∷ board) =
    let rest = emplace_time course_time uid board in
    if ltb course_time t
    then (course_time, uid) ∷ (t, u) ∷ board
    else if course_time == t
    then (t, u) ∷ board
    else (t, u) ∷ rest

abbrev pub max_u32 : ℕ
max_u32 = 2 ^ 32 - 1

-- The time by which a racer is put on the board.
abbrev pub board_time : Racer → ℕ
board_time r = if is_disconnected r.state then max_u32 else r.course_time

unfoldable pub fill_scoreboard : Dict Racer → List (ℕ × ℕ) → List (ℕ × ℕ)
fill_scoreboard [] board = board
fill_scoreboard ((uid, r) ∷ racers) board =
    fill_scoreboard racers (emplace_time (board_time r) uid board)

abbrev pub is_connected : Option Racer → Bool
is_connected none = false
is_connected (some r) = not (is_disconnected r.state)

-- "Build the score board"; the second result tells whether every record could be read.
unfoldable pub build_scores : Registry → Dict Racer → List (ℕ × ℕ) → List Score × Bool
build_scores registry racers [] = ([], true)
build_scores registry racers ((t, uid) ∷ board) =
    let rest = build_scores registry racers board in
    (
      record { uid = uid; course_time = t; is_connected = is_connected (Dict.find uid racers) }
          ∷ rest.0,
      is_some (registry.character_level uid) && rest.1,
    )

-- "Clear the ready state of all of the players."
unfoldable pub clear_ready : Dict Player → Dict Player
clear_ready [] = []
clear_ready ((uid, p) ∷ players) = (uid, set_ready false p) ∷ clear_ready players

unfoldable pub end_race_of : Room → Room
end_race_of room =
    let stopped = set_room_playing false room in
    record stopped { players = clear_ready stopped.players }

-- The race returns to the waiting room; `none` is a room that is gone.
abbrev pub end_race : RaceInstance → RoomSystem → List Sent → Option RoomSystem → Turn
end_race race rooms sent none = record {
  race = record race { stage = Stage.waiting };
  rooms = rooms;
  sent = sent;
  threw = true;
}
end_race race rooms sent (some changed) = record {
  race = record race { stage = Stage.waiting };
  rooms = changed;
  sent = sent;
  threw = false;
}

abbrev pub ends_on : RacerState → Bool
ends_on s = is_finishing s || is_disconnected s

unfoldable pub tick_finishing : Registry → (now race_uid : ℕ) → RaceInstance → RoomSystem → Turn
tick_finishing registry now race_uid race rooms = elim race.stage [
  | Stage.finishing ↦
      let all_racers_finished = all_racers ends_on race.tracker.racers in
      let finish_timeout_reached = leb race.stage_timeout_time_point now in
      if not all_racers_finished && not finish_timeout_reached
      then unchanged race rooms
      else let scores =
          build_scores registry race.tracker.racers
            (fill_scoreboard (Dict.in_order race.tracker.racers) []) in
        if scores.1
        then end_race race rooms (broadcast (race_result scores.0) race.clients)
            (get_room race_uid end_race_of rooms)
        else record { race = race; rooms = rooms; sent = []; threw = true }
  | _ ↦ unchanged race rooms
]

-- A loop over the races, which an exception ends.
pub record Pass : Type 0 where
  pub races : Dict RaceInstance
  pub pass_rooms : RoomSystem
  pub pass_sent : List Sent
  pub pass_threw : Bool

unfoldable pub for_races :
    (ℕ → RaceInstance → RoomSystem → Turn) → Dict RaceInstance → RoomSystem → Pass
for_races body [] rooms = record {
  races = [];
  pass_rooms = rooms;
  pass_sent = [];
  pass_threw = false;
}
for_races body ((uid, race) ∷ races) rooms =
    let turn = body uid race rooms in
    let rest = for_races body races turn.rooms in
    if turn.threw
    then record {
      races = (uid, turn.race) ∷ races;
      pass_rooms = turn.rooms;
      pass_sent = turn.sent;
      pass_threw = true;
    }
    else record {
      races = (uid, turn.race) ∷ rest.races;
      pass_rooms = rest.pass_rooms;
      pass_sent = turn.sent ++ rest.pass_sent;
      pass_threw = rest.pass_threw;
    }

-- One loop of Tick, after what came before it.
unfoldable pub then_for_races :
    (RaceDirector → ℕ → RaceInstance → RoomSystem → Turn) → Outcome → Outcome
then_for_races body before =
    if before.threw
    then before
    else let d = before.director in
      let pass = for_races (body d) d.race_instances d.room_system in
      record {
        director = record d { race_instances = pass.races; room_system = pass.pass_rooms };
        sent = before.sent ++ pass.pass_sent;
        threw = pass.pass_threw;
      }

unfoldable pub tick : Registry → (now later : ℕ) → RaceDirector → Outcome
tick registry now later d =
    then_for_races (λ _ uid. tick_finishing registry now uid)
      (then_for_races (λ d' _. tick_racing d' now later)
        (then_for_races (λ _ _. tick_loading registry now later)
          (record { director = d; sent = []; threw = false })))
