-- ===== src/RaceDirector.antt =====
-- server/race/RaceDirector: the race of a room, from the waiting room over loading and racing back to
-- it. Of the messages to clients, those that tell how a race goes are modelled. A time point is a
-- number of nanoseconds of the steady clock.
pub mod Registry
pub mod Tick
pub mod Start
pub mod Handlers
pub mod Board
pub mod Passing
pub mod Loops
pub mod Served
pub mod Whole
pub mod Leaving
pub mod Ending
pub mod Stages
pub mod Starts
pub mod Masters
mod Examples
use alicia_server.Common.{
  ℕ, ◌*◌, ◌^◌, Bool, true, false, Option, none, some, List, [], ◌∷◌, ◌++◌, map, if◌then◌else◌, ◌==◌,
}
use alicia_server.Common.Dict
use alicia_server.Common.Dict.{Dict}
use alicia_server.Room.{TeamMode, ffa}
use alicia_server.Room.Registry.{RoomSystem}
use alicia_server.Otp.{OtpSystem}
use alicia_server.Tracker.Race.{RaceTracker, RacerState, Racer, TeamColor, new_tracker, is_racer}

-- RaceInstance::Stage
pub data Stage : Type 0 where
  waiting loading racing finishing : Stage

abbrev pub is_waiting : Stage → Bool
is_waiting waiting = true
is_waiting _ = false

abbrev pub seconds : ℕ → ℕ
seconds n = n * 10 ^ 9

-- data::InvalidUid
abbrev pub invalid_uid : ℕ
invalid_uid = 0

-- RaceInstance; `clients` is a set.
pub record RaceInstance : Type 0 where
  pub stage : Stage
  pub stage_timeout_time_point : ℕ
  pub master_uid : ℕ
  pub tracker : RaceTracker
  pub race_game_mode : ℕ
  pub race_team_mode : TeamMode
  pub race_map_block_id : ℕ
  pub race_mission_id : ℕ
  pub race_start_time_point : ℕ
  pub clients : Dict (Unit {0})

abbrev pub new_race : RaceInstance
new_race = record {
  stage = waiting;
  stage_timeout_time_point = 0;
  master_uid = invalid_uid;
  tracker = new_tracker;
  race_game_mode = 0;
  race_team_mode = ffa;
  race_map_block_id = 0;
  race_mission_id = 0;
  race_start_time_point = 0;
  clients = [];
}

pub record ClientContext : Type 0 where
  pub character_uid : ℕ
  pub room_uid : ℕ
  pub is_authenticated : Bool

abbrev pub new_client : ClientContext
new_client = record {
  character_uid = invalid_uid;
  room_uid = invalid_uid;
  is_authenticated = false;
}

-- A line of the score board.
pub record Score : Type 0 where
  pub uid : ℕ
  pub course_time : ℕ
  pub is_connected : Bool

-- AcCmdCRStartRaceCancel::Reason, as far as it is used.
pub data Reason : Type 0 where
  not_ready not_team_balance : Reason

-- What is queued for a client.
pub data Message : Type 0 where
  race_countdown : (start : ℕ) → Message
  race_final : Message
  race_result : List Score → Message
  room_countdown : (map_block_id : ℕ) → Message
  start_race_cancel : Reason → Message
  loading_complete : (oid : ℕ) → Message
  user_race_final : (oid course_time : ℕ) → Message
  race_delete : (oid : ℕ) → Message
  leave_room_notify : (character_uid : ℕ) → Message
  leave_room_ok enter_room_cancel : Message
  change_master : (master_uid : ℕ) → Message
  enter_room_ok : (is_room_waiting : Bool) → Message
  enter_room_notify : (character_uid : ℕ) → Message
  ready_race : (character_uid : ℕ) → (is_ready : Bool) → Message
  change_team_ok change_team_notify : (character_uid : ℕ) → TeamColor → Message

-- A client and what it is sent.
abbrev pub Sent : Type 0
Sent = ℕ × Message

unfoldable pub broadcast : Message → Dict (Unit {0}) → List Sent
broadcast message [] = []
broadcast message ((client_id, _) ∷ clients) = (client_id, message) ∷ broadcast message clients

-- The director, with the systems of the server instance that it uses.
pub record RaceDirector : Type 0 where
  pub clients : Dict ClientContext
  pub race_instances : Dict RaceInstance
  pub room_system : RoomSystem
  pub otp_system : OtpSystem

-- `none` is an exception: the client is not there, or not authenticated although it has to be.
unfoldable pub get_client_context :
    ℕ → (require_authorized : Bool) → RaceDirector → Option ClientContext
get_client_context client_id require_authorized d = elim (Dict.find client_id d.clients) [
  | none ↦ none
  | some c ↦ if require_authorized then (if c.is_authenticated then some c else none) else some c
]

-- `none` is an exception: no room, no race of the room, or no racer although one is asked for.
unfoldable pub get_race_instance :
    ClientContext → (check_racer : Bool) → RaceDirector → Option RaceInstance
get_race_instance c check_racer d =
    if c.room_uid == invalid_uid then none else elim (Dict.find c.room_uid d.race_instances) [
      | none ↦ none
      | some race ↦
          if check_racer
          then (if is_racer c.character_uid race.tracker then some race else none)
          else some race
    ]

-- What a handler leaves: the director, what it has sent, and whether it ended by an exception.
pub record Outcome : Type 0 where
  pub director : RaceDirector
  pub sent : List Sent
  pub threw : Bool

abbrev pub threw_at : RaceDirector → Outcome
threw_at d = record { director = d; sent = []; threw = true }

abbrev pub done : RaceDirector → List Sent → Outcome
done d sent = record { director = d; sent = sent; threw = false }

abbrev pub is_room_racing : ℕ → RaceDirector → Bool
is_room_racing uid d = elim (Dict.find uid d.race_instances) [
  | none ↦ false
  | some race ↦ elim race.stage [ loading ↦ true | racing ↦ true | _ ↦ false ]
]
