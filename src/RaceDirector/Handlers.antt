-- ===== src/RaceDirector/Handlers.antt =====
-- The handlers of server/race/RaceDirector by which clients come, get ready, race and leave. What a
-- message only copies from records is left out, but not that a record which cannot be read ends the
-- handler.
use alicia_server.Common.{
  ℕ, ◌-◌, ◌^◌, ◌%◌, Bool, true, false, ◌&&◌, Option, none, some, List, [], ◌∷◌, ◌++◌, ◌==◌,
  if◌then◌else◌, is_some,
}
use alicia_server.Common.Dict
use alicia_server.Common.Dict.{Dict}
use alicia_server.Otp.{authorize_code}
use alicia_server.Tracker.Race.{RacerState, Racer, TeamColor, get_racer}
use alicia_server.Room.{
  Room, Player, Team, toggle_ready, set_team, add_player, remove_player, get_player, update_player,
}
use alicia_server.RaceDirector.{
  is_waiting, RaceInstance, RaceDirector, ClientContext, Message, Sent, Outcome, new_race,
  new_client, invalid_uid, threw_at, done, broadcast, get_client_context, get_race_instance,
  loading_complete, user_race_final, race_delete, leave_room_notify, leave_room_ok, change_master,
  enter_room_ok, enter_room_cancel, enter_room_notify, ready_race, change_team_ok,
  change_team_notify,
}
use alicia_server.RaceDirector.Registry.{Registry}

abbrev pub put_race : ℕ → RaceInstance → RaceDirector → RaceDirector
put_race room_uid race d = record d { race_instances = Dict.assign room_uid race d.race_instances }

abbrev pub put_racer : ℕ → (Racer → Racer) → RaceInstance → RaceInstance
put_racer uid f race = record race {
  tracker = record race.tracker { racers = Dict.modify uid f race.tracker.racers };
}

unfoldable pub handle_client_connected : ℕ → RaceDirector → RaceDirector
handle_client_connected client_id d = record d {
  clients = Dict.try_emplace client_id new_client d.clients;
}

-- The clients of a race other than one.
abbrev pub others : ℕ → Dict (Unit {0}) → Dict (Unit {0})
others client_id clients = Dict.erase client_id clients

-- AcCmdCREnterRoom
pub record EnterRoom : Type 0 where
  pub character_uid : ℕ
  pub room_uid : ℕ
  pub one_time_password : ℕ

-- Whether the record of every player of the room can be read, for the message to the client.
unfoldable pub all_readable : Registry → Dict Player → Bool
all_readable registry [] = true
all_readable registry ((uid, p) ∷ players) =
    is_some (registry.character_level uid) && all_readable registry players

-- The client comes into the race of the room, a new one if there was none.
unfoldable pub join_race : Registry → ℕ → EnterRoom → Dict Player → RaceDirector → Outcome
join_race registry client_id c players d =
    let clients =
      Dict.modify client_id
        (λ x. record x { character_uid = c.character_uid; room_uid = c.room_uid }) d.clients in
    let race : RaceInstance = elim (Dict.find c.room_uid d.race_instances) [
      | none ↦ record new_race { master_uid = c.character_uid }
      | some there ↦ there
    ] in
    let joined = put_race c.room_uid race (record d { clients = clients }) in
    if is_some (registry.character_level c.character_uid) && all_readable registry players
    then done
        (put_race c.room_uid (record race { clients = Dict.try_emplace client_id tt race.clients })
          joined)
        ((client_id, enter_room_ok (is_waiting race.stage))
          ∷ broadcast (enter_room_notify c.character_uid) race.clients)
    else threw_at joined

-- Whether the client was let into the room by AddPlayer.
abbrev pub enter : Registry → ℕ → EnterRoom → RaceDirector → Room × Bool → Outcome
enter registry client_id c d (room, true) = join_race registry client_id c room.players (record d {
  room_system = record d.room_system { rooms = Dict.assign c.room_uid room d.room_system.rooms };
})
enter registry client_id c d (room, false) = done d ((client_id, enter_room_cancel) ∷ [])

-- `identity_hash` is the hash of the standard library and of Boost, `coin` is `std::rand()`. A room
-- that is not there ends the handler for a client that is authenticated, before it is tested for.
unfoldable pub handle_enter_room :
    Registry
    → (identity_hash : ℕ → ℕ → ℕ) → (now coin client_id : ℕ) → EnterRoom
    → RaceDirector
    → Outcome
handle_enter_room registry identity_hash now coin client_id c d =
    let otp =
      authorize_code now (identity_hash c.character_uid c.room_uid) c.one_time_password true
        d.otp_system in
    let known = record d {
      clients =
          Dict.modify client_id (λ x. record x { is_authenticated = otp.1 })
            (Dict.try_emplace client_id new_client d.clients);
      otp_system = otp.0;
    } in
    if otp.1
    then elim (Dict.find c.room_uid d.room_system.rooms) [
      | none ↦ threw_at known
      | some room ↦ enter registry client_id c known (add_player coin c.character_uid room)
    ]
    else done known ((client_id, enter_room_cancel) ∷ [])

-- The racer who leaves is disconnected, and the others are told.
unfoldable pub drop_racer : (client_id character_uid : ℕ) → RaceInstance → RaceInstance × List Sent
drop_racer client_id character_uid race = elim (get_racer character_uid race.tracker) [
  | none ↦ (race, [])
  | some racer ↦ (
    put_racer character_uid (λ r. record r { state = RacerState.disconnected }) race,
    broadcast (race_delete racer.oid) (others client_id race.clients),
  )
]

-- "Try to find the next master": while the room is waiting, of the players who are left, otherwise of
-- the racers.
unfoldable pub next_master : RaceInstance → Room → Option ℕ
next_master race room =
    if is_waiting race.stage
    then Dict.first_key room.players
    else Dict.first_key (Dict.in_order race.tracker.racers)

-- The master's place is passed on if it was the master who left; UID 0 is nobody.
abbrev pub pass_on : Option ℕ → RaceInstance → RaceInstance × List Sent
pass_on none race = (race, [])
pass_on (some uid) race =
    if uid == invalid_uid
    then (race, [])
    else (record race { master_uid = uid }, broadcast (change_master uid) race.clients)

unfoldable pub pass_mastership : ℕ → Room → RaceInstance → RaceInstance × List Sent
pass_mastership character_uid room race =
    if race.master_uid == character_uid then pass_on (next_master race room) race else (race, [])

abbrev pub is_empty : Dict (Unit {0}) → Bool
is_empty [] = true
is_empty (_ ∷ _) = false

abbrev pub leave_context : ℕ → RaceDirector → RaceDirector
leave_context client_id d = record d {
  clients = Dict.modify client_id (λ x. record x { room_uid = invalid_uid }) d.clients;
}

-- The race and its room go with the last client.
unfoldable pub close_if_empty : ℕ → RaceInstance → RaceDirector → RaceDirector
close_if_empty room_uid race d =
    if is_empty race.clients
    then record d {
      race_instances = Dict.erase room_uid d.race_instances;
      room_system = record d.room_system { rooms = Dict.erase room_uid d.room_system.rooms };
    }
    else put_race room_uid race d

unfoldable pub leave_race : ℕ → ClientContext → RaceInstance → Room → RaceDirector → Outcome
leave_race client_id c race room d =
    let dropped = drop_racer client_id c.character_uid race in
    let without = record dropped.0 { clients = Dict.erase client_id dropped.0.clients } in
    let room_left = remove_player c.character_uid room in
    let passed = pass_mastership c.character_uid room_left without in
    let rooms = record d.room_system {
      rooms = Dict.assign c.room_uid room_left d.room_system.rooms;
    } in
    done
      (leave_context client_id
        (close_if_empty c.room_uid passed.0 (record d { room_system = rooms })))
      (dropped.1
        ++ (broadcast (leave_room_notify c.character_uid) without.clients
            ++ (passed.1 ++ ((client_id, leave_room_ok) ∷ []))))

-- A room that is gone ends the handler when the client has been taken out of the race.
abbrev pub leave_missing_room : ℕ → ClientContext → RaceInstance → RaceDirector → Outcome
leave_missing_room client_id c race d =
    let dropped = drop_racer client_id c.character_uid race in
    record {
      director =
          put_race c.room_uid
            (record dropped.0 { clients = Dict.erase client_id dropped.0.clients }) d;
      sent = dropped.1;
      threw = true;
    }

unfoldable pub handle_leave_room : Registry → ℕ → RaceDirector → Outcome
handle_leave_room registry client_id d = elim (get_client_context client_id true d) [
  | none ↦ threw_at d
  | some c ↦ if c.room_uid == 0 then done d [] else elim (get_race_instance c false d) [
    | none ↦ threw_at d
    | some race ↦
        if is_some (registry.character_level c.character_uid)
        then elim (Dict.find c.room_uid d.room_system.rooms) [
          | none ↦ leave_missing_room client_id c race d
          | some room ↦ leave_race client_id c race room d
        ]
        else threw_at d
  ]
]

-- An exception of HandleLeaveRoom passes through, and the client stays.
unfoldable pub handle_client_disconnected : Registry → ℕ → RaceDirector → Outcome
handle_client_disconnected registry client_id d = elim (get_client_context client_id false d) [
  | none ↦ threw_at d
  | some c ↦
      let left =
        if c.is_authenticated && is_some (Dict.find c.room_uid d.race_instances)
        then handle_leave_room registry client_id d
        else done d [] in
      if left.threw then left else record left {
        director = record left.director { clients = Dict.erase client_id left.director.clients };
      }
]

unfoldable pub handle_ready_race : ℕ → RaceDirector → Outcome
handle_ready_race client_id d = elim (get_client_context client_id true d) [
  | none ↦ threw_at d
  | some c ↦ elim (Dict.find c.room_uid d.room_system.rooms) [
    | none ↦ threw_at d
    | some room ↦ elim (get_player c.character_uid room) [
      | none ↦ threw_at d
      | some player ↦
          let toggled = toggle_ready player in
          let changed = record d {
            room_system = record d.room_system {
              rooms =
                  Dict.assign c.room_uid (update_player c.character_uid (λ _. toggled.0) room)
                    d.room_system.rooms;
            };
          } in
          elim (get_race_instance c false d) [
            | none ↦ threw_at changed
            | some race ↦
                done changed (broadcast (ready_race c.character_uid toggled.1) race.clients)
          ]
    ]
  ]
]

abbrev pub room_team : TeamColor → Team → Team
room_team TeamColor.solo team = team
room_team TeamColor.red team = Team.red
room_team TeamColor.blue team = Team.blue

-- AcCmdCRChangeTeam names a player by its character UID. The team is changed before the stage is
-- looked at.
unfoldable pub handle_change_team :
    (client_id character_uid : ℕ) → TeamColor → RaceDirector → Outcome
handle_change_team client_id character_uid color d = elim (get_client_context client_id true d) [
  | none ↦ threw_at d
  | some c ↦ elim (Dict.find c.room_uid d.room_system.rooms) [
    | none ↦ threw_at d
    | some room ↦ elim (get_player character_uid room) [
      | none ↦ threw_at d
      | some player ↦
          let changed = record d {
            room_system = record d.room_system {
              rooms =
                  Dict.assign c.room_uid
                    (update_player character_uid (λ p. set_team (room_team color p.team) p) room)
                    d.room_system.rooms;
            };
          } in
          elim (get_race_instance c false d) [
            | none ↦ threw_at changed
            | some race ↦
                if is_waiting race.stage
                then done changed (
                    (client_id, change_team_ok character_uid color)
                    ∷ broadcast (change_team_notify character_uid color)
                        (others client_id race.clients))
                else done changed []
          ]
    ]
  ]
]

-- A command of a racer: it changes the racer, and all clients of the race are told.
abbrev pub racer_command : ℕ → (Racer → Racer) → (Racer → Message) → RaceDirector → Outcome
racer_command client_id f message d = elim (get_client_context client_id true d) [
  | none ↦ threw_at d
  | some c ↦ elim (get_race_instance c true d) [
    | none ↦ threw_at d
    | some race ↦ elim (get_racer c.character_uid race.tracker) [
      | none ↦ threw_at d
      | some racer ↦
          done (put_race c.room_uid (put_racer c.character_uid f race) d)
            (broadcast (message racer) race.clients)
    ]
  ]
]

unfoldable pub handle_loading_complete : ℕ → RaceDirector → Outcome
handle_loading_complete client_id d =
    racer_command client_id (λ r. record r { state = RacerState.racing })
      (λ r. loading_complete r.oid) d

-- `member3` is a float: its sign is given. The course time is cut to 32 bits, and -1 is the greatest
-- of them.
pub data Sign : Type 0 where
  negative null positive : Sign

abbrev pub final_time : Sign → ℕ → ℕ
final_time positive course_time = 2 ^ 32 - 1
final_time _ course_time = course_time % 2 ^ 32

-- The time that the others are told is another: only a negative `member3` lets it through.
abbrev pub told_time : Sign → ℕ → ℕ
told_time negative course_time = course_time
told_time _ course_time = 2 ^ 32 - 1

unfoldable pub handle_user_race_final : ℕ → Sign → (course_time : ℕ) → RaceDirector → Outcome
handle_user_race_final client_id member3 course_time d =
    racer_command client_id
      (λ r. record r { state = RacerState.finishing; course_time = final_time member3 course_time })
      (λ r. user_race_final r.oid (told_time member3 course_time)) d
