-- ===== src/Room/Examples.antt =====
-- Rooms with a few players.
use alicia_server.Common.{◌≡◌, refl, false, List, [], ◌∷◌, arith}
use alicia_server.Common.Dict
use alicia_server.Room.{Room, Team, team_mode, new_player, add_player, choose_team, team_count}
use alicia_server.Room.Capacity.{
  IsValid, queue, add, remove, run, run-IsValid, IsBalanced, add_player-IsBalanced,
}
use alicia_server.Room.Registry.{
  RoomSystem, new_details, IsSequenced, Call, creates, visits, deletes, run_calls,
  run_calls-RisesFrom, RisesFrom,
}

-- A team game for three players, with one of them in it and another queued.
abbrev team_room : Room
team_room = record {
  details = record new_details { max_player_count = 3; mode = team_mode };
  uid = 1;
  queued_players = (8, tt) ∷ [];
  players = (7, record new_player { team = Team.red }) ∷ [];
  is_playing = false;
}

team_room-IsValid : IsValid team_room
unfolding Dict.find
team_room-IsValid = record { unique = (refl, tt); unique_queue = (refl, tt); bounded = omega arith }

run-IsValid_example :
    IsValid (run (queue 9 ∷ add 0 9 ∷ add 1 8 ∷ add 1 5 ∷ remove 7 ∷ []) team_room)
run-IsValid_example =
    run-IsValid (queue 9 ∷ add 0 9 ∷ add 1 8 ∷ add 1 5 ∷ remove 7 ∷ []) team_room team_room-IsValid

add_player-IsBalanced_example : IsBalanced (add_player 1 8 team_room).0.players
unfolding team_count
add_player-IsBalanced_example = add_player-IsBalanced 1 8 team_room refl (omega arith, omega arith)

-- The newcomer joins the smaller team.
joins_blue : choose_team 0 team_room ≡ Team.blue
unfolding choose_team team_count
joins_blue = refl

-- A registry with one room.
abbrev one_room : RoomSystem
one_room = record { sequenced_id = 1; rooms = (1, team_room) ∷ [] }

one_room-IsSequenced : IsSequenced one_room
unfolding Dict.find
one_room-IsSequenced = record { issued = λ uid there. ground arith; unique = (refl, tt) }

abbrev some_calls : List Call
some_calls = creates (λ r. r) ∷ deletes 2 ∷ creates (λ r. r) ∷ visits 1 (λ r. r) ∷ []

run_calls-RisesFrom_example :
    RisesFrom 1 (run_calls some_calls one_room).1 × IsSequenced (run_calls some_calls one_room).0
run_calls-RisesFrom_example =
    run_calls-RisesFrom some_calls one_room one_room-IsSequenced (omega arith)
