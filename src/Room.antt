-- ===== src/Room.antt =====
-- A waiting room and the registry of rooms (server/system/RoomSystem). A call that locks a mutex is
-- one step. The player whose record a caller changes in place is written back by `update_player`.
pub mod Capacity
pub mod Registry
mod Examples
use alicia_server.Common.{
  ℕ, suc, ◌+◌, ◌%◌, ◌^◌, Bool, true, false, not, Option, none, some, List, [], ◌∷◌, ltb, leb, ◌==◌,
  if◌then◌else◌, is_some,
}
use alicia_server.Common.Dict
use alicia_server.Common.Dict.{Dict}

pub data Team : Type 0 where
  solo red blue : Team

-- Room::Player
pub record Player : Type 0 where
  pub is_ready : Bool
  pub team : Team

abbrev pub new_player : Player
new_player = record { is_ready = false; team = solo }

-- Returns the new value of the flag beside the player.
unfoldable pub toggle_ready : Player → Player × Bool
toggle_ready p = (record p { is_ready = not p.is_ready }, not p.is_ready)

unfoldable pub set_ready : Bool → Player → Player
set_ready ready p = record p { is_ready = ready }

unfoldable pub set_team : Team → Player → Player
set_team team p = record p { team = team }

pub data TeamMode : Type 0 where
  ffa team_mode single : TeamMode

-- Room::Details. Texts do not matter here and are kept as numbers that stand for them.
pub record Details : Type 0 where
  pub name : ℕ
  pub password : ℕ
  pub mission_id : ℕ
  pub course_id : ℕ
  pub max_player_count : ℕ
  pub game_mode : ℕ
  pub mode : TeamMode
  pub npc_difficulty : ℕ
  pub skill_bracket : ℕ

pub record Room : Type 0 where
  pub details : Details
  pub uid : ℕ
  pub queued_players : Dict (Unit {0})
  pub players : Dict Player
  pub is_playing : Bool

pub is_room_full : Room → Bool
is_room_full r = leb r.details.max_player_count (Dict.size r.players + Dict.size r.queued_players)

unfoldable pub queue_player : ℕ → Room → Room × Bool
unfolding is_room_full
queue_player uid r =
    if is_room_full r
    then (r, false)
    else (record r { queued_players = Dict.try_emplace uid tt r.queued_players }, true)

-- `erase(…) != 0`
unfoldable pub dequeue_player : ℕ → Room → Room × Bool
dequeue_player uid r = (
  record r { queued_players = Dict.erase uid r.queued_players },
  Dict.contains uid r.queued_players,
)

abbrev pub is_red : Team → Bool
is_red red = true
is_red _ = false

abbrev pub is_blue : Team → Bool
is_blue blue = true
is_blue _ = false

-- The loop that counts the players of a team.
unfoldable pub team_count : (Team → Bool) → Dict Player → ℕ
team_count test [] = 0
team_count test ((uid, p) ∷ ps) =
    let rest = team_count test ps in if test p.team then suc rest else rest

abbrev pub is_team_mode : TeamMode → Bool
is_team_mode team_mode = true
is_team_mode _ = false

-- The team of a player who comes in; `coin` is `std::rand()`, which breaks a tie.
unfoldable pub choose_team : ℕ → Room → Team
unfolding team_count
choose_team coin r =
    let red_team_count = team_count is_red r.players in
    let blue_team_count = team_count is_blue r.players in
    if is_team_mode r.details.mode
    then (if ltb blue_team_count red_team_count
        then blue
        else if ltb red_team_count blue_team_count
        then red
        else if coin % 2 == 0
        then red
        else blue)
    else solo

unfoldable pub add_player : ℕ → ℕ → Room → Room × Bool
unfolding choose_team
add_player coin uid r =
    if leb r.details.max_player_count (Dict.size r.players) then (r, false) else (
      record r {
        queued_players = Dict.erase uid r.queued_players;
        players = Dict.try_emplace uid (record new_player { team = choose_team coin r }) r.players;
      },
      true,
    )

unfoldable pub remove_player : ℕ → Room → Room
remove_player uid r = record r { players = Dict.erase uid r.players }

-- `none` is the exception "Room player does not exist".
unfoldable pub get_player : ℕ → Room → Option Player
get_player uid r = Dict.find uid r.players

unfoldable pub update_player : ℕ → (Player → Player) → Room → Room
update_player uid f r = record r { players = Dict.modify uid f r.players }

unfoldable pub set_room_playing : Bool → Room → Room
set_room_playing state r = record r { is_playing = state }

pub record Snapshot : Type 0 where
  pub uid : ℕ
  pub details : Details
  pub player_count : ℕ
  pub is_playing : Bool

unfoldable pub get_room_snapshot : Room → Snapshot
get_room_snapshot r = record {
  uid = r.uid;
  details = r.details;
  player_count = Dict.size r.players;
  is_playing = r.is_playing;
}
