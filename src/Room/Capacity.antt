-- ===== src/Room/Capacity.antt =====
-- A room never holds more players than its maximum, and a team game stays balanced.
use alicia_server.Common.{
  ℕ, suc, ◌+◌, ◌≤◌, ◌<◌, ◌≡◌, ◌⊎◌, refl, Bool, true, false, List, [], ◌∷◌, arith, if◌then◌else◌,
}
use alicia_server.Common.Dict
use alicia_server.Common.Dict.{Dict}
use alicia_server.Room.{
  Room, Player, Team, is_red, is_blue, is_team_mode, queue_player, dequeue_player, add_player,
  remove_player, update_player, team_count, choose_team, is_room_full, new_player,
}

pub record IsValid (r : Room) : Type 0 where
  pub unique : Dict.IsUnique r.players
  pub unique_queue : Dict.IsUnique r.queued_players
  pub bounded : Dict.size r.players ≤ r.details.max_player_count

-- The operations on the players of a room; `update` is a change through the reference that
-- GetPlayer returns.
pub data Operation : Type 0 where
  queue dequeue remove : ℕ → Operation
  add : (coin : ℕ) (uid : ℕ) → Operation
  update : (uid : ℕ) → (Player → Player) → Operation

unfoldable pub apply : Operation → Room → Room
unfolding queue_player dequeue_player add_player remove_player update_player
apply (queue uid) r = (queue_player uid r).0
apply (dequeue uid) r = (dequeue_player uid r).0
apply (remove uid) r = remove_player uid r
apply (add coin uid) r = (add_player coin uid r).0
apply (update uid f) r = update_player uid f r

-- Every operation keeps the players distinct and within the maximum.
pub apply-IsValid : (o : Operation) (r : Room) → IsValid r → IsValid (apply o r)
unfolding apply
apply-IsValid (queue uid) r v = ground (arith, Dict.try_emplace-IsUnique uid tt r.queued_players)
apply-IsValid (dequeue uid) r v = ground (arith, Dict.erase-IsUnique uid r.queued_players)
apply-IsValid (remove uid) r v =
    ground (arith, Dict.erase-IsUnique uid r.players, Dict.size-erase-le uid r.players)
apply-IsValid (add coin uid) r v = ground (
  arith,
  Dict.erase-IsUnique uid r.queued_players,
  Dict.try_emplace-IsUnique uid (record new_player { team = choose_team coin r }) r.players,
  Dict.size-try_emplace uid (record new_player { team = choose_team coin r }) r.players,
)
apply-IsValid (update uid f) r v =
    ground (arith, Dict.modify-IsUnique uid f r.players, Dict.size-modify uid f r.players)

-- After any sequence of operations on a valid room.
pub run : List Operation → Room → Room
run [] r = r
run (o ∷ os) r = run os (apply o r)

-- Any sequence of operations on the players of a valid room leaves it valid: its players and queued
-- players are distinct, and there are no more players than the maximum.
pub run-IsValid : (os : List Operation) (r : Room) → IsValid r → IsValid (run os r)
unfolding run
run-IsValid [] r v = v
run-IsValid (o ∷ os) r v = run-IsValid os (apply o r) (apply-IsValid o r v)

-- The seats that are taken or promised.
abbrev pub seats : Room → ℕ
seats r = Dict.size r.players + Dict.size r.queued_players

-- A player comes in exactly when there is room among the players, and is then one of them and no
-- longer queued; a refusal changes nothing.
pub add_player_lem :
    (coin uid : ℕ) (r : Room)
    → let (r', added) = add_player coin uid r in
      ((added ≡ true)
        × (Dict.size r.players < r.details.max_player_count)
        × (Dict.contains uid r'.players ≡ true)
        × (Dict.contains uid r'.queued_players ≡ false))
      ⊎ ((added ≡ false) × (r.details.max_player_count ≤ Dict.size r.players) × (r' ≡ r))
unfolding add_player
add_player_lem coin uid r = ground (
  arith,
  Dict.find-try_emplace uid uid (record new_player { team = choose_team coin r }) r.players,
  Dict.find-erase uid uid r.queued_players,
)

-- A queued player who is let in does not raise the number of seats that are taken or promised,
-- where the queued players are distinct.
pub add_player-seats :
    (coin uid : ℕ) (r : Room)
    → Dict.IsUnique r.queued_players
    → Dict.contains uid r.queued_players ≡ true
    → seats (add_player coin uid r).0 ≤ seats r
unfolding add_player
add_player-seats coin uid r u q = ground (
  arith,
  Dict.size-try_emplace uid (record new_player { team = choose_team coin r }) r.players,
  Dict.size-erase-lt uid r.queued_players q,
)

-- A player who asks to be queued does not make the seats that are taken or promised pass the
-- maximum.
pub queue_player-seats :
    (uid : ℕ) (r : Room)
    → seats r ≤ r.details.max_player_count
    → seats (queue_player uid r).0 ≤ r.details.max_player_count
unfolding queue_player is_room_full
queue_player-seats uid r h = ground (arith, Dict.size-try_emplace uid tt r.queued_players)

-- A new player who was not queued takes one seat more, whenever the players are fewer than the
-- maximum, also where the rest of the seats are promised to queued players.
pub add_player_unqueued :
    (coin uid : ℕ) (r : Room)
    → Dict.contains uid r.queued_players ≡ false
    → Dict.contains uid r.players ≡ false
    → Dict.size r.players < r.details.max_player_count
    → seats (add_player coin uid r).0 ≡ suc (seats r)
unfolding add_player
add_player_unqueued coin uid r q p h = ground (
  arith,
  Dict.size-try_emplace uid (record new_player { team = choose_team coin r }) r.players,
  Dict.erase_missing uid r.queued_players q,
)

-- Neither team is ahead by more than one player.
abbrev pub IsBalanced : Dict Player → Type 0
IsBalanced ps =
    (team_count is_red ps ≤ suc (team_count is_blue ps))
    × (team_count is_blue ps ≤ suc (team_count is_red ps))

team_count-assign :
    (test : Team → Bool) (uid : ℕ) (p : Player) (ps : Dict Player)
    → Dict.contains uid ps ≡ false
    → team_count test (Dict.assign uid p ps)
      ≡ (if test p.team then suc (team_count test ps) else team_count test ps)
unfolding team_count Dict.assign Dict.find
team_count-assign test uid p [] h = refl
team_count-assign test uid p ((j, w) ∷ ps) h = ground (arith, team_count-assign test uid p ps)

-- A player who comes into a team game leaves teams that differ by at most one player so, however
-- the coin falls.
pub add_player-IsBalanced :
    (coin uid : ℕ) (r : Room)
    → is_team_mode r.details.mode ≡ true
    → IsBalanced r.players
    → IsBalanced (add_player coin uid r).0.players
unfolding add_player choose_team Dict.try_emplace
add_player-IsBalanced coin uid r t b = ground (
  arith,
  team_count-assign is_red uid (record new_player { team = choose_team coin r }) r.players,
  team_count-assign is_blue uid (record new_player { team = choose_team coin r }) r.players,
)
