-- ===== src/RaceDirector/Starts.antt =====
-- When a race of server/race/RaceDirector is started, and with whom.
use alicia_server.Common.{
  ℕ, ◌+◌, ◌≡◌, ◌↔◌, ◌⊎◌, refl, true, false, not, ◌&&◌, Option, none, some, [], ◌∷◌, ◌==◌, arith,
  ==_iff,
}
use alicia_server.Common.Dict
use alicia_server.Common.Dict.{Dict}
use alicia_server.Room.{Room, Player, is_red, is_blue, is_team_mode, team_count}
use alicia_server.Tracker.Race.{RaceTracker, RacerState, Racer, TeamColor, new_racer, next_u16}
use alicia_server.RaceDirector.Start.{count_if, check_players, refusal, racer_team, set_up}

-- Every player but the master is ready.
abbrev pub AllReady : ℕ → Dict Player → Type 0
AllReady master [] = Unit {0}
AllReady master ((uid, p) ∷ players) =
    ((uid ≡ master) ⊎ (p.is_ready ≡ true)) × AllReady master players

ready_or_master :
    (master uid : ℕ) (p : Player)
    → ((not (uid == master) && not p.is_ready) ≡ false) ↔ ((uid ≡ master) ⊎ (p.is_ready ≡ true))
ready_or_master master uid p = ground (arith, ==_iff uid master)

check_players-ready :
    (master : ℕ) (players : Dict Player) (red blue : ℕ)
    → ((check_players master players red blue).all_players_ready ≡ true) ↔ AllReady master players
unfolding check_players
check_players-ready master [] red blue = (λ _. tt, λ _. refl)
check_players-ready master ((uid, p) ∷ players) red blue = ground (
  arith,
  ready_or_master master uid p,
  check_players-ready master players (count_if (is_red p.team) red)
      (count_if (is_blue p.team) blue),
)

check_players-counts :
    (master : ℕ) (players : Dict Player) (red blue : ℕ)
    → AllReady master players
    → ((check_players master players red blue).red_team_count ≡ red + team_count is_red players)
      × ((check_players master players red blue).blue_team_count
          ≡ blue + team_count is_blue players)
unfolding check_players team_count
check_players-counts master [] red blue h = (omega arith, omega arith)
check_players-counts master ((uid, p) ∷ players) red blue h = ground (
  arith,
  ready_or_master master uid p,
  check_players-counts master players (count_if (is_red p.team) red)
      (count_if (is_blue p.team) blue) h.1,
)

-- The master is not refused a start exactly when every player but the master is ready and, in a
-- team game, the red team has as many players as the blue one.
pub refusal-none :
    (master : ℕ) (room : Room)
    → (refusal master room ≡ none) ↔ (
        AllReady master room.players
        × ((is_team_mode room.details.mode ≡ false)
            ⊎ (team_count is_red room.players ≡ team_count is_blue room.players)))
unfolding refusal
refusal-none master room = (
  λ e.
      let ready : (check_players master room.players 0 0).all_players_ready ≡ true = ground arith in
      let all_ready = (check_players-ready master room.players 0 0).0 ready in
      (all_ready, ground (arith, check_players-counts master room.players 0 0 all_ready)),
  λ h. ground (
    arith,
    (check_players-ready master room.players 0 0).1 h.0,
    check_players-counts master room.players 0 0 h.0,
  ),
)

-- What a start makes of a racer, and what it should be of a player.
abbrev pub loading_as : Option Racer → Option (RacerState × TeamColor)
loading_as none = none
loading_as (some r) = some (r.state, r.team)

abbrev pub expected : Option Player → Option (RacerState × TeamColor)
expected none = none
expected (some p) = some (RacerState.loading, racer_team p.team)

abbrev in_or :
    Option (RacerState × TeamColor)
    → Option (RacerState × TeamColor)
    → Option (RacerState × TeamColor)
in_or none b = b
in_or (some a) b = some a

-- The tracker once a player has become a racer.
abbrev with_player : ℕ → Player → RaceTracker → RaceTracker
with_player uid p t = set_up uid p (record t {
  racers = Dict.assign uid (record new_racer { oid = t.next_object_oid }) t.racers;
  next_object_oid = next_u16 t.next_object_oid;
})
