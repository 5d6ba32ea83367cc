-- ===== src/RaceDirector/Board.antt =====
-- The score board of server/race/RaceDirector: who is on it.
use alicia_server.Common.{
  ℕ, ◌<◌, ◌≡◌, refl, Option, none, some, [], ◌∷◌, ◌==◌, if◌then◌else◌, arith, ==_iff,
}
use alicia_server.Common.Dict
use alicia_server.Common.Dict.{Dict}
use alicia_server.Tracker.Race.{Racer}
use alicia_server.RaceDirector.Tick.{board_time, emplace_time, fill_scoreboard}

-- Every time on the board is later.
abbrev pub Above : ℕ → Dict ℕ → Type 0
Above t [] = Unit {0}
Above t ((s, u) ∷ board) = (t < s) × Above t board

abbrev pub IsAscending : Dict ℕ → Type 0
IsAscending [] = Unit {0}
IsAscending ((t, u) ∷ board) = Above t board × IsAscending board

-- The first racer, in the order in which they are put on the board, with a time.
abbrev pub first_at : ℕ → Dict Racer → Option ℕ
first_at t [] = none
first_at t ((uid, r) ∷ racers) = if board_time r == t then some uid else first_at t racers

Above-weaken : (s t : ℕ) (board : Dict ℕ) → s < t → Above t board → Above s board
Above-weaken s t [] h a = tt
Above-weaken s t ((r, u) ∷ board) h a = (omega (arith, a.0), Above-weaken s t board h a.1)

find-Above : (t : ℕ) (board : Dict ℕ) → Above t board → Dict.find t board ≡ none
unfolding Dict.find
find-Above t [] a = refl
find-Above t ((s, u) ∷ board) a = ground (arith, a.0, find-Above t board a.1)

emplace_time-Above :
    (s t uid : ℕ) (board : Dict ℕ) → s < t → Above s board → Above s (emplace_time t uid board)
unfolding emplace_time
emplace_time-Above s t uid [] h a = (h, tt)
emplace_time-Above s t uid ((r, u) ∷ board) h a =
    ground (arith, emplace_time-Above s t uid board h a.1)

emplace_time-IsAscending :
    (t uid : ℕ) (board : Dict ℕ) → IsAscending board → IsAscending (emplace_time t uid board)
unfolding emplace_time
emplace_time-IsAscending t uid [] a = (tt, tt)
emplace_time-IsAscending t uid ((r, u) ∷ board) a = ground (
  arith,
  emplace_time-IsAscending t uid board a.1,
  Above-weaken t r board,
  emplace_time-Above r t uid board,
)

abbrev or_else : Option ℕ → Option ℕ → Option ℕ
or_else none b = b
or_else (some a) b = some a

find-emplace_time :
    (t s uid : ℕ) (board : Dict ℕ)
    → IsAscending board
    → Dict.find t (emplace_time s uid board)
      ≡ (if s == t then or_else (Dict.find s board) (some uid) else Dict.find t board)
unfolding emplace_time Dict.find
find-emplace_time t s uid [] a = ground arith
find-emplace_time t s uid ((r, u) ∷ board) a =
    ground (arith, find-emplace_time t s uid board a.1, find-Above s board, Above-weaken s r board)

fill_scoreboard-IsAscending :
    (racers : Dict Racer) (board : Dict ℕ)
    → IsAscending board
    → IsAscending (fill_scoreboard racers board)
unfolding fill_scoreboard
fill_scoreboard-IsAscending [] board a = a
fill_scoreboard-IsAscending ((uid, r) ∷ racers) board a =
    fill_scoreboard-IsAscending racers _ (emplace_time-IsAscending (board_time r) uid board a)

find-fill_scoreboard_from :
    (t : ℕ) (racers : Dict Racer) (board : Dict ℕ)
    → IsAscending board
    → Dict.find t (fill_scoreboard racers board) ≡ or_else (Dict.find t board) (first_at t racers)
unfolding fill_scoreboard
find-fill_scoreboard_from t [] board a = ground arith
find-fill_scoreboard_from t ((uid, r) ∷ racers) board a = ground (
  arith,
  find-fill_scoreboard_from t racers (emplace_time (board_time r) uid board)
      (emplace_time-IsAscending (board_time r) uid board a),
  find-emplace_time t (board_time r) uid board a,
  ==_iff (board_time r) t,
)

-- The score board is sorted by strictly ascending times, and at each time stands the first racer
-- with that time, in the order in which the racers are put on it, if there is one: of racers with
-- equal times only the first is on the board.
pub find-fill_scoreboard :
    (racers : Dict Racer) (t : ℕ)
    → IsAscending (fill_scoreboard racers [])
      × (Dict.find t (fill_scoreboard racers []) ≡ first_at t racers)
unfolding Dict.find
find-fill_scoreboard racers t =
    (fill_scoreboard-IsAscending racers [] tt, find-fill_scoreboard_from t racers [] tt)
