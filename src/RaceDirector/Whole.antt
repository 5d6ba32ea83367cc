-- ===== src/RaceDirector/Whole.antt =====
-- A tick of a director whose races are served throws nothing.
use alicia_server.Common.{
  ℕ, ◌≡◌, refl, ap, ◌∙◌, Bool, true, false, [], ◌∷◌, ◌&&◌, List, if◌then◌else◌, arith, is_some,
}
use alicia_server.Common.Dict
use alicia_server.Common.Dict.{Dict}
use alicia_server.Room.Registry.{RoomSystem, get_room}
use alicia_server.Tracker.Race.{Racer}
use alicia_server.RaceDirector.{RaceInstance, RaceDirector, Outcome}
use alicia_server.RaceDirector.Registry.{Registry}
use alicia_server.RaceDirector.Tick.{
  Turn, Pass, tick_loading, tick_racing, tick_finishing, build_scores, fill_scoreboard, for_races,
  then_for_races, tick, end_race_of,
}
use alicia_server.RaceDirector.Served.{is_map, AllServed, IsServed, Includes, more_rooms}

-- A body that serves a race throws nothing, keeps its map, and removes no room.
record Serves (registry : Registry) (body : ℕ → RaceInstance → RoomSystem → Turn) : Type 0 where
  whole :
      (uid : ℕ) (race : RaceInstance) (rooms : RoomSystem)
      → is_map registry race ≡ true
      → Dict.contains uid rooms.rooms ≡ true
      → (body uid race rooms).threw ≡ false
  map_kept :
      (uid : ℕ) (race : RaceInstance) (rooms : RoomSystem)
      → (body uid race rooms).race.race_map_block_id ≡ race.race_map_block_id
  rooms_kept :
      (uid : ℕ) (race : RaceInstance) (rooms : RoomSystem)
      → Includes rooms.rooms (body uid race rooms).rooms.rooms

-- Of a test that is false, the second result is meant.
chosen :
    {B : Type 0} (P : B → Type 0) (t : Bool) (b c : B) → t ≡ false → P c → P (if t then b else c)
chosen P true b c e q = absurd (cc)
chosen P false b c e q = q

module _ (registry : Registry) (body : ℕ → RaceInstance → RoomSystem → Turn)
    (serves : Serves registry body) where
  for_races-Includes :
      (races : Dict RaceInstance) (rooms : RoomSystem)
      → Includes rooms.rooms (for_races body races rooms).pass_rooms.rooms
  unfolding for_races
  for_races-Includes [] rooms uid h = h
  for_races-Includes ((j, r) ∷ races) rooms uid h =
      let here = serves.rooms_kept j r rooms uid h in
      let there = for_races-Includes races (body j r rooms).rooms uid here in ground arith

  for_races-AllServed :
      (races : Dict RaceInstance) (rooms : RoomSystem)
      → AllServed registry rooms.rooms races
      → ((for_races body races rooms).pass_threw ≡ false)
        × AllServed registry
            (for_races body races rooms).pass_rooms.rooms
            (for_races body races rooms).races
  unfolding for_races
  for_races-AllServed [] rooms served = (refl, tt)
  for_races-AllServed ((j, r) ∷ races) rooms served =
      let turn = body j r rooms in
      let rest = for_races body races turn.rooms in
      let kept = serves.rooms_kept j r rooms in
      let ih =
        for_races-AllServed races turn.rooms
          (more_rooms registry rooms.rooms turn.rooms.rooms races kept served.2) in
      chosen (λ (p : Pass). (p.pass_threw ≡ false) × AllServed registry p.pass_rooms.rooms p.races)
        turn.threw _ _ (serves.whole j r rooms served.0 served.1)
        (
          ih.0,
          (
            ap (λ m. is_some (registry.map_block_info m)) (serves.map_kept j r rooms) ∙ served.0,
            for_races-Includes races turn.rooms j (kept j served.1),
            ih.1,
          ),
        )

module _ (registry : Registry) (now later : ℕ) where
  tick_loading-Serves : Serves registry (λ j. tick_loading registry now later)
  unfolding tick_loading
  tick_loading-Serves = record {
    whole = λ uid race rooms m h. ground arith;
    map_kept = λ uid race rooms. ground arith;
    rooms_kept = λ uid race rooms u h. ground arith;
  }

  tick_racing-Serves : (d : RaceDirector) → Serves registry (λ j. tick_racing d now later)
  unfolding tick_racing
  tick_racing-Serves d = record {
    whole = λ uid race rooms m h. ground arith;
    map_kept = λ uid race rooms. ground arith;
    rooms_kept = λ uid race rooms u h. ground arith;
  }

module _ (registry : Registry)
    (readable : (c : ℕ) → is_some (registry.character_level c) ≡ true) where
  build_scores-readable :
      (racers : Dict Racer) (board : List (ℕ × ℕ)) → (build_scores registry racers board).1 ≡ true
  unfolding build_scores
  build_scores-readable racers [] = refl
  build_scores-readable racers ((t, c) ∷ board) =
      ap (λ b. b && (build_scores registry racers board).1) (readable c)
      ∙ build_scores-readable racers board

  tick_finishing-Serves : (now : ℕ) → Serves registry (λ j. tick_finishing registry now j)
  unfolding tick_finishing get_room
  tick_finishing-Serves now = record {
    whole = λ uid race rooms m h. ground (
      arith,
      build_scores-readable race.tracker.racers
          (fill_scoreboard (Dict.in_order race.tracker.racers) []),
    );
    map_kept = λ uid race rooms. ground arith;
    rooms_kept =
        λ uid race rooms u h. ground (arith, Dict.contains-modify uid u end_race_of rooms.rooms);
  }

  then_for_races-IsServed :
      (body : RaceDirector → ℕ → RaceInstance → RoomSystem → Turn) (o : Outcome)
      → ((d : RaceDirector) → Serves registry (body d))
      → (o.threw ≡ false) × IsServed registry o.director
      → ((then_for_races body o).threw ≡ false) × IsServed registry (then_for_races body o).director
  unfolding then_for_races
  then_for_races-IsServed body o serves h =
      chosen (λ (x : Outcome). (x.threw ≡ false) × IsServed registry x.director) o.threw _ _ h.0
        (for_races-AllServed registry (body o.director) (serves o.director)
          o.director.race_instances o.director.room_system h.1)

  -- A tick of a director whose races are served ends without an exception, and they still are.
  pub tick-IsServed :
      (now later : ℕ) (d : RaceDirector)
      → IsServed registry d
      → ((tick registry now later d).threw ≡ false)
        × IsServed registry (tick registry now later d).director
  unfolding tick
  tick-IsServed now later d served =
      then_for_races-IsServed _ _ (λ _. tick_finishing-Serves now)
        (then_for_races-IsServed _ _ (λ d'. tick_racing-Serves registry now later d')
          (then_for_races-IsServed _ _ (λ _. tick_loading-Serves registry now later)
            (refl, served)))
