-- ===== src/RaceDirector/Loops.antt =====
-- How the three loops of server/race/RaceDirector::Tick lead a race back to the waiting room.
use alicia_server.Common.{
  ℕ, ◌-◌, ◌≤◌, ◌≡◌, ◌≢◌, inl, inr, refl, ap, ◌∙◌, Bool, true, false, Option, none, some, [], leb,
  arith, Option-cases,
}
use alicia_server.Common.Dict
use alicia_server.Common.Dict.{Dict}
use alicia_server.Room.Registry.{RoomSystem}
use alicia_server.RaceDirector.{Stage, RaceInstance, RaceDirector, Outcome}
use alicia_server.RaceDirector.Registry.{Registry}
use alicia_server.RaceDirector.Tick.{
  tick_loading, tick_racing, tick_finishing, Turn, tick, then_for_races,
}
use alicia_server.RaceDirector.Passing.{
  then_for_races-Worked, then_for_races-began, find-then_for_races-none,
}
use alicia_server.RaceDirector.Stages.{
  ◌⟶◌, ◌⟶*◌, load, end_race, go_back, here, next, tick-Advanced,
}

-- The stages that are left, until the race is over.
abbrev pub stages_left : Stage → ℕ
stages_left Stage.waiting = 0
stages_left Stage.finishing = 1
stages_left Stage.racing = 2
stages_left Stage.loading = 3

abbrev pub left_of : Option RaceInstance → ℕ
left_of none = 0
left_of (some race) = stages_left race.stage

-- Of the race of a room, if there is one.
abbrev pub left_at : ℕ → RaceDirector → ℕ
left_at uid d = left_of (Dict.find uid d.race_instances)

abbrev pub has_timed_out : (now : ℕ) → Option RaceInstance → Bool
has_timed_out now none = false
has_timed_out now (some race) = leb race.stage_timeout_time_point now

module _ (registry : Registry) (rooms : RoomSystem) where
  tick_loading-other :
      (now later : ℕ) (race : RaceInstance)
      → race.stage ≢ Stage.loading
      → (tick_loading registry now later race rooms).race ≡ race
  unfolding tick_loading
  tick_loading-other now later race h = ground arith

  tick_loading-left :
      (now later : ℕ) (race : RaceInstance)
      → stages_left (tick_loading registry now later race rooms).race.stage ≤ stages_left race.stage
  unfolding tick_loading
  tick_loading-left now later race = ground arith

  tick_loading-late :
      (now later : ℕ) (race : RaceInstance)
      → (tick_loading registry now later race rooms).threw ≡ false
      → race.stage ≡ Stage.loading
      → leb race.stage_timeout_time_point now ≡ true
      → (tick_loading registry now later race rooms).race.stage ≡ Stage.racing
  unfolding tick_loading
  tick_loading-late now later race whole e late = ground arith

  tick_racing-other :
      (d : RaceDirector) (now later : ℕ) (race : RaceInstance)
      → race.stage ≢ Stage.racing
      → (tick_racing d now later race rooms).race ≡ race
  unfolding tick_racing
  tick_racing-other d now later race h = ground arith

  tick_racing-left :
      (d : RaceDirector) (now later : ℕ) (race : RaceInstance)
      → stages_left (tick_racing d now later race rooms).race.stage ≤ stages_left race.stage
  unfolding tick_racing
  tick_racing-left d now later race = ground arith

  tick_racing-late :
      (d : RaceDirector) (now later : ℕ) (race : RaceInstance)
      → race.stage ≡ Stage.racing
      → leb race.stage_timeout_time_point now ≡ true
      → (tick_racing d now later race rooms).race.stage ≡ Stage.finishing
  unfolding tick_racing
  tick_racing-late d now later race e late = ground arith

  tick_finishing-left :
      (now uid : ℕ) (race : RaceInstance)
      → stages_left (tick_finishing registry now uid race rooms).race.stage ≤ stages_left race.stage
  unfolding tick_finishing
  tick_finishing-left now uid race = ground arith

  tick_finishing-late :
      (now uid : ℕ) (race : RaceInstance)
      → (tick_finishing registry now uid race rooms).threw ≡ false
      → race.stage ≡ Stage.finishing
      → leb race.stage_timeout_time_point now ≡ true
      → (tick_finishing registry now uid race rooms).race.stage ≡ Stage.waiting
  unfolding tick_finishing
  tick_finishing-late now uid race whole e late = ground arith

-- The three loops over one race, each with the rooms that it comes upon.
module _ (registry : Registry) (d : RaceDirector) (now later uid : ℕ) (race : RaceInstance)
    (rooms rooms' rooms'' : RoomSystem) where
  abbrev loaded : RaceInstance
  loaded = (tick_loading registry now later race rooms).race

  abbrev raced : RaceInstance
  raced = (tick_racing d now later loaded rooms').race

  -- If the first and the last do not throw, a late tick takes it at least one stage further.
  three_loops-late :
      (tick_loading registry now later race rooms).threw ≡ false
      → (tick_finishing registry now uid raced rooms'').threw ≡ false
      → leb race.stage_timeout_time_point now ≡ true
      → stages_left (tick_finishing registry now uid raced rooms'').race.stage
        ≤ stages_left race.stage - 1
  three_loops-late whole whole'' late = by_stage race.stage refl
    where
      by_stage :
          (s : Stage)
          → race.stage ≡ s
          → stages_left (tick_finishing registry now uid raced rooms'').race.stage
            ≤ stages_left race.stage - 1
      by_stage Stage.waiting e = omega (
        arith,
        ap stages_left e,
        tick_loading-left registry rooms now later race,
        tick_racing-left registry rooms' d now later loaded,
        tick_finishing-left registry rooms'' now uid raced,
      )
      by_stage Stage.loading e = omega (
        arith,
        ap stages_left e,
        ap stages_left (tick_loading-late registry rooms now later race whole e late),
        tick_racing-left registry rooms' d now later loaded,
        tick_finishing-left registry rooms'' now uid raced,
      )
      by_stage Stage.racing e =
          let same : loaded ≡ race = tick_loading-other registry rooms now later race (λ f. cc) in
          omega (
            arith,
            ap stages_left e,
            ap stages_left (
                tick_racing-late registry rooms' d now later loaded (ap (λ r. r.stage) same ∙ e)
                  (ap (λ r. leb r.stage_timeout_time_point now) same ∙ late)),
            tick_finishing-left registry rooms'' now uid raced,
          )
      by_stage Stage.finishing e =
          let same : loaded ≡ race = tick_loading-other registry rooms now later race (λ f. cc) in
          let still : raced ≡ race =
            tick_racing-other registry rooms' d now later loaded
              (λ f. let g = ap (λ r. r.stage) same in cc)
            ∙ same in
          omega (
            arith,
            ap stages_left e,
            ap stages_left (
                tick_finishing-late registry rooms'' now uid raced whole''
                  (ap (λ r. r.stage) still ∙ e)
                  (ap (λ r. leb r.stage_timeout_time_point now) still ∙ late)),
          )

⟶-left : (s t : Stage) → s ⟶ t → stages_left t ≤ stages_left s
⟶-left _ _ load = omega arith
⟶-left _ _ end_race = omega arith
⟶-left _ _ go_back = omega arith

⟶*-left : (s t : Stage) → s ⟶* t → stages_left t ≤ stages_left s
⟶*-left s _ here = omega arith
⟶*-left s t (next {t = m} e p) = omega (arith, ⟶-left s m e, ⟶*-left m t p)

module _ (registry : Registry) (now later uid : ℕ) (d : RaceDirector) where
  abbrev loading_loop : RaceDirector → ℕ → RaceInstance → RoomSystem → Turn
  loading_loop d' j = tick_loading registry now later

  abbrev racing_loop : RaceDirector → ℕ → RaceInstance → RoomSystem → Turn
  racing_loop d' j = tick_racing d' now later

  abbrev finishing_loop : RaceDirector → ℕ → RaceInstance → RoomSystem → Turn
  finishing_loop d' j = tick_finishing registry now j

  abbrev first : Outcome
  first = record { director = d; sent = []; threw = false }

  abbrev second : Outcome
  second = then_for_races loading_loop first

  abbrev third : Outcome
  third = then_for_races racing_loop second

  -- A whole tick takes the race that is late a stage further, whatever the other races are.
  pub tick-late :
      (race : RaceInstance)
      → Dict.find uid d.race_instances ≡ some race
      → (tick registry now later d).threw ≡ false
      → leb race.stage_timeout_time_point now ≡ true
      → left_at uid (tick registry now later d).director ≤ stages_left race.stage - 1
  unfolding tick
  tick-late race e whole late =
      let whole' = then_for_races-began finishing_loop third whole in
      let w =
        then_for_races-Worked loading_loop first uid race
          (then_for_races-began racing_loop second whole') e in
      let one = tick_loading registry now later race w.rooms in
      let w' = then_for_races-Worked racing_loop second uid one.race whole' w.found in
      let two = tick_racing second.director now later one.race w'.rooms in
      let w'' = then_for_races-Worked finishing_loop third uid two.race whole w'.found in
      omega (
        arith,
        ap left_of w''.found,
        three_loops-late registry second.director now later uid race w.rooms w'.rooms w''.rooms
            w.whole w''.whole late,
      )

  stays_missing :
      Dict.find uid d.race_instances ≡ none
      → Dict.find uid (tick registry now later d).director.race_instances ≡ none
  unfolding tick
  stays_missing e = find-then_for_races-none finishing_loop third uid (
      find-then_for_races-none racing_loop second uid
        (find-then_for_races-none loading_loop first uid e))

  -- No tick takes a race back, and a race that is not there does not come.
  pub tick-left : left_at uid (tick registry now later d).director ≤ left_at uid d
  tick-left = elim (Option-cases (Dict.find uid d.race_instances)) [
    | inl missing ↦ omega (arith, ap left_of missing, ap left_of (stays_missing missing))
    | inr (race, e) ↦
        let a = tick-Advanced registry now later uid d race e in
        omega (arith, ap left_of e, ap left_of a.found, ⟶*-left race.stage a.race'.stage a.along)
  ]
