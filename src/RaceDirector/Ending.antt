-- ===== src/RaceDirector/Ending.antt =====
-- A race ends: the ticks of server/race/RaceDirector lead it back to the waiting room, among the other
-- races and whatever its clients do.
use alicia_server.Common.{
  ℕ, suc, ◌-◌, ◌≤◌, ◌≡◌, inl, inr, refl, ap, Bool, true, false, Option, none, some, List, [], ◌∷◌,
  if◌then◌else◌, arith, is_some, Bool-cases, Option-cases,
}
use alicia_server.Common.Dict
use alicia_server.Common.Dict.{Dict}
use alicia_server.RaceDirector.{Stage, RaceInstance, RaceDirector}
use alicia_server.RaceDirector.Registry.{Registry}
use alicia_server.RaceDirector.Tick.{tick}
use alicia_server.RaceDirector.Handlers.{
  handle_leave_room, handle_client_disconnected, handle_loading_complete, handle_user_race_final,
  Sign,
}
use alicia_server.RaceDirector.Served.{IsServed}
use alicia_server.RaceDirector.Whole.{tick-IsServed}
use alicia_server.RaceDirector.Leaving.{
  racer_command-Keeps, handle_leave_room-Keeps, handle_client_disconnected-Keeps,
  racer_command-IsServed, handle_leave_room-IsServed, handle_client_disconnected-IsServed,
}
use alicia_server.RaceDirector.Loops.{
  stages_left, left_of, left_at, has_timed_out, tick-late, tick-left,
}

-- What can happen to a director once its races are started: a tick, and the commands by which clients
-- load, finish, leave and disconnect.
pub data Event : Type 0 where
  ticks : (now later : ℕ) → Event
  loads leaves disconnects : (client_id : ℕ) → Event
  finishes : (client_id : ℕ) → Sign → (course_time : ℕ) → Event

unfoldable pub happen : Registry → Event → RaceDirector → RaceDirector
happen registry (ticks now later) d = (tick registry now later d).director
happen registry (loads client_id) d = (handle_loading_complete client_id d).director
happen registry (leaves client_id) d = (handle_leave_room registry client_id d).director
happen registry (disconnects client_id) d =
    (handle_client_disconnected registry client_id d).director
happen registry (finishes client_id member3 course_time) d =
    (handle_user_race_final client_id member3 course_time d).director

unfoldable pub happen_all : Registry → List Event → RaceDirector → RaceDirector
happen_all registry [] d = d
happen_all registry (e ∷ es) d = happen_all registry es (happen registry e d)

-- A tick at or after the time-out of the race's stage.
abbrev pub is_late : ℕ → Event → RaceDirector → Bool
is_late uid (ticks now later) d = has_timed_out now (Dict.find uid d.race_instances)
is_late uid _ d = false

-- How many of the events are such ticks.
unfoldable pub late_ticks : Registry → ℕ → List Event → RaceDirector → ℕ
late_ticks registry uid [] d = 0
late_ticks registry uid (e ∷ es) d =
    let rest = late_ticks registry uid es (happen registry e d) in
    if is_late uid e d then suc rest else rest

module _ (uid : ℕ) (d : RaceDirector) where
  happen-Keeps :
      (registry : Registry) (e : Event) → left_at uid (happen registry e d) ≤ left_at uid d
  unfolding happen handle_loading_complete handle_user_race_final
  happen-Keeps registry (ticks now later) = tick-left registry now later uid d
  happen-Keeps registry (loads client_id) = racer_command-Keeps uid d client_id _ _
  happen-Keeps registry (leaves client_id) = handle_leave_room-Keeps uid d registry client_id
  happen-Keeps registry (disconnects client_id) =
      handle_client_disconnected-Keeps uid d registry client_id
  happen-Keeps registry (finishes client_id member3 course_time) =
      racer_command-Keeps uid d client_id _ _

  ticks-late :
      (registry : Registry) (now later : ℕ)
      → (tick registry now later d).threw ≡ false
      → is_late uid (ticks now later) d ≡ true
      → left_at uid (tick registry now later d).director ≤ left_at uid d - 1
  ticks-late registry now later whole late = elim (Option-cases (Dict.find uid d.race_instances)) [
    | inl missing ↦ absurd (let out = ap (has_timed_out now) missing in ground arith)
    | inr (race, e) ↦
        let out = ap (has_timed_out now) e in
        let moved = tick-late registry now later uid d race e whole (ground arith) in
        omega (arith, ap left_of e)
  ]

  happen-left :
      (registry : Registry) (readable : (c : ℕ) → is_some (registry.character_level c) ≡ true)
      → IsServed registry d
      → (e : Event)
      → left_at uid (happen registry e d)
        ≤ (if is_late uid e d then left_at uid d - 1 else left_at uid d)
  unfolding happen
  happen-left registry readable served (ticks now later) =
      elim (Bool-cases (is_late uid (ticks now later) d)) [
        | inl late ↦
            let moved =
              ticks-late registry now later (tick-IsServed registry readable now later d served).0
                late in
            ground arith
        | inr early ↦ let kept = tick-left registry now later uid d in ground arith
      ]
  happen-left registry readable served (loads client_id) = happen-Keeps registry (loads client_id)
  happen-left registry readable served (leaves client_id) = happen-Keeps registry (leaves client_id)
  happen-left registry readable served (disconnects client_id) =
      happen-Keeps registry (disconnects client_id)
  happen-left registry readable served (finishes client_id member3 course_time) =
      happen-Keeps registry (finishes client_id member3 course_time)

-- No stages are left of a race that is over, or that is gone.
abbrev pub IsOver : Option RaceInstance → Type 0
IsOver none = Unit {0}
IsOver (some race) = race.stage ≡ Stage.waiting

no_stages_left : (s : Stage) → stages_left s ≤ 0 → s ≡ Stage.waiting
no_stages_left Stage.waiting h = refl
no_stages_left Stage.finishing h = absurd (omega arith)
no_stages_left Stage.racing h = absurd (omega arith)
no_stages_left Stage.loading h = absurd (omega arith)

left_of-IsOver : (o : Option RaceInstance) → left_of o ≤ 0 → IsOver o
left_of-IsOver none h = tt
left_of-IsOver (some race) h = no_stages_left race.stage h

happen-IsServed :
    (registry : Registry) (readable : (c : ℕ) → is_some (registry.character_level c) ≡ true)
    (d : RaceDirector)
    → IsServed registry d
    → (e : Event) → IsServed registry (happen registry e d)
unfolding happen handle_loading_complete handle_user_race_final
happen-IsServed registry readable d served (ticks now later) =
    (tick-IsServed registry readable now later d served).1
happen-IsServed registry readable d served (loads client_id) =
    racer_command-IsServed registry d served client_id _ _
happen-IsServed registry readable d served (leaves client_id) =
    handle_leave_room-IsServed registry d served client_id
happen-IsServed registry readable d served (disconnects client_id) =
    handle_client_disconnected-IsServed registry d served client_id
happen-IsServed registry readable d served (finishes client_id member3 course_time) =
    racer_command-IsServed registry d served client_id _ _

-- If of every race of a director the map is found and the room is there, and the records of all
-- characters can be read, then under any ticks and any commands by which clients load, finish,
-- leave or disconnect, and whatever the other races are, the race of a room is back in the waiting
-- room or gone with its last client once as many ticks have found the time-out of its stage reached
-- as it had stages left: three while it was loading, two while racing, one while finishing.
pub happen_all-IsOver :
    (registry : Registry)
    → ((c : ℕ) → is_some (registry.character_level c) ≡ true)
    → (uid : ℕ) (es : List Event) (d : RaceDirector) → IsServed registry d
    → left_at uid d ≤ late_ticks registry uid es d
    → IsOver (Dict.find uid (happen_all registry es d).race_instances)
unfolding happen_all late_ticks
happen_all-IsOver registry readable uid [] d served enough =
    left_of-IsOver (Dict.find uid d.race_instances) enough
happen_all-IsOver registry readable uid (e ∷ es) d served enough =
    happen_all-IsOver registry readable uid es (happen registry e d)
      (happen-IsServed registry readable d served e)
      (let moved = happen-left uid d registry readable served e in ground arith)
