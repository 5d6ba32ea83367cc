-- ===== src/RaceDirector/Leaving.antt =====
-- What the handlers of server/race/RaceDirector leave of the races, when clients load, finish and leave.
use alicia_server.Common.{
  ℕ, ◌≤◌, ◌≡◌, inl, inr, refl, ap, ◌∙◌, Bool, true, false, ◌&&◌, Option, none, some, [], ◌==◌,
  if◌then◌else◌, arith, is_some, Bool-cases, ==_iff,
}
use alicia_server.Common.Dict
use alicia_server.Common.Dict.{Dict}
use alicia_server.Tracker.Race.{Racer, get_racer}
use alicia_server.Room.{Room, remove_player}
use alicia_server.RaceDirector.{
  RaceInstance, RaceDirector, Outcome, done, ClientContext, Message, get_client_context,
  get_race_instance,
}
use alicia_server.RaceDirector.Registry.{Registry}
use alicia_server.RaceDirector.Handlers.{
  put_race, is_empty, drop_racer, pass_mastership, close_if_empty, leave_race, handle_leave_room,
  handle_client_disconnected, racer_command,
}
use alicia_server.RaceDirector.Loops.{stages_left, left_of, left_at}
use alicia_server.RaceDirector.Served.{
  AllServed, IsServed, Includes, more_rooms, served_at, assign-AllServed, erase-AllServed, by_test,
}

-- To treat the cases of a lookup and of a test, where one of the results is meant.
by_lookup :
    {A : Type 0} {B : Type 0} (P : B → Type 0) (o : Option A) {b : B} {f : A → B}
    → P b
    → ((a : A) → o ≡ some a → P (f a))
    → P (elim o [ none ↦ b | some a ↦ f a ])
by_lookup P none p q = p
by_lookup P (some a) p q = q a refl

drop_racer-stage :
    (client_id c : ℕ) (race : RaceInstance) → (drop_racer client_id c race).0.stage ≡ race.stage
unfolding drop_racer
drop_racer-stage client_id c race = ground arith

pass_mastership-stage :
    (c : ℕ) (room : Room) (race : RaceInstance) → (pass_mastership c room race).0.stage ≡ race.stage
unfolding pass_mastership
pass_mastership-stage c room race = ground arith

drop_racer-map :
    (client_id c : ℕ) (race : RaceInstance)
    → (drop_racer client_id c race).0.race_map_block_id ≡ race.race_map_block_id
unfolding drop_racer
drop_racer-map client_id c race = ground arith

pass_mastership-map :
    (c : ℕ) (room : Room) (race : RaceInstance)
    → (pass_mastership c room race).0.race_map_block_id ≡ race.race_map_block_id
unfolding pass_mastership
pass_mastership-map c room race = ground arith

-- A handler that leaves no more stages than there were.
module _ (uid : ℕ) (d : RaceDirector) where
  abbrev pub Keeps : Outcome → Type 0
  Keeps o = left_at uid o.director ≤ left_at uid d

  put_race-left :
      (room_uid : ℕ) (race race' : RaceInstance) (d' : RaceDirector)
      → d'.race_instances ≡ d.race_instances
      → Dict.find room_uid d.race_instances ≡ some race
      → race'.stage ≡ race.stage
      → left_at uid (put_race room_uid race' d') ≤ left_at uid d
  put_race-left room_uid race race' d' same e stage =
      let f = Dict.find-assign room_uid uid race' d'.race_instances in
      elim (Bool-cases (room_uid == uid)) [
        | inl h ↦
            let at = ap (λ i. left_of (Dict.find i d.race_instances)) ((==_iff room_uid uid).0 h) in
            let put : Dict.find uid (Dict.assign room_uid race' d'.race_instances) ≡ some race' =
              ground arith in
            omega (arith, at, ap left_of put, ap stages_left stage, ap left_of e)
        | inr h ↦
            let old : Dict.find uid (Dict.assign room_uid race' d'.race_instances)
                ≡ Dict.find uid d'.race_instances =
              ground arith in
            omega (arith, ap left_of old, ap (λ r. left_of (Dict.find uid r)) same)
      ]

  erase-left :
      (room_uid : ℕ)
      → left_of (Dict.find uid (Dict.erase room_uid d.race_instances)) ≤ left_at uid d
  erase-left room_uid =
      let f = Dict.find-erase room_uid uid d.race_instances in
      elim (Bool-cases (room_uid == uid)) [
        | inl h ↦
            let gone : Dict.find uid (Dict.erase room_uid d.race_instances) ≡ none = ground arith in
            omega (arith, ap left_of gone)
        | inr h ↦
            let old : Dict.find uid (Dict.erase room_uid d.race_instances)
                ≡ Dict.find uid d.race_instances =
              ground arith in
            omega (arith, ap left_of old)
      ]

  get_race_instance-find :
      (c : ClientContext) (check : Bool) (race : RaceInstance)
      → get_race_instance c check d ≡ some race
      → Dict.find c.room_uid d.race_instances ≡ some race
  unfolding get_race_instance
  get_race_instance-find c check race e = ground arith

  pub racer_command-Keeps :
      (client_id : ℕ) (f : Racer → Racer) (message : Racer → Message)
      → Keeps (racer_command client_id f message d)
  racer_command-Keeps client_id f message =
      by_lookup Keeps (get_client_context client_id true d) (omega arith) (λ c _.
        by_lookup Keeps (get_race_instance c true d) (omega arith) (λ race e.
          by_lookup Keeps (get_racer c.character_uid race.tracker) (omega arith) (λ racer _.
            put_race-left c.room_uid race _ d refl (get_race_instance-find c true race e) refl)))

  leave_race-Keeps :
      (client_id : ℕ) (c : ClientContext) (race : RaceInstance) (room : Room)
      → Dict.find c.room_uid d.race_instances ≡ some race
      → Keeps (leave_race client_id c race room d)
  unfolding leave_race close_if_empty
  leave_race-Keeps client_id c race room e =
      let dropped = drop_racer client_id c.character_uid race in
      let without = record dropped.0 { clients = Dict.erase client_id dropped.0.clients } in
      let room_left = remove_player c.character_uid room in
      let passed = pass_mastership c.character_uid room_left without in
      by_test (λ (x : RaceDirector). left_of (Dict.find uid x.race_instances) ≤ left_at uid d)
        (is_empty passed.0.clients) (erase-left c.room_uid)
        (put_race-left c.room_uid race passed.0
          (record d {
            room_system = record d.room_system {
              rooms = Dict.assign c.room_uid room_left d.room_system.rooms;
            };
          })
          refl e
          (pass_mastership-stage c.character_uid room_left without
            ∙ drop_racer-stage client_id c.character_uid race))

  pub handle_leave_room-Keeps :
      (registry : Registry) (client_id : ℕ) → Keeps (handle_leave_room registry client_id d)
  unfolding handle_leave_room
  handle_leave_room-Keeps registry client_id =
      by_lookup Keeps (get_client_context client_id true d) (omega arith) (λ c _.
        by_test Keeps (c.room_uid == 0) (omega arith) (
          by_lookup Keeps (get_race_instance c false d) (omega arith) (λ race found.
            let e = get_race_instance-find c false race found in
            by_test Keeps (is_some (registry.character_level c.character_uid))
              (by_lookup Keeps (Dict.find c.room_uid d.room_system.rooms)
                (put_race-left c.room_uid race _ d refl e
                  (drop_racer-stage client_id c.character_uid race))
                (λ room _. leave_race-Keeps client_id c race room e))
              (omega arith))))

  pub handle_client_disconnected-Keeps :
      (registry : Registry) (client_id : ℕ)
      → Keeps (handle_client_disconnected registry client_id d)
  unfolding handle_client_disconnected
  handle_client_disconnected-Keeps registry client_id =
      by_lookup Keeps (get_client_context client_id false d) (omega arith) (λ c _.
        let test = c.is_authenticated && is_some (Dict.find c.room_uid d.race_instances) in
        let left = if test then handle_leave_room registry client_id d else done d [] in
        let kept =
          by_test Keeps test {b = handle_leave_room registry client_id d} {c = done d []}
            (handle_leave_room-Keeps registry client_id) (omega arith) in
        by_test Keeps left.threw kept kept)

-- A handler that leaves the races served.
module _ (registry : Registry) (d : RaceDirector) (served : IsServed registry d) where
  abbrev Serving : Outcome → Type 0
  Serving o = IsServed registry o.director

  put_race-IsServed :
      (room_uid : ℕ) (race race' : RaceInstance)
      → Dict.find room_uid d.race_instances ≡ some race
      → race'.race_map_block_id ≡ race.race_map_block_id
      → IsServed registry (put_race room_uid race' d)
  put_race-IsServed room_uid race race' e same =
      let at = served_at registry room_uid race d.room_system.rooms d.race_instances served e in
      assign-AllServed registry room_uid race' d.room_system.rooms d.race_instances
        (ap (λ m. is_some (registry.map_block_info m)) same ∙ at.0) at.1 served

  pub racer_command-IsServed :
      (client_id : ℕ) (f : Racer → Racer) (message : Racer → Message)
      → Serving (racer_command client_id f message d)
  racer_command-IsServed client_id f message =
      by_lookup Serving (get_client_context client_id true d) served (λ c _.
        by_lookup Serving (get_race_instance c true d) served (λ race e.
          by_lookup Serving (get_racer c.character_uid race.tracker) served (λ racer _.
            put_race-IsServed c.room_uid race _ (get_race_instance-find 0 d c true race e) refl)))

  leave_race-IsServed :
      (client_id : ℕ) (c : ClientContext) (race : RaceInstance) (room : Room)
      → Dict.find c.room_uid d.race_instances ≡ some race
      → Serving (leave_race client_id c race room d)
  unfolding leave_race close_if_empty
  leave_race-IsServed client_id c race room e =
      let dropped = drop_racer client_id c.character_uid race in
      let without = record dropped.0 { clients = Dict.erase client_id dropped.0.clients } in
      let room_left = remove_player c.character_uid room in
      let passed = pass_mastership c.character_uid room_left without in
      let rooms = Dict.assign c.room_uid room_left d.room_system.rooms in
      let more : Includes d.room_system.rooms rooms =
        (λ uid h. ground (arith, Dict.find-assign c.room_uid uid room_left d.room_system.rooms)) in
      let at = served_at registry c.room_uid race d.room_system.rooms d.race_instances served e in
      let still = more_rooms registry d.room_system.rooms rooms d.race_instances more served in
      by_test (λ (x : RaceDirector). AllServed registry x.room_system.rooms x.race_instances)
        (is_empty passed.0.clients)
        (erase-AllServed registry c.room_uid rooms d.race_instances still)
        (assign-AllServed registry c.room_uid passed.0 rooms d.race_instances
          (ap (λ m. is_some (registry.map_block_info m))
              (pass_mastership-map c.character_uid room_left without
                ∙ drop_racer-map client_id c.character_uid race)
            ∙ at.0)
          (more c.room_uid at.1) still)

  pub handle_leave_room-IsServed :
      (client_id : ℕ) → Serving (handle_leave_room registry client_id d)
  unfolding handle_leave_room
  handle_leave_room-IsServed client_id =
      by_lookup Serving (get_client_context client_id true d) served (λ c _.
        by_test Serving (c.room_uid == 0) served (
          by_lookup Serving (get_race_instance c false d) served (λ race found.
            let e = get_race_instance-find 0 d c false race found in
            by_test Serving (is_some (registry.character_level c.character_uid))
              (by_lookup Serving (Dict.find c.room_uid d.room_system.rooms)
                (put_race-IsServed c.room_uid race _ e
                  (drop_racer-map client_id c.character_uid race))
                (λ room _. leave_race-IsServed client_id c race room e))
              served)))

  pub handle_client_disconnected-IsServed :
      (client_id : ℕ) → Serving (handle_client_disconnected registry client_id d)
  unfolding handle_client_disconnected
  handle_client_disconnected-IsServed client_id =
      by_lookup Serving (get_client_context client_id false d) served (λ c _.
        let test = c.is_authenticated && is_some (Dict.find c.room_uid d.race_instances) in
        let left = if test then handle_leave_room registry client_id d else done d [] in
        let kept =
          by_test Serving test {b = handle_leave_room registry client_id d} {c = done d []}
            (handle_leave_room-IsServed client_id) served in
        by_test Serving left.threw kept kept)
