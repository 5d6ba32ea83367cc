-- ===== src/Room/Registry.antt =====
-- RoomSystem: the rooms by their UID. A consumer that changes a room in place is a function.
use alicia_server.Common.{
  ℕ, ◌+◌, ◌%◌, ◌^◌, ◌≤◌, ◌<◌, ◌≡◌, ◌≢◌, ◌⊎◌, subst, Bool, true, false, Option, none, some, List, [],
  ◌∷◌, arith, if◌then◌else◌, ◌==◌, length, ◌++◌, Bool-cases, inl, inr,
}
use alicia_server.Common.Dict
use alicia_server.Common.Dict.{Dict}
use alicia_server.Room.{Room, Details, Snapshot, ffa, get_room_snapshot}

pub record RoomSystem : Type 0 where
  pub sequenced_id : ℕ
  pub rooms : Dict Room

abbrev pub new_details : Details
new_details = record {
  name = 0;
  password = 0;
  mission_id = 0;
  course_id = 0;
  max_player_count = 0;
  game_mode = 0;
  mode = ffa;
  npc_difficulty = 0;
  skill_bracket = 0;
}

-- Room(uid)
abbrev pub new_room : ℕ → Room
new_room uid = record {
  details = new_details;
  uid = uid;
  queued_players = [];
  players = [];
  is_playing = false;
}

-- The UID is a uint32_t. The consumer works on the entry that is there, new or not.
unfoldable pub create_room : (Room → Room) → RoomSystem → RoomSystem × ℕ
create_room consumer s =
    let uid = (s.sequenced_id + 1) % 2 ^ 32 in
    (
      record {
        sequenced_id = uid;
        rooms = Dict.modify uid consumer (Dict.try_emplace uid (new_room uid) s.rooms);
      },
      uid,
    )

-- `none` is the exception "Room does not exist".
unfoldable pub get_room : ℕ → (Room → Room) → RoomSystem → Option RoomSystem
get_room uid consumer s =
    if Dict.contains uid s.rooms
    then some (record s { rooms = Dict.modify uid consumer s.rooms })
    else none

unfoldable pub room_exists : ℕ → RoomSystem → Bool
room_exists uid s = Dict.contains uid s.rooms

unfoldable pub delete_room : ℕ → RoomSystem → Option RoomSystem
delete_room uid s =
    if Dict.contains uid s.rooms then some (record s { rooms = Dict.erase uid s.rooms }) else none

unfoldable pub get_rooms_snapshot : Dict Room → List Snapshot
get_rooms_snapshot [] = []
get_rooms_snapshot ((uid, r) ∷ rooms) = get_room_snapshot r ∷ get_rooms_snapshot rooms

-- Every room's UID has been given out, so the next one is free.
pub record IsSequenced (s : RoomSystem) : Type 0 where
  pub issued : (uid : ℕ) → Dict.contains uid s.rooms ≡ true → uid ≤ s.sequenced_id
  pub unique : Dict.IsUnique s.rooms

-- The registry once `consumer` has had the room `uid`, new if there was none.
abbrev created : ℕ → (Room → Room) → Dict Room → Dict Room
created uid consumer rooms = Dict.modify uid consumer (Dict.try_emplace uid (new_room uid) rooms)

find-created :
    (uid j : ℕ) (consumer : Room → Room) (rooms : Dict Room)
    → Dict.contains uid rooms ≡ false
    → Dict.find j (created uid consumer rooms)
      ≡ (if uid == j then some (consumer (new_room uid)) else Dict.find j rooms)
find-created uid j consumer rooms h = ground (
  arith,
  Dict.find-modify uid j consumer (Dict.try_emplace uid (new_room uid) rooms),
  Dict.find-try_emplace uid j (new_room uid) rooms,
)

fresh_uid :
    (s : RoomSystem) (uid : ℕ)
    → IsSequenced s
    → s.sequenced_id < uid
    → Dict.contains uid s.rooms ≡ false
fresh_uid s uid q h = ground (arith, q.issued uid)

-- As long as the counter does not wrap, and every room's UID has been given out, a room is created
-- under a UID that no room has: the consumer gets a fresh room, all other rooms stay as they are,
-- and the UIDs stay in sequence.
pub create_room_lem :
    (consumer : Room → Room) (s : RoomSystem)
    → IsSequenced s
    → s.sequenced_id + 1 < 2 ^ 32
    → let (s', uid) = create_room consumer s in
      (Dict.contains uid s.rooms ≡ false)
      × (Dict.find uid s'.rooms ≡ some (consumer (new_room uid)))
      × ((other : ℕ) → other ≢ uid → Dict.find other s'.rooms ≡ Dict.find other s.rooms)
      × IsSequenced s'
unfolding create_room
create_room_lem consumer s q h = (
  free,
  ground (arith, find-created uid uid consumer s.rooms free),
  λ other n. ground (arith, find-created uid other consumer s.rooms free),
  record {
    issued =
        λ other k. ground (arith, find-created uid other consumer s.rooms free, q.issued other);
    unique =
        Dict.modify-IsUnique uid consumer (Dict.try_emplace uid (new_room uid) s.rooms)
          (Dict.try_emplace-IsUnique uid (new_room uid) s.rooms q.unique);
  },
)
  where
    uid : ℕ
    uid = (s.sequenced_id + 1) % 2 ^ 32

    free : Dict.contains uid s.rooms ≡ false
    free = fresh_uid s uid q (omega arith)

-- A room that is deleted is gone, and no other is; a UID without a room is an error.
pub delete_room_lem :
    (uid : ℕ) (s : RoomSystem)
    → ((Dict.contains uid s.rooms ≡ false) × (delete_room uid s ≡ none))
      ⊎ ((s' : RoomSystem) × (delete_room uid s ≡ some s')
          × ((j : ℕ) → Dict.find j s'.rooms ≡ (if uid == j then none else Dict.find j s.rooms)))
unfolding delete_room
delete_room_lem uid s = elim (Bool-cases (Dict.contains uid s.rooms)) [
  | inl there ↦ inr (
    record s { rooms = Dict.erase uid s.rooms },
    ground arith,
    λ j. Dict.find-erase uid j s.rooms,
  )
  | inr missing ↦ inl (missing, ground arith)
]

-- The calls that change the registry.
pub data Call : Type 0 where
  creates : (Room → Room) → Call
  visits : ℕ → (Room → Room) → Call
  deletes : ℕ → Call

abbrev or_same : RoomSystem → Option RoomSystem → RoomSystem
or_same s none = s
or_same s (some s') = s'

-- A call that throws leaves the registry as it was. The UIDs of created rooms are collected.
unfoldable pub step : Call → RoomSystem → RoomSystem × List ℕ
unfolding create_room get_room delete_room
step (creates consumer) s = let (s', uid) = create_room consumer s in (s', uid ∷ [])
step (visits uid consumer) s = (or_same s (get_room uid consumer s), [])
step (deletes uid) s = (or_same s (delete_room uid s), [])

unfoldable pub run_calls : List Call → RoomSystem → RoomSystem × List ℕ
run_calls [] s = (s, [])
run_calls (c ∷ cs) s =
    let (s', uids) = step c s in let (s'', more) = run_calls cs s' in (s'', uids ++ more)

visit-IsSequenced :
    (uid : ℕ) (consumer : Room → Room) (s : RoomSystem)
    → IsSequenced s
    → IsSequenced (or_same s (get_room uid consumer s))
unfolding get_room
visit-IsSequenced uid consumer s q = elim (Bool-cases (Dict.contains uid s.rooms)) [
  | inl there ↦ rw there (record {
    issued = λ j k. q.issued j (ground (arith, Dict.contains-modify uid j consumer s.rooms));
    unique = Dict.modify-IsUnique uid consumer s.rooms q.unique;
  })
  | inr missing ↦ rw missing q
]

delete-IsSequenced :
    (uid : ℕ) (s : RoomSystem) → IsSequenced s → IsSequenced (or_same s (delete_room uid s))
unfolding delete_room
delete-IsSequenced uid s q = elim (Bool-cases (Dict.contains uid s.rooms)) [
  | inl there ↦ rw there (record {
    issued = λ j k. q.issued j (ground (arith, Dict.find-erase uid j s.rooms));
    unique = Dict.erase-IsUnique uid s.rooms q.unique;
  })
  | inr missing ↦ rw missing q
]

-- UIDs that rise from above `n`.
abbrev pub RisesFrom : ℕ → List ℕ → Type 0
RisesFrom n [] = Unit {0}
RisesFrom n (u ∷ us) = (n < u) × RisesFrom u us

sequenced_id-visit :
    (uid : ℕ) (consumer : Room → Room) (s : RoomSystem)
    → (or_same s (get_room uid consumer s)).sequenced_id ≡ s.sequenced_id
unfolding get_room
sequenced_id-visit uid consumer s = ground arith

sequenced_id-delete :
    (uid : ℕ) (s : RoomSystem) → (or_same s (delete_room uid s)).sequenced_id ≡ s.sequenced_id
unfolding delete_room
sequenced_id-delete uid s = ground arith

-- However rooms are created, changed and deleted, no UID is given out twice while the counter does
-- not wrap: the UIDs rise, from above the counter at the start, and stay in sequence. At the start
-- every room's UID has been given out.
pub run_calls-RisesFrom :
    (cs : List Call) (s : RoomSystem)
    → IsSequenced s
    → s.sequenced_id + length cs < 2 ^ 32
    → RisesFrom s.sequenced_id (run_calls cs s).1 × IsSequenced (run_calls cs s).0
unfolding run_calls step create_room
run_calls-RisesFrom [] s q h = (tt, q)
run_calls-RisesFrom (creates consumer ∷ cs) s q h =
    let (s', uid) = create_room consumer s in
    let rest =
      run_calls-RisesFrom cs s' (create_room_lem consumer s q (omega arith)).3 (omega arith) in
    ((omega arith, rest.0), rest.1)
run_calls-RisesFrom (visits uid consumer ∷ cs) s q h =
    let same = sequenced_id-visit uid consumer s in
    let rest =
      run_calls-RisesFrom cs (or_same s (get_room uid consumer s))
        (visit-IsSequenced uid consumer s q) (omega arith) in
    (
      subst (λ n. RisesFrom n (run_calls cs (or_same s (get_room uid consumer s))).1) same rest.0,
      rest.1,
    )
run_calls-RisesFrom (deletes uid ∷ cs) s q h =
    let same = sequenced_id-delete uid s in
    let rest =
      run_calls-RisesFrom cs (or_same s (delete_room uid s)) (delete-IsSequenced uid s q)
        (omega arith) in
    (subst (λ n. RisesFrom n (run_calls cs (or_same s (delete_room uid s))).1) same rest.0, rest.1)
