-- ===== src/RaceDirector/Served.antt =====
-- Directors of which no tick throws: the map of every race is found, and its room is there.
use alicia_server.Common.{
  ℕ, ◌≡◌, subst, Bool, true, false, some, [], ◌∷◌, ◌==◌, if◌then◌else◌, arith, is_some, inl, inr,
  Bool-cases, ==_iff,
}
use alicia_server.Common.Dict
use alicia_server.Common.Dict.{Dict}
use alicia_server.Room.{Room}
use alicia_server.RaceDirector.{RaceInstance, RaceDirector}
use alicia_server.RaceDirector.Registry.{Registry}

abbrev pub is_map : Registry → RaceInstance → Bool
is_map registry race = is_some (registry.map_block_info race.race_map_block_id)

pub by_test :
    {B : Type 0} (P : B → Type 0) (t : Bool) {b c : B} → P b → P c → P (if t then b else c)
by_test P true p q = p
by_test P false p q = q

-- Of the races with the rooms that there are.
abbrev pub AllServed : Registry → Dict Room → Dict RaceInstance → Type 0
AllServed registry rooms [] = Unit {0}
AllServed registry rooms ((uid, race) ∷ races) =
    (is_map registry race ≡ true)
    × (Dict.contains uid rooms ≡ true)
    × AllServed registry rooms races

abbrev pub IsServed : Registry → RaceDirector → Type 0
IsServed registry d = AllServed registry d.room_system.rooms d.race_instances

-- All rooms of one are among the others.
abbrev pub Includes : Dict Room → Dict Room → Type 0
Includes rooms rooms' = (uid : ℕ) → Dict.contains uid rooms ≡ true → Dict.contains uid rooms' ≡ true

pub more_rooms :
    (registry : Registry) (rooms rooms' : Dict Room) (races : Dict RaceInstance)
    → Includes rooms rooms'
    → AllServed registry rooms races
    → AllServed registry rooms' races
more_rooms registry rooms rooms' [] more served = tt
more_rooms registry rooms rooms' ((uid, race) ∷ races) more served =
    (served.0, more uid served.1, more_rooms registry rooms rooms' races more served.2)

module _ (registry : Registry) where
  pub served_at :
      (uid : ℕ) (race : RaceInstance) (rooms : Dict Room) (races : Dict RaceInstance)
      → AllServed registry rooms races
      → Dict.find uid races ≡ some race
      → (is_map registry race ≡ true) × (Dict.contains uid rooms ≡ true)
  unfolding Dict.find
  served_at uid race rooms [] served e = absurd (cc)
  served_at uid race rooms ((j, r) ∷ races) served e = elim (Bool-cases (j == uid)) [
    | inl h ↦
        let key : j ≡ uid = (==_iff j uid).0 h in
        let value : r ≡ race = ground arith in
        subst
          (λ (p : ℕ × RaceInstance).
            (is_map registry p.1 ≡ true) × (Dict.contains p.0 rooms ≡ true))
          (λ i. (key i, value i)) (served.0, served.1)
    | inr h ↦ served_at uid race rooms races served.2 (ground arith)
  ]

  pub assign-AllServed :
      (uid : ℕ) (race : RaceInstance) (rooms : Dict Room) (races : Dict RaceInstance)
      → is_map registry race ≡ true
      → Dict.contains uid rooms ≡ true
      → AllServed registry rooms races
      → AllServed registry rooms (Dict.assign uid race races)
  unfolding Dict.assign
  assign-AllServed uid race rooms [] m h served = (m, h, tt)
  assign-AllServed uid race rooms ((j, r) ∷ races) m h served =
      by_test (AllServed registry rooms) (j == uid) (m, h, served.2)
        (served.0, served.1, assign-AllServed uid race rooms races m h served.2)

  -- A race and its room are gone.
  pub erase-AllServed :
      (uid : ℕ) (rooms : Dict Room) (races : Dict RaceInstance)
      → AllServed registry rooms races
      → AllServed registry (Dict.erase uid rooms) (Dict.erase uid races)
  unfolding Dict.erase
  erase-AllServed uid rooms [] served = tt
  erase-AllServed uid rooms ((j, r) ∷ races) served =
      let rest = erase-AllServed uid rooms races served.2 in
      elim (Bool-cases (j == uid))
        as (λ _.
          AllServed registry (Dict.erase uid rooms)
            (if j == uid then Dict.erase uid races else (j, r) ∷ Dict.erase uid races)) [
              | inl h ↦ rw h rest
              | inr h ↦ rw h (served.0, kept j uid rooms h served.1, rest)
            ]
    where
      kept :
          (j uid : ℕ) (rooms : Dict Room)
          → (j == uid) ≡ false
          → Dict.contains j rooms ≡ true
          → Dict.contains j (Dict.erase uid rooms) ≡ true
      kept j uid rooms h e = ground (arith, Dict.find-erase uid j rooms)
