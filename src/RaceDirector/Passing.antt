-- ===== src/RaceDirector/Passing.antt =====
-- Loops of server/race/RaceDirector::Tick that end without an exception: each race is passed, whole.
use alicia_server.Common.{
  ℕ, ◌≡◌, refl, sym, ◌∙◌, inl, inr, subst, false, none, some, [], ◌∷◌, ◌==◌, arith, Bool-cases,
  ==_iff,
}
use alicia_server.Common.Dict
use alicia_server.Common.Dict.{Dict}
use alicia_server.Room.Registry.{RoomSystem}
use alicia_server.RaceDirector.{RaceInstance, RaceDirector, Outcome}
use alicia_server.RaceDirector.Tick.{Turn, for_races, then_for_races}

-- What a loop has made of one race.
pub record Worked (body : ℕ → RaceInstance → RoomSystem → Turn) (uid : ℕ) (race : RaceInstance)
    (races : Dict RaceInstance) : Type 0 where
  pub rooms : RoomSystem
  pub found : Dict.find uid races ≡ some (body uid race rooms).race
  pub whole : (body uid race rooms).threw ≡ false

module _ (body : ℕ → RaceInstance → RoomSystem → Turn) where
  for_races-threw :
      (uid : ℕ) (race : RaceInstance) (races : Dict RaceInstance) (rooms : RoomSystem)
      → (for_races body ((uid, race) ∷ races) rooms).pass_threw ≡ false
      → ((body uid race rooms).threw ≡ false)
        × ((for_races body races (body uid race rooms).rooms).pass_threw ≡ false)
        × ((for_races body ((uid, race) ∷ races) rooms).races
            ≡ (uid, (body uid race rooms).race)
              ∷ (for_races body races (body uid race rooms).rooms).races)
  unfolding for_races
  for_races-threw uid race races rooms h = ground arith

  for_races-Worked :
      (uid : ℕ) (race : RaceInstance) (races : Dict RaceInstance) (rooms : RoomSystem)
      → (for_races body races rooms).pass_threw ≡ false
      → Dict.find uid races ≡ some race
      → Worked body uid race (for_races body races rooms).races
  unfolding Dict.find
  for_races-Worked uid race [] rooms h e = absurd (cc)
  for_races-Worked uid race ((j, r) ∷ races) rooms h e =
      let t = for_races-threw j r races rooms h in
      subst (Worked body uid race) (sym t.2) (elim (Bool-cases (j == uid)) [
        | inl same ↦
            let key : j ≡ uid = (==_iff j uid).0 same in
            let value : r ≡ race = ground arith in
            record {
              rooms = rooms;
              found = ground arith ∙ (λ i. some (body (key i) (value i) rooms).race);
              whole =
                  subst (λ (p : ℕ × RaceInstance). (body p.0 p.1 rooms).threw ≡ false)
                    (λ i. (key i, value i)) t.0;
            }
        | inr other ↦
            let w = for_races-Worked uid race races (body j r rooms).rooms t.1 (ground arith) in
            record { rooms = w.rooms; found = ground (arith, w.found); whole = w.whole }
      ])

  find-for_races-none :
      (uid : ℕ) (races : Dict RaceInstance) (rooms : RoomSystem)
      → Dict.find uid races ≡ none
      → Dict.find uid (for_races body races rooms).races ≡ none
  unfolding Dict.find for_races
  find-for_races-none uid [] rooms e = refl
  find-for_races-none uid ((j, r) ∷ races) rooms e =
      ground (arith, find-for_races-none uid races (body j r rooms).rooms)

module _ (body : RaceDirector → ℕ → RaceInstance → RoomSystem → Turn) where
  then_for_races-threw :
      (o : Outcome)
      → (then_for_races body o).threw ≡ false
      → (o.threw ≡ false)
        × ((for_races (body o.director) o.director.race_instances o.director.room_system).pass_threw
            ≡ false)
        × ((then_for_races body o).director.race_instances
            ≡ (for_races (body o.director) o.director.race_instances o.director.room_system).races)
  unfolding then_for_races
  then_for_races-threw o h = ground arith

  pub then_for_races-Worked :
      (o : Outcome) (uid : ℕ) (race : RaceInstance)
      → (then_for_races body o).threw ≡ false
      → Dict.find uid o.director.race_instances ≡ some race
      → Worked (body o.director) uid race (then_for_races body o).director.race_instances
  then_for_races-Worked o uid race h e =
      let t = then_for_races-threw o h in
      subst (Worked (body o.director) uid race) (sym t.2) (
        for_races-Worked (body o.director) uid race o.director.race_instances o.director.room_system
          t.1 e)

  pub then_for_races-began : (o : Outcome) → (then_for_races body o).threw ≡ false → o.threw ≡ false
  then_for_races-began o h = (then_for_races-threw o h).0

  pub find-then_for_races-none :
      (o : Outcome) (uid : ℕ)
      → Dict.find uid o.director.race_instances ≡ none
      → Dict.find uid (then_for_races body o).director.race_instances ≡ none
  unfolding then_for_races
  find-then_for_races-none o uid e = ground (
    arith,
    find-for_races-none (body o.director) uid o.director.race_instances o.director.room_system,
  )
