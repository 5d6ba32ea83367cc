-- ===== src/RaceDirector/Stages.antt =====
-- The stages of the races of server/race/RaceDirector, as a diagram, and the ticks along it.
use alicia_server.Common.{
  ℕ, ◌≡◌, ◌⊎◌, inl, inr, refl, sym, subst, Bool, true, false, some, [], ◌∷◌, ◌++◌, ◌==◌,
  if◌then◌else◌, arith, Bool-cases, ==_iff,
}
use alicia_server.Common.Dict
use alicia_server.Common.Dict.{Dict}
use alicia_server.Room.Registry.{RoomSystem}
use alicia_server.RaceDirector.{Stage, RaceInstance, RaceDirector, Outcome}
use alicia_server.RaceDirector.Registry.{Registry}
use alicia_server.RaceDirector.Tick.{
  Turn, tick_loading, tick_racing, tick_finishing, for_races, then_for_races, tick,
}

infix 40 ◌⟶◌ ◌⟶*◌
pub data ◌⟶◌ : Stage → Stage → Type 0 where
  load : Stage.loading ⟶ Stage.racing
  end_race : Stage.racing ⟶ Stage.finishing
  go_back : Stage.finishing ⟶ Stage.waiting

pub data ◌⟶*◌ : Stage → Stage → Type 0 where
  here : {s : Stage} → s ⟶* s
  next : {s t u : Stage} → s ⟶ t → t ⟶* u → s ⟶* u

chained : {s t u : Stage} → s ⟶* t → t ⟶* u → s ⟶* u
chained here q = q
chained (next e p) q = next e (chained p q)

-- What a loop over the races makes of one race: nothing, if it is not reached, or what its body
-- makes of it.
pub record Passed (body : ℕ → RaceInstance → RoomSystem → Turn) (uid : ℕ) (race : RaceInstance)
    (races : Dict RaceInstance) : Type 0 where
  pub race' : RaceInstance
  pub found : Dict.find uid races ≡ some race'
  pub turned : (race' ≡ race) ⊎ ((rooms : RoomSystem) × (race' ≡ (body uid race rooms).race))

module _ (body : ℕ → RaceInstance → RoomSystem → Turn) where
  for_races-cons :
      (uid : ℕ) (race : RaceInstance) (races : Dict RaceInstance) (rooms : RoomSystem)
      → (for_races body ((uid, race) ∷ races) rooms).races
        ≡ (uid, (body uid race rooms).race)
          ∷ (if (body uid race rooms).threw
              then races
              else (for_races body races (body uid race rooms).rooms).races)
  unfolding for_races
  for_races-cons uid race races rooms = ground arith

  unreached :
      (uid : ℕ) (race : RaceInstance) (races : Dict RaceInstance)
      → Dict.find uid races ≡ some race
      → Passed body uid race races
  unreached uid race races e = record { race' = race; found = e; turned = inl refl }

  either_way :
      (uid : ℕ) (race : RaceInstance) (threw : Bool) (left right : Dict RaceInstance)
      → Passed body uid race left
      → Passed body uid race right
      → Passed body uid race (if threw then left else right)
  either_way uid race true left right p q = p
  either_way uid race false left right p q = q

  behind :
      (uid j : ℕ) (race r : RaceInstance) (races : Dict RaceInstance)
      → (j == uid) ≡ false
      → Passed body uid race races
      → Passed body uid race ((j, r) ∷ races)
  unfolding Dict.find
  behind uid j race r races other p = record {
    race' = p.race';
    found = ground (arith, p.found);
    turned = p.turned;
  }

  -- No race is lost, and each is passed at most once.
  for_races-Passed :
      (uid : ℕ) (race : RaceInstance) (races : Dict RaceInstance) (rooms : RoomSystem)
      → Dict.find uid races ≡ some race
      → Passed body uid race (for_races body races rooms).races
  unfolding Dict.find
  for_races-Passed uid race [] rooms e = absurd (cc)
  for_races-Passed uid race ((j, r) ∷ races) rooms e =
      subst (Passed body uid race) (sym (for_races-cons j r races rooms))
        (elim (Bool-cases (j == uid)) [
          | inl same ↦
              let key : j ≡ uid = (==_iff j uid).0 same in
              let value : r ≡ race = ground arith in
              record {
                race' = (body j r rooms).race;
                found = ground arith;
                turned = inr (rooms, λ i. (body (key i) (value i) rooms).race);
              }
          | inr other ↦
              let rest : Dict.find uid races ≡ some race = ground arith in
              behind uid j race _ _ other (
                either_way uid race (body j r rooms).threw races _
                  (record { race' = race; found = rest; turned = inl refl })
                  (for_races-Passed uid race races (body j r rooms).rooms rest))
        ])

-- A race of a director that has been taken along the diagram.
pub record Advanced (uid : ℕ) (race : RaceInstance) (d : RaceDirector) : Type 0 where
  pub race' : RaceInstance
  pub found : Dict.find uid d.race_instances ≡ some race'
  pub along : race.stage ⟶* race'.stage

-- A loop whose body takes every race along the diagram.
then_for_races-Advanced :
    (body : RaceDirector → ℕ → RaceInstance → RoomSystem → Turn) (o : Outcome) (uid : ℕ)
    (race : RaceInstance)
    → ((d : RaceDirector) (j : ℕ) (r : RaceInstance) (rooms : RoomSystem)
        → r.stage ⟶* (body d j r rooms).race.stage)
    → Advanced uid race o.director
    → Advanced uid race (then_for_races body o).director
unfolding then_for_races
then_for_races-Advanced body o uid race moves a =
    elim o.threw
      as (λ threw.
        Advanced uid race
          (if threw
            then o
            else let d = o.director in
              let pass = for_races (body d) d.race_instances d.room_system in
              record {
                director = record d { race_instances = pass.races; room_system = pass.pass_rooms };
                sent = o.sent ++ pass.pass_sent;
                threw = pass.pass_threw;
              }).director) [
                | true ↦ a
                | false ↦
                    let passed =
                      for_races-Passed (body o.director) uid a.race' o.director.race_instances
                        o.director.room_system a.found in
                    record {
                      race' = passed.race';
                      found = passed.found;
                      along = elim passed.turned [
                        | inl still ↦
                            subst (λ (r : RaceInstance). race.stage ⟶* r.stage) (sym still) a.along
                        | inr (rooms, e) ↦
                            subst (λ (r : RaceInstance). race.stage ⟶* r.stage) (sym e)
                              (chained a.along (moves o.director uid a.race' rooms))
                      ];
                    }
              ]

-- A body that leaves the stage as it was, or takes one edge.
by_edge : {a b : Stage} (s t : Stage) → a ⟶ b → (t ≡ s) ⊎ ((s ≡ a) × (t ≡ b)) → s ⟶* t
by_edge s t edge (inl still) = subst (λ u. s ⟶* u) (sym still) here
by_edge {a} s t edge (inr (from, to)) =
    subst (λ u. u ⟶* t) (sym from) (subst (λ u. a ⟶* u) (sym to) (next edge here))

module _ (race : RaceInstance) (rooms : RoomSystem) where
  tick_loading-edge :
      (registry : Registry) (now later : ℕ)
      → let stage = (tick_loading registry now later race rooms).race.stage in
        (stage ≡ race.stage) ⊎ ((race.stage ≡ Stage.loading) × (stage ≡ Stage.racing))
  unfolding tick_loading
  tick_loading-edge registry now later = ground arith

  tick_racing-edge :
      (d : RaceDirector) (now later : ℕ)
      → let stage = (tick_racing d now later race rooms).race.stage in
        (stage ≡ race.stage) ⊎ ((race.stage ≡ Stage.racing) × (stage ≡ Stage.finishing))
  unfolding tick_racing
  tick_racing-edge d now later = ground arith

  tick_finishing-edge :
      (registry : Registry) (now uid : ℕ)
      → let stage = (tick_finishing registry now uid race rooms).race.stage in
        (stage ≡ race.stage) ⊎ ((race.stage ≡ Stage.finishing) × (stage ≡ Stage.waiting))
  unfolding tick_finishing
  tick_finishing-edge registry now uid = ground arith

-- A tick of the director loses no race: a race that was there is there afterwards, and its stage
-- has moved, if at all, along the diagram from loading to racing, from racing to finishing and from
-- finishing to waiting, whether or not the tick ends by an exception.
pub tick-Advanced :
    (registry : Registry) (now later uid : ℕ) (d : RaceDirector) (race : RaceInstance)
    → Dict.find uid d.race_instances ≡ some race
    → Advanced uid race (tick registry now later d).director
unfolding tick
tick-Advanced registry now later uid d race e =
    then_for_races-Advanced _ _ uid race
      (λ _ j r rooms. by_edge r.stage _ go_back (tick_finishing-edge r rooms registry now j))
      (then_for_races-Advanced _ _ uid race
        (λ d' j r rooms. by_edge r.stage _ end_race (tick_racing-edge r rooms d' now later))
        (then_for_races-Advanced _ _ uid race
          (λ _ j r rooms. by_edge r.stage _ load (tick_loading-edge r rooms registry now later))
          (record { race' = race; found = e; along = here })))
