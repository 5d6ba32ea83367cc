-- ===== src/Tracker/Examples.antt =====
-- A race and a ranch with a few objects.
use alicia_server.Common.{List, [], ◌∷◌, arith}
use alicia_server.Tracker.Race.{RaceTracker, new_tracker}
use alicia_server.Tracker.Race.Oids as RaceOids
use alicia_server.Tracker.Race.Oids.{
  adds_racer, adds_item, step, removes_racer, clears, add_racer_invalid_oid,
  take_obstacle_instance_ids_lem, obstacle_block_contains_zero, run_new-HasOwnOids,
}
use alicia_server.Tracker.Ranch.{empty_ranch}
use alicia_server.Tracker.Ranch.Oids as RanchOids
use alicia_server.Tracker.Ranch.Oids.{
  adds_character, adds_horse, removes_horse, run-empty_ranch-HasOwnOids, add_character_again,
}

abbrev race_operations : List RaceOids.Operation
race_operations = adds_racer 7 ∷ adds_item ∷ adds_racer 8 ∷ removes_racer 7 ∷ adds_racer 7 ∷ []

run_new-HasOwnOids_example : RaceOids.HasOwnOids (RaceOids.run race_operations new_tracker)
run_new-HasOwnOids_example = run_new-HasOwnOids race_operations (omega arith)

-- A tracker whose counter is at the end of its range.
abbrev last_oid : RaceTracker
last_oid = record new_tracker { next_object_oid = 65535; next_obstacle_instance_id = 65530 }

abbrev ranch_operations : List RanchOids.Operation
ranch_operations = adds_character 7 ∷ adds_horse 70 ∷ adds_horse 70 ∷ removes_horse 70 ∷ []

run-empty_ranch-HasOwnOids_example :
    RanchOids.HasOwnOids (RanchOids.run ranch_operations empty_ranch)
run-empty_ranch-HasOwnOids_example = run-empty_ranch-HasOwnOids ranch_operations (omega arith)
