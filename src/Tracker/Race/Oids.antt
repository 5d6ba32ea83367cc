-- ===== src/Tracker/Race/Oids.antt =====
-- Object identifiers are not shared, and what happens at the end of their range.
use alicia_server.Common.{
  ℕ, ◌+◌, ◌-◌, ◌%◌, ◌^◌, ◌≤◌, ◌<◌, ◌≡◌, ◌≢◌, ◌⊎◌, false, Option, none, some, List, [], ◌∷◌, length,
  arith, Bool-cases, inl, inr,
}
use alicia_server.Common.Dict
use alicia_server.Common.Dict.{Dict}
use alicia_server.Tracker.Race.{
  Racer, Item, RaceTracker, new_tracker, new_racer, new_item, add_racer, remove_racer, add_item,
  remove_item, clear, take_obstacle_instance_ids,
}

-- The racers and items hold valid OIDs below the next one, each its own, and an item is filed under
-- its OID.
pub record HasOwnOids (t : RaceTracker) : Type 0 where
  pub racer_oid :
      (c : ℕ) (r : Racer)
      → Dict.find c t.racers ≡ some r
      → (0 < r.oid) × (r.oid < t.next_object_oid)
  pub item_oid :
      (i : ℕ) (x : Item)
      → Dict.find i t.items ≡ some x
      → (x.oid ≡ i) × (0 < i) × (i < t.next_object_oid)
  pub racers_differ :
      (c d : ℕ) (r s : Racer)
      → Dict.find c t.racers ≡ some r
      → Dict.find d t.racers ≡ some s
      → r.oid ≡ s.oid
      → c ≡ d
  pub racer_is_no_item :
      (c i : ℕ) (r : Racer) (x : Item)
      → Dict.find c t.racers ≡ some r
      → Dict.find i t.items ≡ some x
      → r.oid ≢ i
  pub next_valid : 0 < t.next_object_oid

pub new_tracker-HasOwnOids : HasOwnOids new_tracker
unfolding Dict.find
new_tracker-HasOwnOids = record {
  racer_oid = λ c r e. absurd (let p = e in cc);
  item_oid = λ i x e. absurd (let p = e in cc);
  racers_differ = λ c d r s e f g. absurd (let p = e in cc);
  racer_is_no_item = λ c i r x e f. absurd (let p = e in cc);
  next_valid = omega arith;
}

-- The operations that change what the tracker holds.
pub data Operation : Type 0 where
  adds_racer removes_racer removes_item : ℕ → Operation
  adds_item clears : Operation

-- An operation that throws leaves the tracker as it was.
abbrev or_same : RaceTracker → Option (RaceTracker × ℕ) → RaceTracker
or_same t none = t
or_same t (some (t', oid)) = t'

unfoldable pub step : Operation → RaceTracker → RaceTracker
unfolding remove_racer remove_item clear
step (adds_racer c) t = or_same t (add_racer c t)
step (removes_racer c) t = remove_racer c t
step (removes_item i) t = remove_item i t
step adds_item t = or_same t (add_item t)
step clears t = clear t

add_racer-HasOwnOids :
    (c : ℕ) (t : RaceTracker)
    → HasOwnOids t
    → t.next_object_oid + 1 < 2 ^ 16
    → HasOwnOids (or_same t (add_racer c t))
unfolding add_racer
add_racer-HasOwnOids c t h b = elim (Bool-cases (Dict.contains c t.racers)) [
  | inl there ↦ rw there h
  | inr free ↦ rw free (record {
    racer_oid = λ d r e. ground (arith, Dict.find-assign c d new t.racers, h.racer_oid d r);
    item_oid = λ i x e. ground (arith, h.item_oid i x e);
    racers_differ = λ d f r s p q. ground (
      arith,
      Dict.find-assign c d new t.racers,
      Dict.find-assign c f new t.racers,
      h.racer_oid d r,
      h.racer_oid f s,
      h.racers_differ d f r s,
    );
    racer_is_no_item = λ d i r x p q.
        ground
          (arith, Dict.find-assign c d new t.racers, h.item_oid i x q, h.racer_is_no_item d i r x);
    next_valid = omega (arith, h.next_valid);
  })
]
  where
    new : Racer
    new = record new_racer { oid = t.next_object_oid }

add_item-HasOwnOids :
    (t : RaceTracker)
    → HasOwnOids t
    → t.next_object_oid + 1 < 2 ^ 16
    → HasOwnOids (or_same t (add_item t))
unfolding add_item
add_item-HasOwnOids t h b = elim (Bool-cases (Dict.contains t.next_object_oid t.items)) [
  | inl there ↦ rw there h
  | inr free ↦ rw free (record {
    racer_oid = λ d r e. ground (arith, h.racer_oid d r e);
    item_oid = λ i x e.
        ground
          (arith, Dict.find-assign t.next_object_oid i new t.items, h.item_oid i x, h.next_valid);
    racers_differ = h.racers_differ;
    racer_is_no_item = λ d i r x p q. ground (
      arith,
      Dict.find-assign t.next_object_oid i new t.items,
      h.racer_oid d r p,
      h.racer_is_no_item d i r x p,
    );
    next_valid = omega (arith, h.next_valid);
  })
]
  where
    new : Item
    new = record new_item { oid = t.next_object_oid }

removes-HasOwnOids :
    (c i : ℕ) (t : RaceTracker)
    → HasOwnOids t
    → HasOwnOids (remove_racer c t) × HasOwnOids (remove_item i t)
unfolding remove_racer remove_item
removes-HasOwnOids c i t h = (
  record {
    racer_oid = λ d r e. h.racer_oid d r (ground (arith, Dict.find-erase c d t.racers));
    item_oid = h.item_oid;
    racers_differ = λ d f r s p q.
        h.racers_differ d f r s (ground (arith, Dict.find-erase c d t.racers))
          (ground (arith, Dict.find-erase c f t.racers));
    racer_is_no_item =
        λ d j r x p q. h.racer_is_no_item d j r x (ground (arith, Dict.find-erase c d t.racers)) q;
    next_valid = h.next_valid;
  },
  record {
    racer_oid = h.racer_oid;
    item_oid = λ j x e. h.item_oid j x (ground (arith, Dict.find-erase i j t.items));
    racers_differ = h.racers_differ;
    racer_is_no_item =
        λ d j r x p q. h.racer_is_no_item d j r x p (ground (arith, Dict.find-erase i j t.items));
    next_valid = h.next_valid;
  },
)

clear-HasOwnOids : (t : RaceTracker) → HasOwnOids (clear t)
unfolding clear Dict.find
clear-HasOwnOids t = record {
  racer_oid = λ c r e. absurd (let p = e in cc);
  item_oid = λ i x e. absurd (let p = e in cc);
  racers_differ = λ c d r s e f g. absurd (let p = e in cc);
  racer_is_no_item = λ c i r x e f. absurd (let p = e in cc);
  next_valid = omega arith;
}

step-HasOwnOids :
    (o : Operation) (t : RaceTracker)
    → HasOwnOids t
    → t.next_object_oid + 1 < 2 ^ 16
    → HasOwnOids (step o t)
unfolding step
step-HasOwnOids (adds_racer c) t h b = add_racer-HasOwnOids c t h b
step-HasOwnOids (removes_racer c) t h b = (removes-HasOwnOids c 0 t h).0
step-HasOwnOids (removes_item i) t h b = (removes-HasOwnOids 0 i t h).1
step-HasOwnOids adds_item t h b = add_item-HasOwnOids t h b
step-HasOwnOids clears t h b = clear-HasOwnOids t

next_object_oid-step :
    (o : Operation) (t : RaceTracker)
    → t.next_object_oid + 1 < 2 ^ 16
    → 0 < t.next_object_oid
    → (step o t).next_object_oid ≤ t.next_object_oid + 1
unfolding step add_racer add_item
next_object_oid-step (adds_racer c) t b p = ground arith
next_object_oid-step (removes_racer c) t b p = ground arith
next_object_oid-step (removes_item i) t b p = ground arith
next_object_oid-step adds_item t b p = ground arith
next_object_oid-step clears t b p = ground arith

pub run : List Operation → RaceTracker → RaceTracker
run [] t = t
run (o ∷ os) t = run os (step o t)

run-HasOwnOids :
    (os : List Operation) (t : RaceTracker)
    → HasOwnOids t
    → t.next_object_oid + length os < 2 ^ 16
    → HasOwnOids (run os t)
unfolding run
run-HasOwnOids [] t h b = h
run-HasOwnOids (o ∷ os) t h b =
    run-HasOwnOids os (step o t) (step-HasOwnOids o t h (omega arith))
      (omega (arith, next_object_oid-step o t (omega arith) h.next_valid))

-- In a new tracker, whatever racers and items come and go, every racer and item has a valid OID, no
-- two share one, and an item is filed under its own, as long as there were fewer than 65535
-- operations, so that the 16-bit counter has not wrapped.
pub run_new-HasOwnOids :
    (os : List Operation) → length os + 1 < 2 ^ 16 → HasOwnOids (run os new_tracker)
run_new-HasOwnOids os b = run-HasOwnOids os new_tracker new_tracker-HasOwnOids (omega arith)

-- If the counter is at the end of its 16-bit range and two new racers are added, the second one
-- gets the invalid OID 0.
pub add_racer_invalid_oid :
    (c d : ℕ) (t : RaceTracker)
    → t.next_object_oid ≡ 2 ^ 16 - 1
    → Dict.contains c t.racers ≡ false
    → c ≢ d
    → Dict.contains d t.racers ≡ false
    → Dict.find d (step (adds_racer d) (step (adds_racer c) t)).racers ≡ some new_racer
unfolding step add_racer
add_racer_invalid_oid c d t e fc n fd = ground (
  arith,
  Dict.find-assign c d (record new_racer { oid = t.next_object_oid }) t.racers,
  Dict.find-assign d d new_racer
      (Dict.assign c (record new_racer { oid = t.next_object_oid }) t.racers),
)

-- A block of obstacle instances that ends within the 16-bit range starts at the counter; the next
-- block starts behind it, or at 1 if the block ends with the range. The counter, positive before,
-- is not 0.
pub take_obstacle_instance_ids_lem :
    (increment : ℕ) (t : RaceTracker)
    → 0 < t.next_obstacle_instance_id
    → t.next_obstacle_instance_id + increment ≤ 2 ^ 16
    → let (t', first) = take_obstacle_instance_ids increment t in
      (first ≡ t.next_obstacle_instance_id)
      × (0 < t'.next_obstacle_instance_id)
      × ((t'.next_obstacle_instance_id ≡ first + increment)
          ⊎ ((first + increment ≡ 2 ^ 16) × (t'.next_obstacle_instance_id ≡ 1)))
unfolding take_obstacle_instance_ids
take_obstacle_instance_ids_lem increment t p b = ground arith

-- A block of fewer than 2 ^ 16 obstacles that passes the end of the 16-bit range contains the ID 0.
pub obstacle_block_contains_zero :
    (increment : ℕ) (t : RaceTracker)
    → t.next_obstacle_instance_id < 2 ^ 16
    → increment < 2 ^ 16
    → 2 ^ 16 < t.next_obstacle_instance_id + increment
    → (k : ℕ) × (k < increment)
      × (((take_obstacle_instance_ids increment t).1 + k) % 2 ^ 16 ≡ 0)
      × ((take_obstacle_instance_ids increment t).0.next_obstacle_instance_id
          ≡ t.next_obstacle_instance_id + increment - 2 ^ 16)
unfolding take_obstacle_instance_ids
obstacle_block_contains_zero increment t a b c =
    (2 ^ 16 - t.next_obstacle_instance_id, omega arith, omega arith, ground arith)
