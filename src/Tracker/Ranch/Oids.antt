-- ===== src/Tracker/Ranch/Oids.antt =====
-- No two objects of a ranch share an object identifier.
use alicia_server.Common.{
  ℕ, ◌+◌, ◌^◌, ◌≤◌, ◌<◌, ◌≡◌, ◌≢◌, some, List, [], ◌∷◌, length, arith, Bool-cases, inl, inr,
  if◌then◌else◌, ◌==◌,
}
use alicia_server.Common.Dict
use alicia_server.Common.Dict.{Dict}
use alicia_server.Tracker.Ranch.{
  RanchTracker, empty_ranch, get_character_oid, add_character, remove_character, add_horse,
  remove_horse,
}

-- Characters and horses hold valid OIDs below the next one, and no two of them the same.
pub record HasOwnOids (t : RanchTracker) : Type 0 where
  pub character_oid :
      (c o : ℕ) → Dict.find c t.characters ≡ some o → (0 < o) × (o < t.next_object_id)
  pub horse_oid : (h o : ℕ) → Dict.find h t.horses ≡ some o → (0 < o) × (o < t.next_object_id)
  pub characters_differ :
      (c d o : ℕ) → Dict.find c t.characters ≡ some o → Dict.find d t.characters ≡ some o → c ≡ d
  pub horses_differ :
      (h k o : ℕ) → Dict.find h t.horses ≡ some o → Dict.find k t.horses ≡ some o → h ≡ k
  pub character_is_no_horse :
      (c h o : ℕ) → Dict.find c t.characters ≡ some o → Dict.find h t.horses ≢ some o
  pub next_valid : 0 < t.next_object_id

pub data Operation : Type 0 where
  adds_character removes_character adds_horse removes_horse : ℕ → Operation

unfoldable pub step : Operation → RanchTracker → RanchTracker
unfolding add_character remove_character add_horse remove_horse
step (adds_character c) t = (add_character c t).0
step (removes_character c) t = remove_character c t
step (adds_horse h) t = (add_horse h t).0
step (removes_horse h) t = remove_horse h t

pub run : List Operation → RanchTracker → RanchTracker
run [] t = t
run (o ∷ os) t = run os (step o t)

empty_ranch-HasOwnOids : HasOwnOids empty_ranch
unfolding Dict.find
empty_ranch-HasOwnOids = record {
  character_oid = λ c o e. absurd (let p = e in cc);
  horse_oid = λ c o e. absurd (let p = e in cc);
  characters_differ = λ c d o e f. absurd (let p = e in cc);
  horses_differ = λ c d o e f. absurd (let p = e in cc);
  character_is_no_horse = λ c h o e. absurd (let p = e in cc);
  next_valid = omega arith;
}

add_character-HasOwnOids :
    (c : ℕ) (t : RanchTracker)
    → HasOwnOids t
    → t.next_object_id + 1 < 2 ^ 16
    → HasOwnOids (add_character c t).0
unfolding add_character
add_character-HasOwnOids c t h b = elim (Bool-cases (Dict.contains c t.characters)) [
  | inl there ↦ rw there h
  | inr free ↦ rw free (record {
    character_oid = λ d o e. ground (arith, at d, h.character_oid d o, h.next_valid);
    horse_oid = λ k o e. ground (arith, h.horse_oid k o e);
    characters_differ = λ d f o p q.
        ground
          (arith, at d, at f, h.character_oid d o, h.character_oid f o, h.characters_differ d f o);
    horses_differ = h.horses_differ;
    character_is_no_horse =
        λ d k o p q. ground (arith, at d, h.horse_oid k o q, h.character_is_no_horse d k o);
    next_valid = omega (arith, h.next_valid);
  })
]
  where
    at :
        (d : ℕ)
        → Dict.find d (Dict.assign c t.next_object_id t.characters)
          ≡ (if c == d then some t.next_object_id else Dict.find d t.characters)
    at d = Dict.find-assign c d t.next_object_id t.characters

add_horse-HasOwnOids :
    (k : ℕ) (t : RanchTracker)
    → HasOwnOids t
    → t.next_object_id + 1 < 2 ^ 16
    → HasOwnOids (add_horse k t).0
unfolding add_horse
add_horse-HasOwnOids k t h b = record {
  character_oid = λ d o e. ground (arith, h.character_oid d o e);
  horse_oid = λ d o e. ground (arith, at d, h.horse_oid d o, h.next_valid);
  characters_differ = h.characters_differ;
  horses_differ = λ d f o p q.
      ground (arith, at d, at f, h.horse_oid d o, h.horse_oid f o, h.horses_differ d f o);
  character_is_no_horse =
      λ d f o p q. ground (arith, at f, h.character_oid d o p, h.character_is_no_horse d f o p);
  next_valid = omega (arith, h.next_valid);
}
  where
    at :
        (d : ℕ)
        → Dict.find d (Dict.assign k t.next_object_id t.horses)
          ≡ (if k == d then some t.next_object_id else Dict.find d t.horses)
    at d = Dict.find-assign k d t.next_object_id t.horses

erased : (k d o : ℕ) (m : Dict ℕ) → Dict.find d (Dict.erase k m) ≡ some o → Dict.find d m ≡ some o
erased k d o m e = ground (arith, Dict.find-erase k d m)

remove_character-HasOwnOids :
    (c : ℕ) (t : RanchTracker) → HasOwnOids t → HasOwnOids (remove_character c t)
unfolding remove_character
remove_character-HasOwnOids c t h = elim (Bool-cases (Dict.contains c t.characters)) [
  | inr missing ↦ rw missing h
  | inl there ↦ rw there (record {
    character_oid = λ d o e. h.character_oid d o (erased c d o t.characters e);
    horse_oid = h.horse_oid;
    characters_differ = λ d f o p q.
        h.characters_differ d f o (erased c d o t.characters p) (erased c f o t.characters q);
    horses_differ = h.horses_differ;
    character_is_no_horse = λ d k o p. h.character_is_no_horse d k o (erased c d o t.characters p);
    next_valid = h.next_valid;
  })
]

remove_horse-HasOwnOids : (k : ℕ) (t : RanchTracker) → HasOwnOids t → HasOwnOids (remove_horse k t)
unfolding remove_horse
remove_horse-HasOwnOids k t h = elim (Bool-cases (Dict.contains k t.horses)) [
  | inr missing ↦ rw missing h
  | inl there ↦ rw there (record {
    character_oid = h.character_oid;
    horse_oid = λ d o e. h.horse_oid d o (erased k d o t.horses e);
    characters_differ = h.characters_differ;
    horses_differ =
        λ d f o p q. h.horses_differ d f o (erased k d o t.horses p) (erased k f o t.horses q);
    character_is_no_horse = λ d f o p q. h.character_is_no_horse d f o p (erased k f o t.horses q);
    next_valid = h.next_valid;
  })
]

step-HasOwnOids :
    (o : Operation) (t : RanchTracker)
    → HasOwnOids t
    → t.next_object_id + 1 < 2 ^ 16
    → HasOwnOids (step o t)
unfolding step
step-HasOwnOids (adds_character c) t h b = add_character-HasOwnOids c t h b
step-HasOwnOids (removes_character c) t h b = remove_character-HasOwnOids c t h
step-HasOwnOids (adds_horse k) t h b = add_horse-HasOwnOids k t h b
step-HasOwnOids (removes_horse k) t h b = remove_horse-HasOwnOids k t h

next_object_id-step :
    (o : Operation) (t : RanchTracker)
    → t.next_object_id + 1 < 2 ^ 16
    → (step o t).next_object_id ≤ t.next_object_id + 1
unfolding step
next_object_id-step (adds_character c) t b = ground arith
next_object_id-step (removes_character c) t b = ground arith
next_object_id-step (adds_horse k) t b = ground arith
next_object_id-step (removes_horse k) t b = ground arith

run-HasOwnOids :
    (os : List Operation) (t : RanchTracker)
    → HasOwnOids t
    → t.next_object_id + length os < 2 ^ 16
    → HasOwnOids (run os t)
unfolding run
run-HasOwnOids [] t h b = h
run-HasOwnOids (o ∷ os) t h b =
    run-HasOwnOids os (step o t) (step-HasOwnOids o t h (omega arith))
      (omega (arith, next_object_id-step o t (omega arith)))

-- In a ranch that starts empty, whatever characters and horses come and go, each has a valid OID
-- and no two share one, as long as there were fewer than 65535 operations.
pub run-empty_ranch-HasOwnOids :
    (os : List Operation) → length os + 1 < 2 ^ 16 → HasOwnOids (run os empty_ranch)
run-empty_ranch-HasOwnOids os b = run-HasOwnOids os empty_ranch empty_ranch-HasOwnOids (omega arith)

-- A character that is added again keeps its OID, and nothing changes.
pub add_character_again :
    (c : ℕ) (t : RanchTracker)
    → let (t', oid) = add_character c t in
      (add_character c t' ≡ (t', oid)) × (get_character_oid c t' ≡ oid)
unfolding add_character
add_character_again c t = ground (arith, Dict.find-assign c c t.next_object_id t.characters)
