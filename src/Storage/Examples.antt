-- ===== src/Storage/Examples.antt =====
-- A storage of numbers.
use alicia_server.Common.{
  ℕ, ◌≡◌, refl, Bool, true, false, none, some, List, [], ◌∷◌, ◌==◌, if◌then◌else◌, member,
}
use alicia_server.Common.Dict
use alicia_server.Storage.{
  request_retrieve, retrieve_all, retrieve_entry, store_all, delete_all, DataStorage, new_storage,
  get, delete, tick,
}
use alicia_server.Storage.Ticks.{get-tick-get}
use alicia_server.Storage.System.{
  Source, System, new_system, done, broken, Operation, get_of, patch_of, tick_of, save_of, run,
  step,
}
use alicia_server.Storage.Coherence.{run-visible}
use alicia_server.Storage.Lost.{IsLost, run-IsLost}
use alicia_server.Storage.Deletion.{IsStuck, delete-tick, run-IsStuck}

-- The source has the number 5 under the key 1.
abbrev five : Source ℕ
five key = if key == 1 then some 5 else none

abbrev blank : ℕ
blank = 0

abbrev always : ℕ → Bool
always key = true

get-tick-get_example :
    ((get blank 1 true new_storage).1 ≡ none)
    × ((get blank 1 true (tick blank five always (get blank 1 true new_storage).0).0).1 ≡ some 5)
unfolding Dict.find
get-tick-get_example = get-tick-get blank five always 1 5 new_storage refl refl refl

abbrev some_operations : List (Operation ℕ)
some_operations =
    get_of 1 true
    ∷ tick_of always (λ key. done) always
    ∷ patch_of 1 (λ v. 6)
    ∷ save_of 2
    ∷ get_of 3 true
    ∷ []

abbrev retrieval : List (Operation ℕ)
retrieval = get_of 1 true ∷ tick_of always (λ key. done) always ∷ []

run-visible_example : (run blank retrieval (new_system five)).source 1 ≡ some 5
unfolding run Dict.find step tick get Dict.modify Dict.try_emplace Dict.assign request_retrieve
    retrieve_all retrieve_entry store_all delete_all
run-visible_example = run-visible blank retrieval five 1 5 refl refl refl

-- A storage that has the record and has written it.
abbrev with_five : DataStorage ℕ
with_five = record new_storage { entries = (1, record { available = true; value = 5 }) ∷ [] }

delete-tick_example :
    (member 1 (tick blank five always (delete blank 1 with_five)).1.deleted ≡ false)
    × IsStuck blank 1 (tick blank five always (delete blank 1 with_five)).0
unfolding Dict.find
delete-tick_example = delete-tick blank five always 1 with_five refl

abbrev after_delete : System ℕ
after_delete = record {
  storage = (tick blank five always (delete blank 1 with_five)).0;
  source = five;
  unstored = λ key. false;
}

run-IsStuck_example :
    IsStuck blank 1 (run blank some_operations after_delete).storage
    × ((get blank 1 true (run blank some_operations after_delete).storage).1 ≡ none)
    × ((get blank 1 true (run blank some_operations after_delete).storage).0.retrieve_queue
        ≡ (run blank some_operations after_delete).storage.retrieve_queue)
run-IsStuck_example =
    run-IsStuck blank 1 some_operations after_delete (refl, (refl, (refl, (refl, (refl, tt)))))
      delete-tick_example.1

-- The 5 of the source has become a 6 in the storage, and the source cannot be written.
abbrev patched : System ℕ
patched = record {
  storage = record new_storage {
    entries = (1, record { available = true; value = 6 }) ∷ [];
    store_queue = (1, tt) ∷ [];
  };
  source = five;
  unstored = λ key. false;
}

abbrev later : List (Operation ℕ)
later = get_of 1 true ∷ tick_of always (λ key. done) always ∷ save_of 2 ∷ []

run-IsLost_example :
    IsLost blank 1 6
      (some 5)
      (run blank (tick_of always (λ key. broken (five key)) always ∷ later) patched)
unfolding Dict.find
run-IsLost_example =
    run-IsLost blank 1 6 (some 5) always always (λ key. broken (five key)) later patched refl refl
      refl refl refl (refl, (refl, (refl, tt)))
