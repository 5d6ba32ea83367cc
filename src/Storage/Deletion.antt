-- ===== src/Storage/Deletion.antt =====
-- What becomes of a deleted record.
use alicia_server.Common.{
  ℕ, ◌≡◌, Bool, true, false, Option, none, List, [], ◌∷◌, ◌==◌, if◌then◌else◌, arith, member, All,
}
use alicia_server.Common.Dict
use alicia_server.Common.Dict.{Dict}
use alicia_server.Storage.{
  Entry, DataStorage, blank_entry, delete, invalidate, create, get_or_create, patch, save, get,
  tick, request_store, request_retrieve, request_delete,
}
use alicia_server.Storage.View.{visible, visible-emplace}
use alicia_server.Storage.Ticks.{visible-tick, deleted-tick, queues-tick}
use alicia_server.Storage.Listed.{contains-tick}
use alicia_server.Storage.System.{
  System, Operation, create_of, get_or_create_of, get_of, patch_of, invalidate_of, delete_of,
  save_of, tick_of, terminate_of, step, run,
}

-- The operations that take the entry of a key out of the storage.
abbrev drops : {D : Type 0} → ℕ → Operation D → Bool
drops key (invalidate_of j) = j == key
drops key (delete_of j) = j == key
drops key (terminate_of stores) = true
drops key _ = false

module _ {D : Type 0} (blank : D) where
  -- The key has an entry, whose record is not available, and no retrieval of it is waiting.
  abbrev pub IsStuck : ℕ → DataStorage D → Type 0
  IsStuck key s =
      (Dict.contains key s.entries ≡ true)
      × (visible key s.entries ≡ none)
      × (Dict.contains key s.retrieve_queue ≡ false)

  -- Once a record has been deleted and no retrieval of it was waiting, the next tick does not call
  -- the delete listener for it, and it leaves an entry that is not available.
  pub delete-tick :
      (retrieve : ℕ → Option D) (deletes : ℕ → Bool) (key : ℕ) (s : DataStorage D)
      → Dict.contains key s.retrieve_queue ≡ false
      → (member key (tick blank retrieve deletes (delete blank key s)).1.deleted ≡ false)
        × IsStuck key (tick blank retrieve deletes (delete blank key s)).0
  unfolding delete invalidate request_delete tick
  delete-tick retrieve deletes key s idle = ground (
    arith,
    visible-tick blank retrieve deletes key (delete blank key s),
    deleted-tick blank retrieve deletes key (delete blank key s),
    contains-tick blank retrieve deletes key (delete blank key s),
    Dict.find-erase key key s.entries,
    Dict.find-try_emplace key key tt s.delete_queue,
    Dict.find-nil {V = Unit {0}} key,
  )

  step-IsStuck :
      (key : ℕ) (o : Operation D) (y : System D)
      → drops key o ≡ false
      → IsStuck key y.storage
      → IsStuck key (step blank o y).storage
  unfolding step create get_or_create get patch invalidate delete save request_store
      request_retrieve request_delete
  step-IsStuck key (create_of j w) y kept stuck =
      ground
        (arith, Dict.find-assign j key (record { available = true; value = w }) y.storage.entries)
  step-IsStuck key (get_or_create_of j w) y kept stuck =
      ground
        (arith, Dict.find-assign j key (record { available = true; value = w }) y.storage.entries)
  step-IsStuck key (get_of j r) y kept stuck = ground (
    arith,
    visible-emplace blank j key y.storage.entries,
    Dict.find-try_emplace j key (blank_entry blank) y.storage.entries,
    Dict.find-try_emplace j key tt y.storage.retrieve_queue,
  )
  step-IsStuck key (patch_of j f) y kept stuck = ground (
    arith,
    Dict.find-modify j key (λ (e : Entry D). record e { value = f e.value }) y.storage.entries,
  )
  step-IsStuck key (invalidate_of j) y kept stuck =
      ground (arith, Dict.find-erase j key y.storage.entries)
  step-IsStuck key (delete_of j) y kept stuck =
      ground (arith, Dict.find-erase j key y.storage.entries)
  step-IsStuck key (save_of j) y kept stuck = stuck
  step-IsStuck key (tick_of reachable stores deletes) y kept stuck =
      let retrieve : ℕ → Option D = λ k. if reachable k then y.source k else none in
      ground (
        arith,
        visible-tick blank retrieve deletes key y.storage,
        contains-tick blank retrieve deletes key y.storage,
        queues-tick blank retrieve deletes y.storage,
        Dict.find-nil {V = Unit {0}} key,
      )
  step-IsStuck key (terminate_of stores) y kept stuck = ground arith

  -- A key that has an entry whose record is not available, and of which no retrieval is waiting,
  -- stays so through gets, creations, patches, saves and ticks, whatever the data source holds: a
  -- `get` finds nothing and requests nothing. Only an invalidation or deletion of the key, or a
  -- termination, takes the entry out.
  pub run-IsStuck :
      (key : ℕ) (os : List (Operation D)) (y : System D)
      → All (λ o. drops key o ≡ false) os
      → IsStuck key y.storage
      → IsStuck key (run blank os y).storage
        × ((get blank key true (run blank os y).storage).1 ≡ none)
        × ((get blank key true (run blank os y).storage).0.retrieve_queue
            ≡ (run blank os y).storage.retrieve_queue)
  unfolding run get
  run-IsStuck key [] y kept stuck =
      let e = visible-emplace blank key key y.storage.entries in (stuck, ground arith, ground arith)
  run-IsStuck key (o ∷ os) y kept stuck =
      run-IsStuck key os (step blank o y) kept.1 (step-IsStuck key o y kept.0 stuck)
