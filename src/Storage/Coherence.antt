-- ===== src/Storage/Coherence.antt =====
-- DataStorage and its data source together: what the cache hands out and what the source holds.
use alicia_server.Common.{
  ℕ, ◌≡◌, true, false, Option, none, some, List, [], ◌∷◌, if◌then◌else◌, arith,
}
use alicia_server.Common.Dict
use alicia_server.Common.Dict.{Dict}
use alicia_server.Storage.{
  Entry, delete, invalidate, create, get_or_create, patch, save, get, terminate, request_store,
  request_retrieve, request_delete,
}
use alicia_server.Storage.View.{visible, visible-emplace}
use alicia_server.Storage.Ticks.{visible-tick, stored-tick, deleted-tick}
use alicia_server.Storage.System.{
  Source, System, new_system, Operation, create_of, get_or_create_of, get_of, patch_of,
  invalidate_of, delete_of, save_of, tick_of, terminate_of, step, run,
}

module _ {D : Type 0} (blank : D) where
  -- A value that `get` hands out is the source's, unless it waits to be stored or its last store has
  -- failed.
  abbrev IsCoherent : System D → Type 0
  IsCoherent y =
      (key : ℕ) (v : D)
      → visible key y.storage.entries ≡ some v
      → Dict.contains key y.storage.store_queue ≡ false
      → y.unstored key ≡ false
      → y.source key ≡ some v

  step-IsCoherent : (o : Operation D) (y : System D) → IsCoherent y → IsCoherent (step blank o y)
  unfolding step create get_or_create get patch invalidate delete save terminate request_store
      request_retrieve request_delete
  step-IsCoherent (create_of j w) y c key v = ground (
    arith,
    c key v,
    Dict.find-assign j key (record { available = true; value = w }) y.storage.entries,
    Dict.find-try_emplace j key tt y.storage.store_queue,
  )
  step-IsCoherent (get_or_create_of j w) y c key v = ground (
    arith,
    c key v,
    Dict.find-assign j key (record { available = true; value = w }) y.storage.entries,
    Dict.find-try_emplace j key tt y.storage.store_queue,
  )
  step-IsCoherent (get_of j r) y c key v =
      ground (arith, c key v, visible-emplace blank j key y.storage.entries)
  step-IsCoherent (patch_of j f) y c key v = ground (
    arith,
    c key v,
    Dict.find-modify j key (λ (e : Entry D). record e { value = f e.value }) y.storage.entries,
    Dict.find-try_emplace j key tt y.storage.store_queue,
  )
  step-IsCoherent (invalidate_of j) y c key v =
      ground (arith, c key v, Dict.find-erase j key y.storage.entries)
  step-IsCoherent (delete_of j) y c key v =
      ground (arith, c key v, Dict.find-erase j key y.storage.entries)
  step-IsCoherent (save_of j) y c key v =
      ground (arith, c key v, Dict.find-try_emplace j key tt y.storage.store_queue)
  step-IsCoherent (tick_of reachable stores deletes) y c key v =
      let retrieve : ℕ → Option D = λ k. if reachable k then y.source k else none in
      ground (
        arith,
        c key v,
        visible-tick blank retrieve deletes key y.storage,
        stored-tick blank retrieve deletes key y.storage,
        deleted-tick blank retrieve deletes key y.storage,
      )
  step-IsCoherent (terminate_of stores) y c key v = ground (arith, Dict.find-nil {V = Entry D} key)

  run_from-IsCoherent :
      (os : List (Operation D)) (y : System D) → IsCoherent y → IsCoherent (run blank os y)
  unfolding run
  run_from-IsCoherent [] y c = c
  run_from-IsCoherent (o ∷ os) y c = run_from-IsCoherent os (step blank o y) (step-IsCoherent o y c)

  run_new-IsCoherent :
      (os : List (Operation D)) (source : Source D) → IsCoherent (run blank os (new_system source))
  run_new-IsCoherent os source =
      run_from-IsCoherent os (new_system source)
        (λ key v. ground (arith, Dict.find-nil {V = Entry D} key))

  -- Whatever the consumers, the ticks and the data source do from an empty storage on, where a
  -- store may fail and leave anything in the source, and a retrieval or a deletion that fails
  -- changes nothing: a value that is visible in the storage is the value the source has, unless its
  -- key waits to be stored or its last store has failed.
  pub run-visible :
      (os : List (Operation D)) (source : Source D) (key : ℕ) (v : D)
      → let y = run blank os (new_system source) in
        visible key y.storage.entries ≡ some v
        → Dict.contains key y.storage.store_queue ≡ false
        → y.unstored key ≡ false
        → y.source key ≡ some v
  run-visible os source = run_new-IsCoherent os source
