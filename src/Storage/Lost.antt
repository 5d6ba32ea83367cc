-- ===== src/Storage/Lost.antt =====
-- A change whose store fails: DataStorage::Tick clears the store queue whatever the listener says.
use alicia_server.Common.{
  ℕ, ◌≡◌, Bool, true, false, Option, none, some, List, [], ◌∷◌, ◌==◌, if◌then◌else◌, All, arith,
}
use alicia_server.Common.Dict
use alicia_server.Storage.{
  Entry, delete, invalidate, create, get_or_create, patch, save, get, request_store,
  request_retrieve, request_delete,
}
use alicia_server.Storage.View.{visible, visible-emplace}
use alicia_server.Storage.Ticks.{visible-tick, stored-tick, deleted-tick, queues-tick}
use alicia_server.Storage.System.{
  Written, broken, System, Operation, create_of, get_or_create_of, get_of, patch_of, invalidate_of,
  delete_of, save_of, tick_of, terminate_of, step, run,
}

-- What asks for another store of the key, or drops its entry.
abbrev pub touches : {D : Type 0} → ℕ → Operation D → Bool
touches key (patch_of j f) = j == key
touches key (invalidate_of j) = j == key
touches key (delete_of j) = j == key
touches key (save_of j) = j == key
touches key (terminate_of stores) = true
touches key (create_of j v) = false
touches key (get_or_create_of j v) = false
touches key (get_of j retrieve) = false
touches key (tick_of reachable stores deletes) = false

module _ {D : Type 0} (blank : D) where
  -- The storage hands out `v` for the key, the source has `left`, and nothing is to be done.
  abbrev pub IsLost : ℕ → D → Option D → System D → Type 0
  IsLost key v left y =
      (visible key y.storage.entries ≡ some v)
      × (y.source key ≡ left)
      × (Dict.contains key y.storage.store_queue ≡ false)
      × (Dict.contains key y.storage.retrieve_queue ≡ false)
      × (Dict.contains key y.storage.delete_queue ≡ false)

  step-IsLost :
      (key : ℕ) (v : D) (left : Option D) (o : Operation D) (y : System D)
      → touches key o ≡ false
      → IsLost key v left y
      → IsLost key v left (step blank o y)
  unfolding step create get_or_create get patch invalidate delete save request_store
      request_retrieve request_delete
  step-IsLost key v left (create_of j w) y calm lost = ground (
    arith,
    Dict.find-assign j key (record { available = true; value = w }) y.storage.entries,
    Dict.find-try_emplace j key tt y.storage.store_queue,
  )
  step-IsLost key v left (get_or_create_of j w) y calm lost = ground (
    arith,
    Dict.find-assign j key (record { available = true; value = w }) y.storage.entries,
    Dict.find-try_emplace j key tt y.storage.store_queue,
  )
  step-IsLost key v left (get_of j r) y calm lost = ground (
    arith,
    visible-emplace blank j key y.storage.entries,
    Dict.find-try_emplace j key tt y.storage.retrieve_queue,
  )
  step-IsLost key v left (patch_of j f) y calm lost = ground (
    arith,
    Dict.find-modify j key (λ (e : Entry D). record e { value = f e.value }) y.storage.entries,
    Dict.find-try_emplace j key tt y.storage.store_queue,
  )
  step-IsLost key v left (invalidate_of j) y calm lost =
      ground (arith, Dict.find-erase j key y.storage.entries)
  step-IsLost key v left (delete_of j) y calm lost = ground (
    arith,
    Dict.find-erase j key y.storage.entries,
    Dict.find-try_emplace j key tt y.storage.delete_queue,
  )
  step-IsLost key v left (save_of j) y calm lost =
      ground (arith, Dict.find-try_emplace j key tt y.storage.store_queue)
  step-IsLost key v left (tick_of reachable stores deletes) y calm lost =
      let retrieve : ℕ → Option D = λ k. if reachable k then y.source k else none in
      ground (
        arith,
        visible-tick blank retrieve deletes key y.storage,
        stored-tick blank retrieve deletes key y.storage,
        deleted-tick blank retrieve deletes key y.storage,
        queues-tick blank retrieve deletes y.storage,
        Dict.find-nil {V = Unit {0}} key,
      )
  step-IsLost key v left (terminate_of stores) y calm lost = absurd (let e = calm in ground arith)

  run_from-IsLost :
      (key : ℕ) (v : D) (left : Option D) (os : List (Operation D)) (y : System D)
      → All (λ o. touches key o ≡ false) os
      → IsLost key v left y
      → IsLost key v left (run blank os y)
  unfolding run
  run_from-IsLost key v left [] y calm lost = lost
  run_from-IsLost key v left (o ∷ os) y calm lost =
      run_from-IsLost key v left os (step blank o y) calm.1 (step-IsLost key v left o y calm.0 lost)

  -- The tick in which a store fails.
  tick-IsLost :
      (key : ℕ) (v : D) (left : Option D) (reachable deletes : ℕ → Bool) (stores : ℕ → Written D)
      (y : System D)
      → visible key y.storage.entries ≡ some v
      → Dict.contains key y.storage.store_queue ≡ true
      → Dict.contains key y.storage.retrieve_queue ≡ false
      → Dict.contains key y.storage.delete_queue ≡ false
      → stores key ≡ broken left
      → IsLost key v left (step blank (tick_of reachable stores deletes) y)
  unfolding step
  tick-IsLost key v left reachable deletes stores y shown queued idle kept fails =
      let retrieve : ℕ → Option D = λ k. if reachable k then y.source k else none in
      ground (
        arith,
        visible-tick blank retrieve deletes key y.storage,
        stored-tick blank retrieve deletes key y.storage,
        deleted-tick blank retrieve deletes key y.storage,
        queues-tick blank retrieve deletes y.storage,
        Dict.find-nil {V = Unit {0}} key,
      )

  -- If a tick stores a visible value, no retrieval or deletion of its key is waiting, and the store
  -- fails, then whatever happens afterwards, but for a change, a save, an invalidation or a
  -- deletion of the key and a termination, the storage goes on to hand out the value, the source
  -- has what the failed store left there, and the key waits for no store: the change is not written
  -- again.
  pub run-IsLost :
      (key : ℕ) (v : D) (left : Option D) (reachable deletes : ℕ → Bool) (stores : ℕ → Written D)
      (os : List (Operation D)) (y : System D)
      → visible key y.storage.entries ≡ some v
      → Dict.contains key y.storage.store_queue ≡ true
      → Dict.contains key y.storage.retrieve_queue ≡ false
      → Dict.contains key y.storage.delete_queue ≡ false
      → stores key ≡ broken left
      → All (λ o. touches key o ≡ false) os
      → IsLost key v left (run blank (tick_of reachable stores deletes ∷ os) y)
  unfolding run
  run-IsLost key v left reachable deletes stores os y shown queued idle kept fails calm =
      run_from-IsLost key v left os (step blank (tick_of reachable stores deletes) y) calm
        (tick-IsLost key v left reachable deletes stores y shown queued idle kept fails)
