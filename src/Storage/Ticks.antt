-- ===== src/Storage/Ticks.antt =====
-- What DataStorage::Tick does, seen from one key.
use alicia_server.Common.{
  ℕ, ◌≡◌, refl, Bool, true, false, ◌&&◌, Option, none, some, if◌then◌else◌, arith, member, is_some,
  [],
}
use alicia_server.Common.Dict
use alicia_server.Common.Dict.{Dict}
use alicia_server.Storage.{
  DataStorage, get, request_retrieve, blank_entry, tick, retrieve_all, store_all,
}
use alicia_server.Storage.View.{
  visible, or_else, visible-retrieve_all, visible-store_all, find-store_all, visible-delete_all,
  called-delete_all,
}

module _ {D : Type 0} (blank : D) (retrieve : ℕ → Option D) (deletes : ℕ → Bool) where
  -- What is visible once the retrieve queue has been worked off.
  abbrev pub retrieved : ℕ → DataStorage D → Option D
  retrieved key s =
      if Dict.contains key s.retrieve_queue
      then or_else (retrieve key) (visible key s.entries)
      else visible key s.entries

  pub visible-tick :
      (key : ℕ) (s : DataStorage D)
      → visible key (tick blank retrieve deletes s).0.entries
        ≡ (if Dict.contains key s.delete_queue && deletes key then none else retrieved key s)
  unfolding tick
  visible-tick key s =
      let got = retrieve_all blank retrieve s.retrieve_queue s.entries in
      ground (
        arith,
        visible-retrieve_all blank retrieve s.retrieve_queue key s.entries,
        visible-store_all blank s.store_queue key got,
        visible-delete_all blank deletes s.delete_queue key (store_all blank s.store_queue got).0,
      )

  pub stored-tick :
      (key : ℕ) (s : DataStorage D)
      → Dict.find key (tick blank retrieve deletes s).1.stored
        ≡ (if Dict.contains key s.store_queue then retrieved key s else none)
  unfolding tick
  stored-tick key s =
      let got = retrieve_all blank retrieve s.retrieve_queue s.entries in
      ground (
        arith,
        visible-retrieve_all blank retrieve s.retrieve_queue key s.entries,
        find-store_all blank s.store_queue key got,
      )

  pub deleted-tick :
      (key : ℕ) (s : DataStorage D)
      → member key (tick blank retrieve deletes s).1.deleted
        ≡ (Dict.contains key s.delete_queue && is_some (retrieved key s))
  unfolding tick
  deleted-tick key s =
      let got = retrieve_all blank retrieve s.retrieve_queue s.entries in
      ground (
        arith,
        visible-retrieve_all blank retrieve s.retrieve_queue key s.entries,
        visible-store_all blank s.store_queue key got,
        called-delete_all blank deletes s.delete_queue key (store_all blank s.store_queue got).0,
      )

  -- The queues are empty after a tick.
  pub queues-tick :
      (s : DataStorage D)
      → ((tick blank retrieve deletes s).0.retrieve_queue ≡ [])
        × ((tick blank retrieve deletes s).0.store_queue ≡ [])
        × ((tick blank retrieve deletes s).0.delete_queue ≡ [])
  unfolding tick
  queues-tick s = (refl, refl, refl)

module _ {D : Type 0} (blank : D) where
  -- A `get` of a key without an entry finds nothing and requests it. If the data source has the
  -- record and the key is not waiting to be deleted, the `get` after the next tick finds it.
  pub get-tick-get :
      (retrieve : ℕ → Option D) (deletes : ℕ → Bool) (key : ℕ) (v : D) (s : DataStorage D)
      → Dict.contains key s.entries ≡ false
      → retrieve key ≡ some v
      → Dict.contains key s.delete_queue ≡ false
      → ((get blank key true s).1 ≡ none)
        × ((get blank key true (tick blank retrieve deletes (get blank key true s).0).0).1 ≡ some v)
  unfolding get request_retrieve
  get-tick-get retrieve deletes key v s missing found kept = ground (
    arith,
    Dict.find-try_emplace key key tt s.retrieve_queue,
    visible-tick blank retrieve deletes key (get blank key true s).0,
    Dict.find-try_emplace key key (blank_entry blank)
        (tick blank retrieve deletes (get blank key true s).0).0.entries,
  )
