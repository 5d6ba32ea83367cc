-- ===== src/Storage/Listed.antt =====
-- The keys that have an entry after DataStorage::Tick.
use alicia_server.Common.{ℕ, ◌≡◌, Bool, true, false, ◌||◌, Option, none, some, [], ◌∷◌, ◌==◌, arith}
use alicia_server.Common.Dict
use alicia_server.Common.Dict.{Dict}
use alicia_server.Storage.{
  KeySet, Entry, DataStorage, blank_entry, retrieve_entry, retrieve_all, store_all, delete_entry,
  delete_all, tick,
}

module _ {D : Type 0} (blank : D) where
  contains-retrieve_entry :
      (o : Option D) (j key : ℕ) (entries : Dict (Entry D))
      → Dict.contains key (retrieve_entry blank o j entries)
        ≡ ((j == key) || Dict.contains key entries)
  unfolding retrieve_entry
  contains-retrieve_entry none j key entries =
      ground (arith, Dict.find-try_emplace j key (blank_entry blank) entries)
  contains-retrieve_entry (some v) j key entries =
      ground (arith, Dict.find-assign j key (record { available = true; value = v }) entries)

  contains-retrieve_all :
      (retrieve : ℕ → Option D) (queue : KeySet) (key : ℕ) (entries : Dict (Entry D))
      → Dict.contains key (retrieve_all blank retrieve queue entries)
        ≡ (Dict.contains key queue || Dict.contains key entries)
  unfolding retrieve_all
  contains-retrieve_all retrieve [] key entries = ground (arith, Dict.find-nil {V = Unit {0}} key)
  contains-retrieve_all retrieve ((j, w) ∷ queue) key entries = ground (
    arith,
    Dict.find-cons key j w queue,
    contains-retrieve_all retrieve queue key (retrieve_entry blank (retrieve j) j entries),
    contains-retrieve_entry (retrieve j) j key entries,
  )

  contains-store_all :
      (queue : KeySet) (key : ℕ) (entries : Dict (Entry D))
      → Dict.contains key (store_all blank queue entries).0
        ≡ (Dict.contains key queue || Dict.contains key entries)
  unfolding store_all
  contains-store_all [] key entries = ground (arith, Dict.find-nil {V = Unit {0}} key)
  contains-store_all ((j, w) ∷ queue) key entries = ground (
    arith,
    Dict.find-cons key j w queue,
    contains-store_all queue key (Dict.try_emplace j (blank_entry blank) entries),
    Dict.find-try_emplace j key (blank_entry blank) entries,
  )

  contains-delete_all :
      (deletes : ℕ → Bool) (queue : KeySet) (key : ℕ) (entries : Dict (Entry D))
      → Dict.contains key (delete_all blank deletes queue entries).0
        ≡ (Dict.contains key queue || Dict.contains key entries)
  unfolding delete_all delete_entry
  contains-delete_all deletes [] key entries = ground (arith, Dict.find-nil {V = Unit {0}} key)
  contains-delete_all deletes ((j, w) ∷ queue) key entries = ground (
    arith,
    Dict.find-cons key j w queue,
    contains-delete_all deletes queue key (delete_entry blank deletes j entries).0,
    Dict.find-try_emplace j key (blank_entry blank) entries,
    Dict.contains-modify j key (λ (e : Entry D). record e { available = false })
        (Dict.try_emplace j (blank_entry blank) entries),
  )

  -- A tick makes an entry for every key of its queues and drops none.
  pub contains-tick :
      (retrieve : ℕ → Option D) (deletes : ℕ → Bool) (key : ℕ) (s : DataStorage D)
      → Dict.contains key (tick blank retrieve deletes s).0.entries ≡ (
          Dict.contains key s.delete_queue
          || (Dict.contains key s.store_queue
              || (Dict.contains key s.retrieve_queue || Dict.contains key s.entries)))
  unfolding tick
  contains-tick retrieve deletes key s =
      let got = retrieve_all blank retrieve s.retrieve_queue s.entries in
      ground (
        arith,
        contains-retrieve_all retrieve s.retrieve_queue key s.entries,
        contains-store_all s.store_queue key got,
        contains-delete_all deletes s.delete_queue key (store_all blank s.store_queue got).0,
      )
