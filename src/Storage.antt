-- ===== src/Storage.antt =====
-- DataStorage (libserver/data/DataStorage): a cache of records in front of a data source, which is
-- read and written in ticks. A record that `get` hands out is the entry's value; a change through
-- it is `patch`. The listeners of the data source are arguments of `tick`, and its calls of the
-- store and delete listeners are results; that of the store listener has no effect on it. The
-- listeners catch their exceptions. The order in which the queues, which are sets, are gone through is
-- left out.
pub mod View
pub mod Ticks
pub mod System
pub mod Listed
pub mod Coherence
pub mod Lost
pub mod Deletion
mod Examples
use alicia_server.Common.{
  ℕ, Bool, true, false, ◌&&◌, not, Option, none, some, List, [], ◌∷◌, if◌then◌else◌, is_some,
}
use alicia_server.Common.Dict
use alicia_server.Common.Dict.{Dict}

abbrev pub KeySet : Type 0
KeySet = Dict (Unit {0})

abbrev pub insert : ℕ → KeySet → KeySet
insert key = Dict.try_emplace key tt

pub record Entry (D : Type 0) : Type 0 where
  pub available : Bool
  pub value : D

pub record DataStorage (D : Type 0) : Type 0 where
  pub retrieve_queue : KeySet
  pub store_queue : KeySet
  pub delete_queue : KeySet
  pub entries : Dict (Entry D)

abbrev pub new_storage : {D : Type 0} → DataStorage D
new_storage = record { retrieve_queue = []; store_queue = []; delete_queue = []; entries = [] }

-- What a tick has done: its calls of the store and of the delete listener.
pub record Calls (D : Type 0) : Type 0 where
  pub stored : List (ℕ × D)
  pub deleted : List ℕ

abbrev pub if_available : {D : Type 0} → Option (Entry D) → Option D
if_available none = none
if_available (some e) = if e.available then some e.value else none

abbrev pub add_record : {D : Type 0} → Option D → Option (List D) → Option (List D)
add_record none found = none
add_record (some v) none = none
add_record (some v) (some found) = some (v ∷ found)

abbrev pub stored_if : {D : Type 0} → ℕ → Option D → List (ℕ × D) → List (ℕ × D)
stored_if key none calls = calls
stored_if key (some v) calls = (key, v) ∷ calls

-- `blank` is the value of an entry that was only just made.
module _ {D : Type 0} (blank : D) where
  abbrev pub blank_entry : Entry D
  blank_entry = record { available = false; value = blank }

  unfoldable pub request_retrieve : ℕ → DataStorage D → DataStorage D
  request_retrieve key s = record s { retrieve_queue = insert key s.retrieve_queue }

  unfoldable pub request_store : ℕ → DataStorage D → DataStorage D
  request_store key s = record s { store_queue = insert key s.store_queue }

  unfoldable pub request_delete : ℕ → DataStorage D → DataStorage D
  request_delete key s = record s { delete_queue = insert key s.delete_queue }

  unfoldable pub is_available : ℕ → DataStorage D → Bool
  is_available key s = elim (Dict.find key s.entries) [ none ↦ false | some e ↦ e.available ]

  unfoldable pub are_available : List ℕ → DataStorage D → Bool
  unfolding is_available
  are_available [] s = true
  are_available (key ∷ keys) s =
      let rest = are_available keys s in if not (is_available key s) then false else rest

  -- `none` is the exception "Entry with key … already exists".
  unfoldable pub create : ℕ → D → DataStorage D → Option (DataStorage D)
  unfolding request_store
  create key value s =
      if Dict.contains key s.entries
      then none
      else some (
          request_store key (record s {
            entries = Dict.assign key (record { available = true; value = value }) s.entries;
          }))

  -- An entry that is there is handed out, available or not.
  unfoldable pub get_or_create : ℕ → D → DataStorage D → DataStorage D
  unfolding request_store
  get_or_create key value s =
      if Dict.contains key s.entries
      then s
      else request_store key (record s {
        entries = Dict.assign key (record { available = true; value = value }) s.entries;
      })

  unfoldable pub get : ℕ → Bool → DataStorage D → DataStorage D × Option D
  unfolding request_retrieve
  get key retrieve s =
      let created = not (Dict.contains key s.entries) in
      let s' = record s { entries = Dict.try_emplace key blank_entry s.entries } in
      if created && retrieve
      then (request_retrieve key s', none)
      else (s', if_available (Dict.find key s'.entries))

  -- `Get` of several keys; every key is asked for, also behind one that is missing.
  unfoldable pub get_many : List ℕ → DataStorage D → DataStorage D × Option (List D)
  unfolding get
  get_many [] s = (s, some [])
  get_many (key ∷ keys) s =
      let (s', found) = get key true s in
      let (s'', rest) = get_many keys s' in (s'', add_record found rest)

  -- Record::Mutable: the consumer changes the value, then the patch listener asks for a store.
  unfoldable pub patch : ℕ → (D → D) → DataStorage D → DataStorage D
  unfolding request_store
  patch key f s =
      request_store key
        (record s { entries = Dict.modify key (λ e. record e { value = f e.value }) s.entries })

  unfoldable pub invalidate : ℕ → DataStorage D → DataStorage D
  invalidate key s = record s { entries = Dict.erase key s.entries }

  unfoldable pub delete : ℕ → DataStorage D → DataStorage D
  unfolding invalidate request_delete
  delete key s = request_delete key (invalidate key s)

  unfoldable pub save : ℕ → DataStorage D → DataStorage D
  unfolding request_store
  save key s = request_store key s

  pub get_keys : DataStorage D → List ℕ
  get_keys s = Dict.keys s.entries

  -- "Perform retrieve operations."
  unfoldable pub retrieve_entry : Option D → ℕ → Dict (Entry D) → Dict (Entry D)
  retrieve_entry none key entries = Dict.try_emplace key blank_entry entries
  retrieve_entry (some v) key entries =
      Dict.assign key (record { available = true; value = v }) entries

  unfoldable pub retrieve_all : (ℕ → Option D) → KeySet → Dict (Entry D) → Dict (Entry D)
  unfolding retrieve_entry
  retrieve_all retrieve [] entries = entries
  retrieve_all retrieve ((key, _) ∷ queue) entries =
      retrieve_all retrieve queue (retrieve_entry (retrieve key) key entries)

  -- "Perform store operations." `operator[]` makes an entry where there is none.
  unfoldable pub store_all : KeySet → Dict (Entry D) → Dict (Entry D) × List (ℕ × D)
  store_all [] entries = (entries, [])
  store_all ((key, _) ∷ queue) entries =
      let entries' = Dict.try_emplace key blank_entry entries in
      let (final, calls) = store_all queue entries' in
      (final, stored_if key (if_available (Dict.find key entries')) calls)

  -- One entry of the delete queue: the entries, and whether the listener was called.
  unfoldable pub delete_entry : (ℕ → Bool) → ℕ → Dict (Entry D) → Dict (Entry D) × Bool
  delete_entry deletes key entries =
      let entries' = Dict.try_emplace key blank_entry entries in
      if is_some (if_available (Dict.find key entries'))
      then (
        (if deletes key
            then Dict.modify key (λ e. record e { available = false }) entries'
            else entries'),
        true,
      )
      else (entries', false)

  -- "Perform delete operations."
  unfoldable pub delete_all : (ℕ → Bool) → KeySet → Dict (Entry D) → Dict (Entry D) × List ℕ
  unfolding delete_entry
  delete_all deletes [] entries = (entries, [])
  delete_all deletes ((key, _) ∷ queue) entries =
      let (entries', called) = delete_entry deletes key entries in
      let (final, calls) = delete_all deletes queue entries' in
      (final, if called then key ∷ calls else calls)

  unfoldable pub tick : (ℕ → Option D) → (ℕ → Bool) → DataStorage D → DataStorage D × Calls D
  unfolding retrieve_all store_all delete_all
  tick retrieve deletes s =
      let retrieved = retrieve_all retrieve s.retrieve_queue s.entries in
      let (after_store, stored) = store_all s.store_queue retrieved in
      let (after_delete, deleted) = delete_all deletes s.delete_queue after_store in
      (
        record { retrieve_queue = []; store_queue = []; delete_queue = []; entries = after_delete },
        record { stored = stored; deleted = deleted },
      )

  -- The store calls of `terminate`: every available entry.
  unfoldable pub available_entries : Dict (Entry D) → List (ℕ × D)
  available_entries [] = []
  available_entries ((key, e) ∷ entries) =
      let rest = available_entries entries in if e.available then (key, e.value) ∷ rest else rest

  -- The delete queue is not cleared.
  unfoldable pub terminate : DataStorage D → DataStorage D × List (ℕ × D)
  unfolding available_entries
  terminate s = (
    record s { store_queue = []; retrieve_queue = []; entries = [] },
    available_entries s.entries,
  )
