-- ===== src/Storage/View.antt =====
-- The storage seen as the values that `get` can hand out, key by key.
use alicia_server.Common.{
  ℕ, ◌≡◌, refl, ◌∙◌, Bool, true, false, ◌&&◌, Option, none, some, List, [], ◌∷◌, ◌==◌,
  if◌then◌else◌, arith, member, is_some,
}
use alicia_server.Common.Dict
use alicia_server.Common.Dict.{Dict}
use alicia_server.Storage.{
  KeySet, Entry, if_available, blank_entry, retrieve_entry, retrieve_all, store_all, stored_if,
  delete_entry, delete_all,
}

abbrev pub visible : {D : Type 0} → ℕ → Dict (Entry D) → Option D
visible key entries = if_available (Dict.find key entries)

abbrev pub or_else : {D : Type 0} → Option D → Option D → Option D
or_else none other = other
or_else (some v) other = some v

module _ {D : Type 0} (blank : D) where
  -- A blank entry hides nothing and shows nothing.
  pub visible-emplace :
      (j key : ℕ) (entries : Dict (Entry D))
      → visible key (Dict.try_emplace j (blank_entry blank) entries) ≡ visible key entries
  visible-emplace j key entries =
      ground (arith, Dict.find-try_emplace j key (blank_entry blank) entries)

  visible-retrieve_entry :
      (o : Option D) (j key : ℕ) (entries : Dict (Entry D))
      → visible key (retrieve_entry blank o j entries)
        ≡ (if j == key then or_else o (visible key entries) else visible key entries)
  unfolding retrieve_entry
  visible-retrieve_entry none j key entries = ground (arith, visible-emplace j key entries)
  visible-retrieve_entry (some v) j key entries =
      ground (arith, Dict.find-assign j key (record { available = true; value = v }) entries)

  -- Retrieving shows what the source has for the keys of the queue, and nothing else changes.
  pub visible-retrieve_all :
      (retrieve : ℕ → Option D) (queue : KeySet) (key : ℕ) (entries : Dict (Entry D))
      → visible key (retrieve_all blank retrieve queue entries) ≡ (
          if Dict.contains key queue
          then or_else (retrieve key) (visible key entries)
          else visible key entries)
  unfolding retrieve_all
  visible-retrieve_all retrieve [] key entries = ground (arith, Dict.find-nil {V = Unit {0}} key)
  visible-retrieve_all retrieve ((j, w) ∷ queue) key entries = ground (
    arith,
    Dict.find-cons key j w queue,
    visible-retrieve_all retrieve queue key (retrieve_entry blank (retrieve j) j entries),
    visible-retrieve_entry (retrieve j) j key entries,
  )

  pub visible-store_all :
      (queue : KeySet) (key : ℕ) (entries : Dict (Entry D))
      → visible key (store_all blank queue entries).0 ≡ visible key entries
  unfolding store_all
  visible-store_all [] key entries = refl
  visible-store_all ((j, w) ∷ queue) key entries =
      visible-store_all queue key (Dict.try_emplace j (blank_entry blank) entries)
      ∙ visible-emplace j key entries

  find-stored_if :
      (o : Option D) (j key : ℕ) (calls : List (ℕ × D))
      → Dict.find key (stored_if j o calls)
        ≡ (if j == key then or_else o (Dict.find key calls) else Dict.find key calls)
  find-stored_if none j key calls = ground arith
  find-stored_if (some v) j key calls = ground (arith, Dict.find-cons key j v calls)

  -- The store listener is called for the keys of the queue that are available, with their values.
  pub find-store_all :
      (queue : KeySet) (key : ℕ) (entries : Dict (Entry D))
      → Dict.find key (store_all blank queue entries).1
        ≡ (if Dict.contains key queue then visible key entries else none)
  unfolding store_all
  find-store_all [] key entries =
      ground (arith, Dict.find-nil {V = D} key, Dict.find-nil {V = Unit {0}} key)
  find-store_all ((j, w) ∷ queue) key entries = ground (
    arith,
    Dict.find-cons key j w queue,
    find-store_all queue key (Dict.try_emplace j (blank_entry blank) entries),
    visible-emplace j key entries,
    find-stored_if (visible j (Dict.try_emplace j (blank_entry blank) entries)) j key
        (store_all blank queue (Dict.try_emplace j (blank_entry blank) entries)).1,
  )

  visible-delete_entry :
      (deletes : ℕ → Bool) (j key : ℕ) (entries : Dict (Entry D))
      → visible key (delete_entry blank deletes j entries).0
        ≡ (if j == key && deletes key then none else visible key entries)
  unfolding delete_entry
  visible-delete_entry deletes j key entries = ground (
    arith,
    visible-emplace j key entries,
    visible-emplace j j entries,
    Dict.find-modify j key (λ (e : Entry D). record e { available = false })
        (Dict.try_emplace j (blank_entry blank) entries),
  )

  called-delete_entry :
      (deletes : ℕ → Bool) (j : ℕ) (entries : Dict (Entry D))
      → (delete_entry blank deletes j entries).1 ≡ is_some (visible j entries)
  unfolding delete_entry
  called-delete_entry deletes j entries = ground (arith, visible-emplace j j entries)

  -- The delete listener is called for the keys of the queue that are available.
  pub visible-delete_all :
      (deletes : ℕ → Bool) (queue : KeySet) (key : ℕ) (entries : Dict (Entry D))
      → visible key (delete_all blank deletes queue entries).0
        ≡ (if Dict.contains key queue && deletes key then none else visible key entries)
  unfolding delete_all
  visible-delete_all deletes [] key entries = ground (arith, Dict.find-nil {V = Unit {0}} key)
  visible-delete_all deletes ((j, w) ∷ queue) key entries = ground (
    arith,
    Dict.find-cons key j w queue,
    visible-delete_all deletes queue key (delete_entry blank deletes j entries).0,
    visible-delete_entry deletes j key entries,
  )

  pub called-delete_all :
      (deletes : ℕ → Bool) (queue : KeySet) (key : ℕ) (entries : Dict (Entry D))
      → member key (delete_all blank deletes queue entries).1
        ≡ (Dict.contains key queue && is_some (visible key entries))
  unfolding delete_all
  called-delete_all deletes [] key entries = ground (arith, Dict.find-nil {V = Unit {0}} key)
  called-delete_all deletes ((j, w) ∷ queue) key entries = ground (
    arith,
    Dict.find-cons key j w queue,
    called-delete_all deletes queue key (delete_entry blank deletes j entries).0,
    visible-delete_entry deletes j key entries,
    called-delete_entry deletes j entries,
  )
