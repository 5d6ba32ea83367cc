-- ===== src/Items.antt =====
-- ItemSystem (server/system/ItemSystem): the items of a character, which are records of the item
-- cache. A UID 0 is invalid. The character whose record the caller holds is a value.
pub mod Cache
pub mod Consume
mod Examples
use alicia_server.Common.{
  ℕ, ◌+◌, ◌-◌, ◌%◌, ◌^◌, Bool, true, false, ◌&&◌, Option, none, some, List, [], ◌∷◌, ◌++◌, leb,
  ◌==◌, if◌then◌else◌, member,
}
use alicia_server.Storage.{DataStorage, get, get_many, create, patch, delete}

abbrev pub invalid_uid : ℕ
invalid_uid = 0

-- data::Item; the count is a uint32_t, a duration and a time point are numbers of seconds.
pub record Item : Type 0 where
  pub uid : ℕ
  pub tid : ℕ
  pub count : ℕ
  pub duration : ℕ
  pub created_at : ℕ

abbrev pub blank_item : Item
blank_item = record { uid = invalid_uid; tid = 0; count = 0; duration = 0; created_at = 0 }

-- The fields of data::Character that hold items.
pub record Character : Type 0 where
  pub inventory : List ℕ
  pub character_equipment : List ℕ

abbrev pub ItemCache : Type 0
ItemCache = DataStorage Item

-- The loop of `searchItems`.
unfoldable pub first_with_tid : ℕ → List Item → ℕ
first_with_tid tid [] = invalid_uid
first_with_tid tid (item ∷ items) =
    let found = if item.tid == tid then item.uid else invalid_uid in
    let rest = first_with_tid tid items in if found == invalid_uid then rest else found

abbrev pub uid_in : ℕ → Option (List Item) → ℕ
uid_in tid none = invalid_uid
uid_in tid (some items) = first_with_tid tid items

unfoldable pub search_items : ℕ → List ℕ → ItemCache → ItemCache × ℕ
search_items tid uids cache =
    let (cache', items) = get_many blank_item uids cache in (cache', uid_in tid items)

unfoldable pub get_item : ℕ → Character → ItemCache → ItemCache × ℕ
unfolding search_items
get_item tid c cache =
    let (cache', found) = search_items tid c.inventory cache in
    if found == invalid_uid then search_items tid c.character_equipment cache' else (cache', found)

-- AddItem, whose two versions differ in how a new item is filled and how one that is there grows.
-- `fresh` is the UID that the data source gives to a created item. `none` is the end of the program:
-- an exception in a function that is `noexcept`.
unfoldable pub add_item_with :
    (Item → Item)
    → (Item → Item)
    → ℕ
    → ℕ
    → Character
    → ItemCache
    → Option (Character × ItemCache × ℕ)
unfolding get_item
add_item_with fill grow fresh tid c cache =
    let (cache', uid) = get_item tid c cache in
    let (cache'', found) = get blank_item uid true cache' in
    if uid == invalid_uid
    then elim (create blank_item fresh (record blank_item { uid = fresh }) cache') [
      | none ↦ none
      | some created ↦ some (
        record c { inventory = c.inventory ++ fresh ∷ [] },
        patch blank_item fresh fill created,
        fresh,
      )
    ]
    else elim found [
      | none ↦ some (c, cache'', invalid_uid)
      | some item ↦ some (c, patch blank_item uid grow cache'', uid)
    ]

pub add_item_count :
    (now fresh tid count : ℕ) → Character → ItemCache → Option (Character × ItemCache × ℕ)
unfolding add_item_with
add_item_count now fresh tid count =
    add_item_with (λ item. record item { tid = tid; count = count; duration = 0; created_at = now })
      (λ item. record item { count = (item.count + count) % 2 ^ 32 }) fresh tid

pub add_item_duration :
    (now fresh tid duration : ℕ) → Character → ItemCache → Option (Character × ItemCache × ℕ)
unfolding add_item_with
add_item_duration now fresh tid duration =
    add_item_with
      (λ item. record item { tid = tid; count = 1; duration = duration; created_at = now })
      (λ item. record item { duration = item.duration + duration }) fresh tid

-- The records that `Get` hands out, with their keys.
abbrev pub records : List ℕ → List Item → List (ℕ × Item)
records [] items = []
records (u ∷ us) [] = []
records (u ∷ us) (item ∷ items) = (u, item) ∷ records us items

-- `std::ranges::remove` and `erase`
unfoldable pub remove_uid : ℕ → List ℕ → List ℕ
remove_uid uid [] = []
remove_uid uid (u ∷ us) = let rest = remove_uid uid us in if u == uid then rest else u ∷ rest

-- The loop of RemoveItem: a record that is looked at is patched, if only by itself.
unfoldable pub find_removed : ℕ → List (ℕ × Item) → ItemCache → ItemCache × ℕ
find_removed tid [] cache = (cache, invalid_uid)
find_removed tid ((u, item) ∷ rs) cache =
    let found = if item.tid == tid then item.uid else invalid_uid in
    let cache' = patch blank_item u (λ x. x) cache in
    let rest = find_removed tid rs cache' in if found == invalid_uid then rest else (cache', found)

unfoldable pub remove_item : ℕ → Character → ItemCache → Character × ItemCache
unfolding find_removed remove_uid
remove_item tid c cache =
    let (cache', found) = get_many blank_item c.inventory cache in
    elim found [
      | none ↦ (c, cache')
      | some items ↦
          let (cache'', uid) = find_removed tid (records c.inventory items) cache' in
          if uid == invalid_uid
          then (c, cache'')
          else (record c { inventory = remove_uid uid c.inventory }, delete blank_item uid cache'')
    ]

-- ItemSystem::ConsumeVerdict
pub record ConsumeVerdict : Type 0 where
  pub item_consumed : Bool
  pub item_uid : ℕ
  pub remaining_item_count : ℕ

abbrev pub no_verdict : ConsumeVerdict
no_verdict = record { item_consumed = false; item_uid = invalid_uid; remaining_item_count = 0 }

-- What the consumer of the record does to the item, and the verdict.
unfoldable pub consume_one : ℕ → ℕ → Item → Item × ConsumeVerdict
consume_one tid count item =
    if item.tid == tid
    then (if leb count item.count
        then (
          record item { count = item.count - count },
          record {
            item_consumed = true;
            item_uid = item.uid;
            remaining_item_count = item.count - count;
          },
        )
        else (item, record no_verdict { item_uid = item.uid }))
    else (item, no_verdict)

-- What follows a record that has the item.
unfoldable pub conclude :
    Character → ItemCache → ConsumeVerdict → Character × ItemCache × ConsumeVerdict
unfolding remove_uid
conclude c cache verdict =
    if verdict.remaining_item_count == 0
    then (
      record c { inventory = remove_uid verdict.item_uid c.inventory },
      delete blank_item verdict.item_uid cache,
      record verdict { item_uid = invalid_uid },
    )
    else (c, cache, verdict)

unfoldable pub consume_from :
    ℕ → ℕ → Character → List (ℕ × Item) → ItemCache → Character × ItemCache × ConsumeVerdict
unfolding consume_one conclude
consume_from tid count c [] cache = (c, cache, no_verdict)
consume_from tid count c ((u, item) ∷ rs) cache =
    let verdict = (consume_one tid count item).1 in
    let cache' = patch blank_item u (λ x. (consume_one tid count x).0) cache in
    let rest = consume_from tid count c rs cache' in
    if verdict.item_uid == invalid_uid then rest else conclude c cache' verdict

unfoldable pub consume_found :
    ℕ → ℕ → Character → Option (List Item) → ItemCache → Character × ItemCache × ConsumeVerdict
unfolding consume_from
consume_found tid count c none cache = (c, cache, no_verdict)
consume_found tid count c (some items) cache =
    consume_from tid count c (records c.inventory items) cache

unfoldable pub consume_item : ℕ → ℕ → Character → ItemCache → Character × ItemCache × ConsumeVerdict
unfolding consume_found
consume_item tid count c cache =
    let (cache', found) = get_many blank_item c.inventory cache in
    consume_found tid count c found cache'

unfoldable pub any_with_tid : ℕ → List Item → Bool
any_with_tid tid [] = false
any_with_tid tid (item ∷ items) =
    let rest = any_with_tid tid items in if item.tid == tid then true else rest

abbrev pub tid_in : ℕ → Option (List Item) → Bool
tid_in tid none = false
tid_in tid (some items) = any_with_tid tid items

unfoldable pub has_item : ℕ → Character → ItemCache → ItemCache × Bool
unfolding any_with_tid
has_item tid c cache =
    let (cache', in_inventory) = get_many blank_item c.inventory cache in
    let (cache'', in_equipment) = get_many blank_item c.character_equipment cache' in
    if tid_in tid in_inventory then (cache', true) else (cache'', tid_in tid in_equipment)

pub has_item_instance : ℕ → Character → Bool
has_item_instance uid c = if member uid c.inventory then true else member uid c.character_equipment
