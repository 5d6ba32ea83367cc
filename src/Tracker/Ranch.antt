-- ===== src/Tracker/Ranch.antt =====
-- server/tracker/RanchTracker: the object identifiers of the characters and horses in a ranch.
pub mod Oids
use alicia_server.Common.{
  ℕ, ◌+◌, ◌%◌, ◌^◌, Bool, true, false, Option, none, some, List, [], if◌then◌else◌,
}
use alicia_server.Common.Dict
use alicia_server.Common.Dict.{Dict}
use alicia_server.Tracker.Race.{next_u16}

-- InvalidEntityOid
abbrev pub invalid_entity_oid : ℕ
invalid_entity_oid = 0

pub record RanchTracker : Type 0 where
  pub next_object_id : ℕ
  pub characters : Dict ℕ
  pub horses : Dict ℕ

abbrev pub empty_ranch : RanchTracker
empty_ranch = record { next_object_id = 1; characters = []; horses = [] }

abbrev pub or_invalid : Option ℕ → ℕ
or_invalid none = invalid_entity_oid
or_invalid (some oid) = oid

unfoldable pub get_character_oid : ℕ → RanchTracker → ℕ
get_character_oid character t = or_invalid (Dict.find character t.characters)

unfoldable pub get_horse_oid : ℕ → RanchTracker → ℕ
get_horse_oid horse t = or_invalid (Dict.find horse t.horses)

-- A character that is tracked keeps its OID, which is the result.
unfoldable pub add_character : ℕ → RanchTracker → RanchTracker × ℕ
unfolding get_character_oid
add_character character t =
    if Dict.contains character t.characters then (t, get_character_oid character t) else (
      record t {
        characters = Dict.assign character t.next_object_id t.characters;
        next_object_id = next_u16 t.next_object_id;
      },
      t.next_object_id,
    )

unfoldable pub remove_character : ℕ → RanchTracker → RanchTracker
remove_character character t =
    if Dict.contains character t.characters
    then record t { characters = Dict.erase character t.characters }
    else t

-- A horse that is tracked is given a new OID.
unfoldable pub add_horse : ℕ → RanchTracker → RanchTracker × ℕ
add_horse horse t = (
  record t {
    horses = Dict.assign horse t.next_object_id t.horses;
    next_object_id = next_u16 t.next_object_id;
  },
  t.next_object_id,
)

unfoldable pub remove_horse : ℕ → RanchTracker → RanchTracker
remove_horse horse t =
    if Dict.contains horse t.horses then record t { horses = Dict.erase horse t.horses } else t
