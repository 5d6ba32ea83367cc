-- ===== src/Items/Examples.antt =====
-- A character with a few items.
use alicia_server.Common.{◌≡◌, refl, true, false, none, some, [], ◌∷◌, arith}
use alicia_server.Common.Dict
use alicia_server.Storage.{new_storage, get, get_many}
use alicia_server.Storage.View.{visible}
use alicia_server.Items.{
  Item, blank_item, Character, ItemCache, consume_item, no_verdict, remove_uid,
}
use alicia_server.Items.Consume.{IsFirst, consume_item-partial, consume_item-all}

abbrev carrots : Item
carrots = record blank_item { uid = 1; tid = 41001; count = 3 }

abbrev shampoo : Item
shampoo = record blank_item { uid = 2; tid = 40002; count = 5 }

abbrev owner : Character
owner = record { inventory = 1 ∷ 2 ∷ []; character_equipment = [] }

abbrev cache : ItemCache
cache = record new_storage {
  entries =
      (1, record { available = true; value = carrots })
      ∷ (2, record { available = true; value = shampoo })
      ∷ [];
}

shampoo-IsFirst : IsFirst 40002 2 shampoo owner cache
unfolding get_many get Dict.find Dict.try_emplace
shampoo-IsFirst = record {
  items = carrots ∷ shampoo ∷ [];
  skipped = (1, carrots) ∷ [];
  rest = [];
  at_hand = refl;
  split = refl;
  others = (refl, tt);
  has_tid = refl;
  own_uid = refl;
  valid = λ e. absurd (omega arith);
}

consume_item-partial_example :
    let (c', s', verdict) = consume_item 40002 2 owner cache in
    (c' ≡ owner)
    × (verdict ≡ record { item_consumed = true; item_uid = 2; remaining_item_count = 3 })
    × (visible 2 s'.entries ≡ some (record shampoo { count = 3 }))
consume_item-partial_example =
    consume_item-partial 40002 2 2 shampoo owner cache shampoo-IsFirst (omega arith)

-- More than there is: nothing is consumed, and the item is gone.
consume_item-all_example :
    let (c', s', verdict) = consume_item 40002 9 owner cache in
    (c' ≡ record owner { inventory = remove_uid 2 owner.inventory })
    × (verdict ≡ record no_verdict { item_consumed = false })
    × (visible 2 s'.entries ≡ none)
consume_item-all_example =
    consume_item-all 40002 9 2 shampoo owner cache shampoo-IsFirst (omega arith)
