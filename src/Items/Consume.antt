-- ===== src/Items/Consume.antt =====
-- What becomes of an item that is consumed.
use alicia_server.Common.{
  ℕ, ◌-◌, ◌≤◌, ◌<◌, ◌≡◌, ◌≢◌, refl, sym, ap, subst, ◌∙◌, true, false, none, some, List, [], ◌∷◌,
  ◌++◌, leb, ◌==◌, arith, All,
}
use alicia_server.Storage.{get_many, patch}
use alicia_server.Storage.View.{visible}
use alicia_server.Items.{
  Item, blank_item, Character, ItemCache, invalid_uid, records, remove_uid, ConsumeVerdict,
  no_verdict, consume_one, conclude, consume_from, consume_found, consume_item,
}
use alicia_server.Items.Cache.{
  AreVisible, AreVisible-same, visible-patch, visible-delete, visible-get_many, get_many-AreVisible,
  All-left, All-right,
}

-- A record of another item than the one asked for.
abbrev pub IsOther : ℕ → ℕ × Item → Type 0
IsOther tid (u, item) = (item.tid == tid) ≡ false

consume_one-other :
    (tid count : ℕ) (item : Item)
    → (item.tid == tid) ≡ false
    → consume_one tid count item ≡ (item, no_verdict)
unfolding consume_one
consume_one-other tid count item o = rw o refl

other-visible :
    (tid count u : ℕ) (item : Item) (s : ItemCache) (key : ℕ)
    → (item.tid == tid) ≡ false
    → visible u s.entries ≡ some item
    → visible key (patch blank_item u (λ x. (consume_one tid count x).0) s).entries
      ≡ visible key s.entries
other-visible tid count u item s key o v = ground (
  arith,
  visible-patch u key (λ x. (consume_one tid count x).0) s,
  ap (λ r. r.0) (consume_one-other tid count item o),
)

-- The records of other items are gone past; nothing that is visible changes.
consume_from-skip :
    (tid count : ℕ) (c : Character) (skipped rs : List (ℕ × Item)) (s : ItemCache)
    → All (IsOther tid) skipped
    → AreVisible s skipped
    → (s' : ItemCache) × (consume_from tid count c (skipped ++ rs) s
        ≡ consume_from tid count c rs s')
      × ((key : ℕ) → visible key s'.entries ≡ visible key s.entries)
unfolding consume_from
consume_from-skip tid count c [] rs s o v = (s, refl, λ key. refl)
consume_from-skip tid count c ((u, item) ∷ skipped) rs s o v =
    let s1 = patch blank_item u (λ x. (consume_one tid count x).0) s in
    let same1 : (key : ℕ) → visible key s1.entries ≡ visible key s.entries =
      λ key. other-visible tid count u item s key o.0 v.0 in
    let (s', e, same) =
      consume_from-skip tid count c skipped rs s1 o.1 (AreVisible-same s s1 skipped same1 v.1) in
    (s', rw (consume_one-other tid count item o.0) e, λ key. same key ∙ same1 key)

consume_one-partial :
    (tid count : ℕ) (item : Item)
    → item.tid ≡ tid
    → count < item.count
    → consume_one tid count item ≡ (
      record item { count = item.count - count },
      record {
        item_consumed = true;
        item_uid = item.uid;
        remaining_item_count = item.count - count;
      },
    )
unfolding consume_one
consume_one-partial tid count item t h = ground arith

consume_one-all :
    (tid count : ℕ) (item : Item)
    → item.tid ≡ tid
    → item.count ≤ count
    → (consume_one tid count item).1
      ≡ record no_verdict { item_consumed = leb count item.count; item_uid = item.uid }
unfolding consume_one
consume_one-all tid count item t h = ground arith

consume_from-first :
    (tid count uid : ℕ) (item : Item) (c : Character) (rest : List (ℕ × Item)) (s : ItemCache)
    → item.tid ≡ tid
    → item.uid ≢ invalid_uid
    → consume_from tid count c ((uid, item) ∷ rest) s
      ≡ conclude c
          (patch blank_item uid (λ x. (consume_one tid count x).0) s)
          (consume_one tid count item).1
unfolding consume_from
consume_from-first tid count uid item c rest s t n = rw valid refl
  where
    valid : ((consume_one tid count item).1.item_uid == invalid_uid) ≡ false
    valid = ground (arith, consume_one)

conclude-some :
    (c : Character) (s : ItemCache) (uid remaining : ℕ)
    → remaining ≢ 0
    → let verdict : ConsumeVerdict = record {
      item_consumed = true;
      item_uid = uid;
      remaining_item_count = remaining;
    } in
      conclude c s verdict ≡ (c, s, verdict)
unfolding conclude
conclude-some c s uid remaining n = rw some_left refl
  where
    some_left : (remaining == 0) ≡ false
    some_left = ground (arith, n)

-- All items of the inventory are at hand, and `item`, under its own valid UID, is the first with the
-- type identifier.
pub record IsFirst (tid uid : ℕ) (item : Item) (c : Character) (s : ItemCache) : Type 0 where
  pub items : List Item
  pub skipped : List (ℕ × Item)
  pub rest : List (ℕ × Item)
  pub at_hand : (get_many blank_item c.inventory s).1 ≡ some items
  pub split : records c.inventory items ≡ skipped ++ (uid, item) ∷ rest
  pub others : All (IsOther tid) skipped
  pub has_tid : item.tid ≡ tid
  pub own_uid : item.uid ≡ uid
  pub valid : uid ≢ invalid_uid

-- The consumption comes to the first item, which is as it was.
consume_item-first :
    (tid count uid : ℕ) (item : Item) (c : Character) (s : ItemCache)
    → IsFirst tid uid item c s
    → (s' : ItemCache) × (consume_item tid count c s
        ≡ conclude c
            (patch blank_item uid (λ x. (consume_one tid count x).0) s')
            (consume_one tid count item).1)
      × (visible uid s'.entries ≡ some item)
unfolding consume_item consume_found
consume_item-first tid count uid item c s f =
    let s1 = (get_many blank_item c.inventory s).0 in
    let seen : AreVisible s1 (f.skipped ++ (uid, item) ∷ f.rest) = subst (AreVisible s1) f.split (
      AreVisible-same s s1 (records c.inventory f.items) (λ key. visible-get_many c.inventory key s)
        (get_many-AreVisible c.inventory f.items s f.at_hand)) in
    let (s2, e, same) =
      consume_from-skip tid count c f.skipped ((uid, item) ∷ f.rest) s1 f.others
        (All-left (λ r. visible r.0 s1.entries ≡ some r.1) f.skipped ((uid, item) ∷ f.rest) seen) in
    (
      s2,
      ap (λ found. consume_found tid count c found s1) f.at_hand
          ∙ ap (λ rs. consume_from tid count c rs s1) f.split
          ∙ e
          ∙ consume_from-first tid count uid item c f.rest s2 f.has_tid
              (λ z. f.valid (sym f.own_uid ∙ z)),
      same uid
          ∙ (All-right (λ r. visible r.0 s1.entries ≡ some r.1) f.skipped ((uid, item) ∷ f.rest)
              seen).0,
    )

-- Consuming fewer of an item than there are takes that many off its count, says so in the verdict,
-- and leaves the character as it was, where the items of the inventory are at hand and the item is
-- the first of its type there, under its own valid UID.
pub consume_item-partial :
    (tid count uid : ℕ) (item : Item) (c : Character) (s : ItemCache)
    → IsFirst tid uid item c s
    → count < item.count
    → let (c', s', verdict) = consume_item tid count c s in
      (c' ≡ c)
      × (verdict ≡ record {
        item_consumed = true;
        item_uid = uid;
        remaining_item_count = item.count - count;
      })
      × (visible uid s'.entries ≡ some (record item { count = item.count - count }))
consume_item-partial tid count uid item c s f h =
    let (s1, e, v) = consume_item-first tid count uid item c s f in
    let one = consume_one-partial tid count item f.has_tid h in
    let patched = patch blank_item uid (λ x. (consume_one tid count x).0) s1 in
    subst
      (λ r.
        (r.0 ≡ c)
        × (r.2 ≡ record {
          item_consumed = true;
          item_uid = uid;
          remaining_item_count = item.count - count;
        })
        × (visible uid r.1.entries ≡ some (record item { count = item.count - count })))
      (sym (
        e
        ∙ ap (λ r. conclude c patched r.1) one
        ∙ conclude-some c patched item.uid (item.count - count) (λ z. absurd (omega arith))))
      (
        refl,
        λ i. record {
          item_consumed = true;
          item_uid = f.own_uid i;
          remaining_item_count = item.count - count;
        },
        ground (
          arith,
          visible-patch uid uid (λ x. (consume_one tid count x).0) s1,
          v,
          ap (λ r. r.0) one,
        ),
      )

-- Consuming at least as many of an item as there are removes it from the inventory and from the
-- cache, also where there are too few and the verdict says that nothing was consumed. The items of
-- the inventory are at hand and the item is the first of its type there, under its own valid UID.
pub consume_item-all :
    (tid count uid : ℕ) (item : Item) (c : Character) (s : ItemCache)
    → IsFirst tid uid item c s
    → item.count ≤ count
    → let (c', s', verdict) = consume_item tid count c s in
      (c' ≡ record c { inventory = remove_uid uid c.inventory })
      × (verdict ≡ record no_verdict { item_consumed = leb count item.count })
      × (visible uid s'.entries ≡ none)
unfolding conclude
consume_item-all tid count uid item c s f h =
    let (s1, e, v) = consume_item-first tid count uid item c s f in
    let patched = patch blank_item uid (λ x. (consume_one tid count x).0) s1 in
    subst
      (λ r.
        (r.0 ≡ record c { inventory = remove_uid uid c.inventory })
        × (r.2 ≡ record no_verdict { item_consumed = leb count item.count })
        × (visible uid r.1.entries ≡ none))
      (sym (e ∙ ap (conclude c patched) (consume_one-all tid count item f.has_tid h)))
      (
        λ i. record c { inventory = remove_uid (f.own_uid i) c.inventory },
        refl,
        ground (arith, visible-delete item.uid uid patched, f.own_uid),
      )
