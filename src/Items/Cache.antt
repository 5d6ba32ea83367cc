-- ===== src/Items/Cache.antt =====
-- What is visible in the item cache, and what `get_many` hands out of it.
use alicia_server.Common.{
  ℕ, ◌≡◌, refl, sym, ◌∙◌, true, Option, none, some, List, [], ◌∷◌, ◌++◌, ◌==◌, if◌then◌else◌, arith,
  All,
}
use alicia_server.Common.Dict
use alicia_server.Common.Dict.{Dict}
use alicia_server.Storage.{
  Entry, get, get_many, patch, delete, invalidate, add_record, request_retrieve, request_store,
  request_delete,
}
use alicia_server.Storage.View.{visible, visible-emplace}
use alicia_server.Items.{Item, blank_item, ItemCache, records}

pub visible-patch :
    (j key : ℕ) (f : Item → Item) (s : ItemCache)
    → visible key (patch blank_item j f s).entries ≡ (
        if j == key
        then elim (visible key s.entries) [ none ↦ none | some v ↦ some (f v) ]
        else visible key s.entries)
unfolding patch request_store
visible-patch j key f s =
    ground
      (arith, Dict.find-modify j key (λ (e : Entry Item). record e { value = f e.value }) s.entries)

pub visible-delete :
    (j key : ℕ) (s : ItemCache)
    → visible key (delete blank_item j s).entries
      ≡ (if j == key then none else visible key s.entries)
unfolding delete invalidate request_delete
visible-delete j key s = ground (arith, Dict.find-erase j key s.entries)

-- `get` changes nothing that is visible, and finds what is visible.
pub visible-get :
    (j key : ℕ) (s : ItemCache)
    → visible key (get blank_item j true s).0.entries ≡ visible key s.entries
unfolding get request_retrieve
visible-get j key s = ground (arith, visible-emplace blank_item j key s.entries)

pub get-visible : (key : ℕ) (s : ItemCache) → (get blank_item key true s).1 ≡ visible key s.entries
unfolding get
get-visible key s = ground (arith, visible-emplace blank_item key key s.entries)

pub visible-get_many :
    (keys : List ℕ) (key : ℕ) (s : ItemCache)
    → visible key (get_many blank_item keys s).0.entries ≡ visible key s.entries
unfolding get_many
visible-get_many [] key s = refl
visible-get_many (j ∷ keys) key s =
    visible-get_many keys key (get blank_item j true s).0 ∙ visible-get j key s

-- What `get_many` hands out is visible.
abbrev pub AreVisible : ItemCache → List (ℕ × Item) → Type 0
AreVisible s = All (λ r. visible r.0 s.entries ≡ some r.1)

pub AreVisible-same :
    (s s' : ItemCache) (rs : List (ℕ × Item))
    → ((key : ℕ) → visible key s'.entries ≡ visible key s.entries)
    → AreVisible s rs
    → AreVisible s' rs
AreVisible-same s s' [] same v = tt
AreVisible-same s s' ((u, item) ∷ rs) same v = (same u ∙ v.0, AreVisible-same s s' rs same v.1)

pub add_record-visible :
    (j : ℕ) (keys : List ℕ) (items : List Item) (s : ItemCache) (o : Option Item)
    (os : Option (List Item))
    → visible j s.entries ≡ o
    → ((found : List Item) → os ≡ some found → AreVisible s (records keys found))
    → add_record o os ≡ some items
    → AreVisible s (records (j ∷ keys) items)
add_record-visible j keys items s none os p q e = absurd (let p = e in cc)
add_record-visible j keys items s (some v) none p q e = absurd (let p = e in cc)
add_record-visible j keys [] s (some v) (some vs) p q e = absurd (let p = e in cc)
add_record-visible j keys (i ∷ is) s (some v) (some vs) p q e =
    (p ∙ (let r = e in cc), q is (let r = e in cc))

pub get_many-AreVisible :
    (keys : List ℕ) (items : List Item) (s : ItemCache)
    → (get_many blank_item keys s).1 ≡ some items
    → AreVisible s (records keys items)
unfolding get_many
get_many-AreVisible [] items s e = tt
get_many-AreVisible (j ∷ keys) items s e =
    let s1 = (get blank_item j true s).0 in
    add_record-visible j keys items s (get blank_item j true s).1 (get_many blank_item keys s1).1
      (sym (get-visible j s))
      (λ found f.
        AreVisible-same s1 s (records keys found) (λ key. sym (visible-get j key s))
          (get_many-AreVisible keys found s1 f))
      e

pub All-left : (P : ℕ × Item → Type 0) (xs ys : List (ℕ × Item)) → All P (xs ++ ys) → All P xs
All-left P [] ys h = tt
All-left P (x ∷ xs) ys h = (h.0, All-left P xs ys h.1)

pub All-right : (P : ℕ × Item → Type 0) (xs ys : List (ℕ × Item)) → All P (xs ++ ys) → All P ys
All-right P [] ys h = h
All-right P (x ∷ xs) ys h = All-right P xs ys h.1
