-- ===== src/Common/Dict.antt =====
-- `std::map` and `std::unordered_map` with a numeric key, as association lists.
-- The order of the entries is the order of insertion, which stands for the unspecified one of an
-- unordered map; `in_order` gives that of a `std::map`.
use Prim.Native.Nat.{ℕ, suc, ◌≤◌}
use mathlib.Core.Path.{◌≡◌, refl}
use mathlib.Core.Bool.{Bool, true, false}
use mathlib.Core.List.{List, [], ◌∷◌}
use mathlib.Core.Option.{Option, none, some}
use native.Mathlib.Omega.{arith}
use alicia_server.Common.Tests.{◌==◌, leb, if◌then◌else◌, is_some}
use alicia_server.Common.Lists.{length}

abbrev pub Dict {ℓ} : Type ℓ → Type ℓ
Dict V = List (ℕ × V)

module _ {ℓ} {V : Type ℓ} where
  unfoldable pub find : ℕ → Dict V → Option V
  find k [] = none
  find k ((j, v) ∷ d) = if j == k then some v else find k d

  -- contains
  abbrev pub contains : ℕ → Dict V → Bool
  contains k d = is_some (find k d)

  -- insert_or_assign, operator[] followed by an assignment
  unfoldable pub assign : ℕ → V → Dict V → Dict V
  assign k v [] = (k, v) ∷ []
  assign k v ((j, w) ∷ d) = if j == k then (k, v) ∷ d else (j, w) ∷ assign k v d

  -- try_emplace, emplace: an entry that is there stays
  unfoldable pub try_emplace : ℕ → V → Dict V → Dict V
  try_emplace k v d = if contains k d then d else assign k v d

  -- erase
  unfoldable pub erase : ℕ → Dict V → Dict V
  erase k [] = []
  erase k ((j, w) ∷ d) = if j == k then erase k d else (j, w) ∷ erase k d

  -- A change of the value through the reference that `find` or `at` gives.
  unfoldable pub modify : ℕ → (V → V) → Dict V → Dict V
  modify k f [] = []
  modify k f ((j, w) ∷ d) = if j == k then (j, f w) ∷ d else (j, w) ∷ modify k f d

  abbrev pub size : Dict V → ℕ
  size = length

  unfoldable pub keys : Dict V → List ℕ
  keys [] = []
  keys ((j, w) ∷ d) = j ∷ keys d

  -- The entries in the order of their keys, in which a `std::map` is gone through.
  unfoldable pub insert_ordered : ℕ → V → Dict V → Dict V
  insert_ordered k v [] = (k, v) ∷ []
  insert_ordered k v ((j, w) ∷ d) =
      let rest = insert_ordered k v d in if leb k j then (k, v) ∷ (j, w) ∷ d else (j, w) ∷ rest

  unfoldable pub in_order : Dict V → Dict V
  in_order [] = []
  in_order ((j, w) ∷ d) = insert_ordered j w (in_order d)

  abbrev pub first_key : Dict V → Option ℕ
  first_key [] = none
  first_key ((j, w) ∷ d) = some j

  pub find-nil : (k : ℕ) → find k [] ≡ none
  unfolding find
  find-nil k = refl

  pub find-cons :
      (k j : ℕ) (v : V) (d : Dict V) → find k ((j, v) ∷ d) ≡ (if j == k then some v else find k d)
  unfolding find
  find-cons k j v d = refl

  pub find-assign :
      (k j : ℕ) (v : V) (d : Dict V) → find j (assign k v d) ≡ (if k == j then some v else find j d)
  unfolding find assign
  find-assign k j v [] = refl
  find-assign k j v ((i, w) ∷ d) = ground (arith, find-assign k j v d)

  pub find-erase : (k j : ℕ) (d : Dict V) → find j (erase k d) ≡ (if k == j then none else find j d)
  unfolding find erase
  find-erase k j [] = ground arith
  find-erase k j ((i, w) ∷ d) = ground (arith, find-erase k j d)

  pub find-try_emplace :
      (k j : ℕ) (v : V) (d : Dict V)
      → find j (try_emplace k v d)
        ≡ (if k == j then some (elim (find k d) [ none ↦ v | some w ↦ w ]) else find j d)
  unfolding try_emplace
  find-try_emplace k j v d = ground (arith, find-assign k j v d)

  pub find-modify :
      (k j : ℕ) (f : V → V) (d : Dict V)
      → find j (modify k f d)
        ≡ (if k == j then elim (find j d) [ none ↦ none | some w ↦ some (f w) ] else find j d)
  unfolding find modify
  find-modify k j f [] = ground arith
  find-modify k j f ((i, w) ∷ d) = ground (arith, find-modify k j f d)

  pub contains-modify :
      (k j : ℕ) (f : V → V) (d : Dict V) → contains j (modify k f d) ≡ contains j d
  contains-modify k j f d = ground (arith, find-modify k j f d)

  pub size-modify : (k : ℕ) (f : V → V) (d : Dict V) → size (modify k f d) ≡ size d
  unfolding modify
  size-modify k f [] = refl
  size-modify k f ((i, w) ∷ d) = ground (arith, size-modify k f d)

  pub size-assign :
      (k : ℕ) (v : V) (d : Dict V)
      → size (assign k v d) ≡ (if contains k d then size d else suc (size d))
  unfolding assign find
  size-assign k v [] = refl
  size-assign k v ((i, w) ∷ d) = ground (arith, size-assign k v d)

  pub size-try_emplace :
      (k : ℕ) (v : V) (d : Dict V)
      → size (try_emplace k v d) ≡ (if contains k d then size d else suc (size d))
  unfolding try_emplace
  size-try_emplace k v d = ground (arith, size-assign k v d)

  pub size-erase-le : (k : ℕ) (d : Dict V) → size (erase k d) ≤ size d
  unfolding erase
  size-erase-le k [] = omega arith
  size-erase-le k ((i, w) ∷ d) = ground (arith, size-erase-le k d)

  pub size-erase-lt : (k : ℕ) (d : Dict V) → contains k d ≡ true → suc (size (erase k d)) ≤ size d
  unfolding erase find
  size-erase-lt k ((i, w) ∷ d) h = ground (arith, size-erase-lt k d, size-erase-le k d)
  size-erase-lt k [] h = ground arith

  pub erase_missing : (k : ℕ) (d : Dict V) → contains k d ≡ false → erase k d ≡ d
  unfolding erase find
  erase_missing k [] h = refl
  erase_missing k ((i, w) ∷ d) h = ground (arith, erase_missing k d)

  -- No two entries have one key, as in the maps of the standard library.
  abbrev pub IsUnique : Dict V → Type 0
  IsUnique [] = Unit {0}
  IsUnique ((j, w) ∷ d) = (contains j d ≡ false) × IsUnique d

  pub assign-IsUnique : (k : ℕ) (v : V) (d : Dict V) → IsUnique d → IsUnique (assign k v d)
  unfolding assign find
  assign-IsUnique k v [] u = (refl, tt)
  assign-IsUnique k v ((i, w) ∷ d) u =
      ground (arith, assign-IsUnique k v d u.1, find-assign k i v d)

  pub erase-IsUnique : (k : ℕ) (d : Dict V) → IsUnique d → IsUnique (erase k d)
  unfolding erase
  erase-IsUnique k [] u = tt
  erase-IsUnique k ((i, w) ∷ d) u = ground (arith, erase-IsUnique k d u.1, find-erase k i d)

  pub modify-IsUnique : (k : ℕ) (f : V → V) (d : Dict V) → IsUnique d → IsUnique (modify k f d)
  unfolding modify
  modify-IsUnique k f [] u = tt
  modify-IsUnique k f ((i, w) ∷ d) u =
      ground (arith, modify-IsUnique k f d u.1, contains-modify k i f d)

  pub try_emplace-IsUnique :
      (k : ℕ) (v : V) (d : Dict V) → IsUnique d → IsUnique (try_emplace k v d)
  unfolding try_emplace
  try_emplace-IsUnique k v d u = ground (arith, assign-IsUnique k v d u)

  pub size-erase :
      (k : ℕ) (d : Dict V)
      → IsUnique d
      → (if contains k d then suc (size (erase k d)) else size (erase k d)) ≡ size d
  unfolding erase find
  size-erase k [] u = refl
  size-erase k ((i, w) ∷ d) u = ground (arith, size-erase k d u.1, ==_eq i k, erase_missing k d)
    where
      ==_eq : (a b : ℕ) → (a == b) ≡ true → a ≡ b
      ==_eq a b h = ground arith

pub ruleset dict_laws = (find-assign, find-erase, find-try_emplace, find-modify)
