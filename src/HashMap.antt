-- ===== src/HashMap.antt =====
-- std::collections::HashMap and HashSet, as the code uses them: association lists and lists in an
-- order of iteration. An entry is written in place, and a new one goes to the end. The laws stand
-- in the children; `Sweep` and `Collect` are the loops over a map that the route table runs.
pub mod Laws
pub mod Sets
pub mod Tidy
pub mod Sweep
pub mod Collect
use metalbond_rs.Common.{
  ◌==◌, PartialEq, Bool, true, false, not, ◌||◌, if◌then◌else◌, Option, none, some, List, [], ◌∷◌,
  is_empty,
}

abbrev pub HashMap {ℓ} : Type ℓ → Type ℓ → Type ℓ
HashMap K V = List (K × V)

abbrev pub HashSet {ℓ} : Type ℓ → Type ℓ
HashSet A = List A

module _ {ℓ} {K V : Type ℓ} where
  abbrev pub keys : HashMap K V → List K
  keys [] = []
  keys ((k, v) ∷ m) = k ∷ keys m

  abbrev pub values : HashMap K V → List V
  values [] = []
  values ((k, v) ∷ m) = v ∷ values m

module _ {ℓ} {K V : Type ℓ} ⦃e : PartialEq K⦄ where
  unfoldable pub get : K → HashMap K V → Option V
  get j [] = none
  get j ((k, v) ∷ m) = if k == j then some v else get j m

  abbrev pub contains_key : K → HashMap K V → Bool
  contains_key j m = elim (get j m) [ none ↦ false | some v ↦ true ]

  unfoldable pub insert : K → V → HashMap K V → HashMap K V
  insert k v [] = (k, v) ∷ []
  insert k v ((i, w) ∷ m) = if i == k then (k, v) ∷ m else (i, w) ∷ insert k v m

  unfoldable pub remove : K → HashMap K V → HashMap K V
  remove k [] = []
  remove k ((i, w) ∷ m) = let rest = remove k m in if i == k then rest else (i, w) ∷ rest

  -- `for k in ks { map.remove(&k); }`
  unfoldable pub remove_all : List K → HashMap K V → HashMap K V
  remove_all [] m = m
  remove_all (k ∷ ks) m = remove_all ks (remove k m)

module _ {ℓ} {A : Type ℓ} ⦃e : PartialEq A⦄ where
  unfoldable pub contains : A → HashSet A → Bool
  contains a [] = false
  contains a (x ∷ xs) = x == a || contains a xs

  -- `HashSet::insert`, which also returns whether the value was new.
  unfoldable pub set_insert : A → HashSet A → HashSet A × Bool
  unfolding contains
  set_insert a xs = if contains a xs then (xs, false) else (a ∷ xs, true)

  unfoldable pub erase : A → HashSet A → HashSet A
  erase a [] = []
  erase a (x ∷ xs) = let rest = erase a xs in if x == a then rest else x ∷ rest

  -- `HashSet::remove`, which also returns whether the value was there.
  unfoldable pub set_remove : A → HashSet A → HashSet A × Bool
  unfolding contains erase
  set_remove a xs = (erase a xs, contains a xs)

-- Maps whose values are collections: what `get` gives, or the empty collection.
module _ {ℓ} {K V : Type ℓ} ⦃e : PartialEq K⦄ where
  -- `entry(k).or_default()`
  unfoldable pub or_default : K → HashMap K (List V) → List V
  unfolding get
  or_default k m = elim (get k m) [ none ↦ [] | some l ↦ l ]

  -- The cleanup after a change through `get_mut`: an inner collection that became empty is
  -- removed, any other stays written back.
  unfoldable pub put_or_drop : K → List V → HashMap K (List V) → HashMap K (List V)
  unfolding insert remove
  put_or_drop k l m = if is_empty l then remove k m else insert k l m
