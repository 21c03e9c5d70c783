-- ===== src/Http/Collections.antt =====
-- std::collections::BTreeMap as its entries in ascending order, and the stable `sort_by` of slices.
use metalbond_rs.HashMap.{HashMap, get, contains, or_default}
use metalbond_rs.Common.{
  ◌||◌, ◌==◌, ==_iff, PartialEq, if◌then◌else◌, some, List, [], ◌∷◌, ◌≡◌, refl, ap, ◌∙◌, arith,
  Ordering, lt, eq, gt, IsOrder, Ordering-cases,
}

abbrev pub BTreeMap {ℓ} : Type ℓ → Type ℓ → Type ℓ
BTreeMap K V = HashMap K V

module _ {ℓ} {K V : Type ℓ} (cmp : K → K → Ordering) where
  -- `BTreeMap::insert`; equal keys are the same key.
  unfoldable pub btree_insert : K → V → BTreeMap K V → BTreeMap K V
  btree_insert k v [] = (k, v) ∷ []
  btree_insert k v ((j, w) ∷ m) =
      let rest = btree_insert k v m in
      elim (cmp k j) [ lt ↦ (k, v) ∷ (j, w) ∷ m | eq ↦ (k, v) ∷ m | gt ↦ (j, w) ∷ rest ]

module _ {ℓ} {A : Type ℓ} (cmp : A → A → Ordering) where
  -- Into a sorted list, in front of what is equal.
  unfoldable pub sort_insert : A → List A → List A
  sort_insert x [] = x ∷ []
  sort_insert x (y ∷ ys) =
      let rest = sort_insert x ys in elim (cmp x y) [ gt ↦ y ∷ rest | _ ↦ x ∷ y ∷ ys ]

  -- The result of any stable sort.
  unfoldable pub sort_by : List A → List A
  unfolding sort_insert
  sort_by [] = []
  sort_by (x ∷ xs) = sort_insert x (sort_by xs)

module _ {ℓ} {K V : Type ℓ} ⦃e : PartialEq K⦄ {cmp : K → K → Ordering} (h : IsOrder cmp) where
  pub get-btree_insert :
      (i k : K) (v : V) (m : BTreeMap K V)
      → get i (btree_insert cmp k v m) ≡ (if k == i then some v else get i m)
  unfolding get btree_insert
  get-btree_insert i k v [] = refl
  get-btree_insert i k v ((j, w) ∷ m) =
      ground (arith, get-btree_insert i k v m, h.eq_iff k j, h.flip k j, ==_iff k i, ==_iff j i)

module _ {ℓ} {K V : Type ℓ} ⦃e : PartialEq K⦄ {cmp : K → K → Ordering} (h : IsOrder cmp) where
  pub or_default-btree_insert :
      (i k : K) (l : List V) (m : BTreeMap K (List V))
      → or_default i (btree_insert cmp k l m) ≡ (if k == i then l else or_default i m)
  unfolding or_default
  or_default-btree_insert i k l m = ground (arith, get-btree_insert h i k l m)

module _ {ℓ} {A : Type ℓ} ⦃e : PartialEq A⦄ (cmp : A → A → Ordering) where
  contains-sort_insert :
      (a x : A) (ys : List A) → contains a (sort_insert cmp x ys) ≡ (x == a || contains a ys)
  unfolding contains sort_insert
  contains-sort_insert a x [] = refl
  contains-sort_insert a x (y ∷ ys) =
      ground (arith, contains-sort_insert a x ys, Ordering-cases (cmp x y))

  -- Sorting keeps the elements.
  pub contains-sort_by : (a : A) (xs : List A) → contains a (sort_by cmp xs) ≡ contains a xs
  unfolding contains sort_by
  contains-sort_by a [] = refl
  contains-sort_by a (x ∷ xs) =
      contains-sort_insert a x (sort_by cmp xs) ∙ ap (λ b. x == a || b) (contains-sort_by a xs)
