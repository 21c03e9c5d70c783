-- ===== src/HashMap/Collect.antt =====
-- The loops that build a new map from an old one: with an entry for every key, or only for the keys
-- whose new collection is not empty.
use metalbond_rs.HashMap.{HashMap, get, insert, or_default}
use metalbond_rs.HashMap.Laws.{get-insert, or_default-insert}
use metalbond_rs.HashMap.Tidy.{Distinct, insert-Distinct}
use metalbond_rs.Common.{
  ==_iff, PartialEq, if◌then◌else◌, none, some, List, [], ◌∷◌, ◌≡◌, refl, ◌∙◌, arith, is_empty,
  Bool-cases, inl, inr,
}

module _ {ℓ} {K V W : Type ℓ} ⦃e : PartialEq K⦄ (f : K → V → W) where
  -- `for (k, v) in m { result.insert(k, f(k, v)); }`
  unfoldable pub collect : HashMap K V → HashMap K W → HashMap K W
  unfolding insert
  collect [] result = result
  collect ((k, v) ∷ m) result = collect m (insert k (f k v) result)

  pub collect-Distinct :
      (m : HashMap K V) (result : HashMap K W) → Distinct result → Distinct (collect m result)
  unfolding collect
  collect-Distinct [] result d = d
  collect-Distinct ((k, v) ∷ m) result d =
      collect-Distinct m (insert k (f k v) result) (insert-Distinct k (f k v) result d)

  get-collect_absent :
      (j : K) (m : HashMap K V) (result : HashMap K W)
      → get j m ≡ none
      → get j (collect m result) ≡ get j result
  unfolding collect get
  get-collect_absent j [] result h = refl
  get-collect_absent j ((k, v) ∷ m) result h =
      ground
        (arith, get-collect_absent j m (insert k (f k v) result), get-insert j k (f k v) result)

  -- The new map has the old map's keys, each with its new value.
  pub get-collect :
      (j : K) (m : HashMap K V) (result : HashMap K W)
      → Distinct m
      → get j (collect m result) ≡ elim (get j m) [ none ↦ get j result | some v ↦ some (f j v) ]
  unfolding collect get
  get-collect j [] result d = refl
  get-collect j ((k, v) ∷ m) result d = ground (
    arith,
    get-collect j m (insert k (f k v) result) d.1,
    get-collect_absent j m (insert k (f k v) result),
    get-insert j k (f k v) result,
    ==_iff k j,
  )

module _ {ℓ} {K V W : Type ℓ} ⦃e : PartialEq K⦄ (f : K → List V → List W) where
  -- `for (k, l) in m { let w = f(k, l); if !w.is_empty() { result.insert(k, w); } }`
  unfoldable pub collect_some : HashMap K (List V) → HashMap K (List W) → HashMap K (List W)
  unfolding insert
  collect_some [] result = result
  collect_some ((k, l) ∷ m) result =
      collect_some m (if is_empty (f k l) then result else insert k (f k l) result)

  pub collect_some-Distinct :
      (m : HashMap K (List V)) (result : HashMap K (List W))
      → Distinct result
      → Distinct (collect_some m result)
  unfolding collect_some
  collect_some-Distinct [] result d = d
  collect_some-Distinct ((k, l) ∷ m) result d =
      let inserted : Distinct (insert k (f k l) result) = insert-Distinct k (f k l) result d in
      collect_some-Distinct m (if is_empty (f k l) then result else insert k (f k l) result)
        (elim (Bool-cases (is_empty (f k l))) [ inl t ↦ rw (t) d | inr e ↦ rw (e) inserted ])

  or_default-collect_absent :
      (j : K) (m : HashMap K (List V)) (result : HashMap K (List W))
      → get j m ≡ none
      → or_default j (collect_some m result) ≡ or_default j result
  unfolding collect_some get
  or_default-collect_absent j [] result h = refl
  or_default-collect_absent j ((k, l) ∷ m) result h = ground (
    arith,
    or_default-collect_absent j m (if is_empty (f k l) then result else insert k (f k l) result),
    or_default-insert j k (f k l) result,
  )

  pub or_default-collect :
      (j : K) (m : HashMap K (List V)) (result : HashMap K (List W))
      → f j [] ≡ []
      → or_default j result ≡ []
      → Distinct m
      → or_default j (collect_some m result) ≡ f j (or_default j m)
  unfolding collect_some get or_default
  or_default-collect j [] result z r d = r ∙ (ground arith)
  or_default-collect j ((k, l) ∷ m) result z r d = ground (
    arith,
    or_default-collect j m (if is_empty (f k l) then result else insert k (f k l) result) z,
    or_default-collect_absent j m (if is_empty (f k l) then result else insert k (f k l) result),
    or_default-insert j k (f k l) result,
    ==_iff k j,
    d.0,
    d.1,
  )

module _ {ℓ} {K V W : Type ℓ} ⦃e : PartialEq K⦄ (f : K → List V → List W) where
  -- A copy of a map of collections, read with the empty collection for a missing key.
  pub or_default-copy :
      (j : K) (m : HashMap K (List V))
      → f j [] ≡ []
      → Distinct m
      → or_default j (collect f m []) ≡ f j (or_default j m)
  unfolding or_default get
  or_default-copy j m z d = ground (arith, get-collect f j m [] d)
