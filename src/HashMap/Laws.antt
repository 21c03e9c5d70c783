-- ===== src/HashMap/Laws.antt =====
-- What reading a map after a write gives, for every key.
use metalbond_rs.HashMap.{
  HashMap, get, insert, remove, remove_all, or_default, put_or_drop, contains,
}
use metalbond_rs.Common.{
  ◌==◌, ==_iff, PartialEq, false, if◌then◌else◌, none, some, List, [], ◌∷◌, ◌≡◌, refl, arith,
  is_empty,
}

module _ {ℓ} {K V : Type ℓ} ⦃e : PartialEq K⦄ where
  pub get-insert :
      (j k : K) (v : V) (m : HashMap K V)
      → get j (insert k v m) ≡ (if k == j then some v else get j m)
  unfolding get insert
  get-insert j k v [] = refl
  get-insert j k v ((i, w) ∷ m) =
      ground (arith, get-insert j k v m, ==_iff i k, ==_iff i j, ==_iff k j)

  pub get-remove :
      (j k : K) (m : HashMap K V) → get j (remove k m) ≡ (if k == j then none else get j m)
  unfolding get remove
  get-remove j k [] = ground arith
  get-remove j k ((i, w) ∷ m) = ground (arith, get-remove j k m, ==_iff i k, ==_iff i j, ==_iff k j)

  pub get-remove_all :
      (j : K) (ks : List K) (m : HashMap K V)
      → get j (remove_all ks m) ≡ (if contains j ks then none else get j m)
  unfolding remove_all contains
  get-remove_all j [] m = refl
  get-remove_all j (k ∷ ks) m = ground (arith, get-remove_all j ks (remove k m), get-remove j k m)

  pub is_empty-insert : (k : K) (v : V) (m : HashMap K V) → is_empty (insert k v m) ≡ false
  unfolding insert
  is_empty-insert k v [] = refl
  is_empty-insert k v ((i, w) ∷ m) = ground arith

module _ {ℓ} {K V : Type ℓ} ⦃e : PartialEq K⦄ where
  pub or_default-insert :
      (j k : K) (l : List V) (m : HashMap K (List V))
      → or_default j (insert k l m) ≡ (if k == j then l else or_default j m)
  unfolding or_default
  or_default-insert j k l m = ground (arith, get-insert j k l m)

  -- An entry that was dropped reads as the empty collection, as it did before it was made.
  pub or_default-put_or_drop :
      (j k : K) (l : List V) (m : HashMap K (List V))
      → or_default j (put_or_drop k l m) ≡ (if k == j then l else or_default j m)
  unfolding or_default put_or_drop
  or_default-put_or_drop j k [] m = ground (arith, get-remove j k m)
  or_default-put_or_drop j k (x ∷ l) m = ground (arith, get-insert j k (x ∷ l) m)
