-- ===== src/HashMap/Tidy.antt =====
-- The invariant of a map of collections: each key once, no empty collection, and every collection
-- in order itself.
use metalbond_rs.HashMap.{HashMap, get, insert, remove, or_default, put_or_drop}
use metalbond_rs.HashMap.Laws.{get-insert, get-remove}
use metalbond_rs.Common.{
  ◌==◌, ==_iff, PartialEq, false, none, List, [], ◌∷◌, ◌≡◌, refl, arith, is_empty, Bool-cases, inl,
  inr,
}

module _ {ℓ} {K V : Type ℓ} ⦃e : PartialEq K⦄ where
  abbrev pub Distinct : HashMap K V → Type ℓ
  Distinct [] = Unit
  Distinct ((k, v) ∷ m) = (get k m ≡ none) × Distinct m

  pub insert-Distinct : (k : K) (v : V) (m : HashMap K V) → Distinct m → Distinct (insert k v m)
  unfolding insert get
  insert-Distinct k v [] d = (refl, tt)
  insert-Distinct k v ((i, w) ∷ m) d =
      ground (arith, insert-Distinct k v m d.1, get-insert i k v m, ==_iff i k, ==_iff k i)

  pub remove-Distinct : (k : K) (m : HashMap K V) → Distinct m → Distinct (remove k m)
  unfolding remove
  remove-Distinct k [] d = tt
  remove-Distinct k ((i, w) ∷ m) d = ground (arith, remove-Distinct k m d.1, get-remove i k m)

module _ {ℓ} {K V : Type ℓ} (P : List V → Type ℓ) where
  abbrev pub AllValues : HashMap K (List V) → Type ℓ
  AllValues [] = Unit
  AllValues ((k, l) ∷ m) = (is_empty l ≡ false) × P l × AllValues m

module _ {ℓ} {K V : Type ℓ} ⦃e : PartialEq K⦄ (P : List V → Type ℓ) where
  insert-AllValues :
      (k : K) (l : List V) (m : HashMap K (List V))
      → is_empty l ≡ false
      → P l
      → AllValues P m
      → AllValues P (insert k l m)
  unfolding insert
  insert-AllValues k l [] n p a = (n, p, tt)
  insert-AllValues k l ((i, w) ∷ m) n p a = ground (arith, insert-AllValues k l m n p a.2)

  remove-AllValues : (k : K) (m : HashMap K (List V)) → AllValues P m → AllValues P (remove k m)
  unfolding remove
  remove-AllValues k [] a = tt
  remove-AllValues k ((i, w) ∷ m) a = ground (arith, remove-AllValues k m a.2)

  pub or_default-AllValues :
      (k : K) (m : HashMap K (List V)) → P [] → AllValues P m → P (or_default k m)
  unfolding or_default
  or_default-AllValues k [] p a = p
  or_default-AllValues k ((i, w) ∷ m) p a = elim (Bool-cases (i == k)) [
    | inl same ↦ rw (same, or_default) a.1
    | inr other ↦ rw (other, or_default) (or_default-AllValues k m p a.2)
  ]

  abbrev pub IsTidy : HashMap K (List V) → Type ℓ
  IsTidy m = Distinct m × AllValues P m

  pub insert-IsTidy :
      (k : K) (l : List V) (m : HashMap K (List V))
      → is_empty l ≡ false
      → P l
      → IsTidy m
      → IsTidy (insert k l m)
  insert-IsTidy k l m n p t = (insert-Distinct k l m t.0, insert-AllValues k l m n p t.1)

  -- Dropping what became empty keeps the map tidy.
  pub put_or_drop-IsTidy :
      (k : K) (l : List V) (m : HashMap K (List V)) → P l → IsTidy m → IsTidy (put_or_drop k l m)
  unfolding put_or_drop
  put_or_drop-IsTidy k [] m p t = (remove-Distinct k m t.0, remove-AllValues k m t.1)
  put_or_drop-IsTidy k (x ∷ l) m p t = insert-IsTidy k (x ∷ l) m refl p t
