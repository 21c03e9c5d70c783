-- ===== src/HashMap/Sweep.antt =====
-- The loop that changes every collection of a map in place, notes the keys whose collection became
-- empty, and removes those keys after the loop: each of the three nested loops of
-- `remove_routes_from_peer`.
use metalbond_rs.HashMap.{HashMap, get, remove, remove_all, or_default, contains}
use metalbond_rs.HashMap.Sets.{contains-append}
use metalbond_rs.HashMap.Tidy.{Distinct, IsTidy, AllValues}
use metalbond_rs.Common.{
  ==_iff, PartialEq, true, false, if◌then◌else◌, Bool-cases, none, List, [], ◌∷◌, ◌++◌, ◌≡◌, refl,
  ap, ◌∙◌, inl, inr, arith, is_empty,
}

module _ {ℓ} {K V R : Type ℓ} ⦃e : PartialEq K⦄ (change : K → List V → List V × List R) where
  pub visit : HashMap K (List V) → HashMap K (List V) × List R × List K
  visit [] = ([], [], [])
  visit ((k, l) ∷ m) =
      let rest = visit m in
      let (l', reported) = change k l in
      ((k, l') ∷ rest.0, reported ++ rest.1, if is_empty l' then k ∷ rest.2 else rest.2)

  unfoldable pub sweep : HashMap K (List V) → HashMap K (List V) × List R
  unfolding visit remove_all
  sweep m = let (entries, reported, emptied) = visit m in (remove_all emptied entries, reported)

  -- What the loop and the removals leave, in one pass.
  pub kept : HashMap K (List V) → HashMap K (List V)
  kept [] = []
  kept ((k, l) ∷ m) =
      let rest = kept m in if is_empty (change k l).0 then rest else (k, (change k l).0) ∷ rest

  get-visit : (j : K) (m : HashMap K (List V)) → get j m ≡ none → get j (visit m).0 ≡ none
  unfolding visit get
  get-visit j [] h = refl
  get-visit j ((k, l) ∷ m) h = ground (arith, get-visit j m)

  emptied-visit : (j : K) (m : HashMap K (List V)) → get j m ≡ none → contains j (visit m).2 ≡ false
  unfolding visit get contains
  emptied-visit j [] h = refl
  emptied-visit j ((k, l) ∷ m) h = ground (arith, emptied-visit j m)

module _ {ℓ} {K V : Type ℓ} ⦃e : PartialEq K⦄ where
  remove-absent : (k : K) (m : HashMap K V) → get k m ≡ none → remove k m ≡ m
  unfolding get remove
  remove-absent k [] h = refl
  remove-absent k ((i, w) ∷ m) h = ground (arith, remove-absent k m)

  remove_all-cons :
      (ks : List K) (k : K) (v : V) (m : HashMap K V)
      → contains k ks ≡ false
      → remove_all ks ((k, v) ∷ m) ≡ (k, v) ∷ remove_all ks m
  unfolding remove_all remove contains
  remove_all-cons [] k v m h = refl
  remove_all-cons (j ∷ ks) k v m h =
      ground (arith, remove_all-cons ks k v (remove j m), ==_iff j k, ==_iff k j)

module _ {ℓ} {K V R : Type ℓ} ⦃e : PartialEq K⦄ (change : K → List V → List V × List R) where
  -- Under distinct keys the removals after the loop leave exactly the non-empty collections.
  pub sweep-kept : (m : HashMap K (List V)) → Distinct m → (sweep change m).0 ≡ kept change m
  unfolding sweep visit kept remove
  sweep-kept [] d = refl
  sweep-kept ((k, l) ∷ m) d = ground (
    arith,
    sweep-kept m d.1,
    ==_iff k k,
    get-visit change k m d.0,
    emptied-visit change k m d.0,
    remove-absent k (visit change m).0,
    remove_all-cons (visit change m).2 k (change k l).0 (visit change m).0,
  )

  get-kept : (j : K) (m : HashMap K (List V)) → get j m ≡ none → get j (kept change m) ≡ none
  unfolding kept get
  get-kept j [] h = refl
  get-kept j ((k, l) ∷ m) h = ground (arith, get-kept j m)

  or_default-kept :
      (j : K) (m : HashMap K (List V))
      → (change j []).0 ≡ []
      → Distinct m
      → or_default j (kept change m) ≡ (change j (or_default j m)).0
  unfolding kept get or_default
  or_default-kept j [] h d = ground arith
  or_default-kept j ((k, l) ∷ m) h d =
      ground (arith, or_default-kept j m h d.1, ==_iff k j, get-kept j m)

  -- After the sweep every key holds the changed collection.
  pub or_default-sweep :
      (j : K) (m : HashMap K (List V))
      → (change j []).0 ≡ []
      → Distinct m
      → or_default j (sweep change m).0 ≡ (change j (or_default j m)).0
  or_default-sweep j m h d = ap (or_default j) (sweep-kept m d) ∙ or_default-kept j m h d

  kept-Distinct : (m : HashMap K (List V)) → Distinct m → Distinct (kept change m)
  unfolding kept
  kept-Distinct [] d = tt
  kept-Distinct ((k, l) ∷ m) d = ground (arith, kept-Distinct m d.1, get-kept k m d.0)

  kept-AllValues :
      (P : List V → Type ℓ) (m : HashMap K (List V))
      → ((k : K) (l : List V) → P l → P (change k l).0)
      → AllValues P m
      → AllValues P (kept change m)
  unfolding kept
  kept-AllValues P [] h a = tt
  kept-AllValues P ((k, l) ∷ m) h a = ground (arith, kept-AllValues P m h a.2, h k l a.1)

  pub sweep-IsTidy :
      (P : List V → Type ℓ) (m : HashMap K (List V))
      → ((k : K) (l : List V) → P l → P (change k l).0)
      → IsTidy P m
      → IsTidy P (sweep change m).0
  sweep-IsTidy P m h t = rw (sweep-kept m t.0) (kept-Distinct m t.0, kept-AllValues P m h t.1)

module _ {ℓ} {K V R : Type ℓ} ⦃e : PartialEq K⦄ ⦃r : PartialEq R⦄
    (change : K → List V → List V × List R) where
  -- A report stands in the sweep's reports exactly when the change of its own key made it.
  pub contains-sweep :
      (key : R → K) (x : R) (m : HashMap K (List V))
      → (change (key x) []).1 ≡ []
      → ((k : K) (l : List V) → contains x (change k l).1 ≡ true → key x ≡ k)
      → Distinct m
      → contains x (sweep change m).1 ≡ contains x (change (key x) (or_default (key x) m)).1
  unfolding sweep visit or_default contains
  contains-sweep key x [] h own d = ground arith
  contains-sweep key x ((k, l) ∷ m) h own d = ground (
    arith,
    contains-sweep key x m h own d.1,
    contains-append x (change k l).1 (visit change m).1,
    own k l,
    ==_iff k (key x),
  )

  -- What holds of every change that reports `x` holds if the sweep reports it.
  pub sweep_reports {κ} :
      {Q : Type κ} (x : R) (m : HashMap K (List V))
      → ((k : K) (l : List V) → contains x (change k l).1 ≡ true → Q)
      → contains x (sweep change m).1 ≡ true
      → Q
  unfolding sweep visit contains
  sweep_reports x [] own h = absurd (cc)
  sweep_reports x ((k, l) ∷ m) own h = elim (Bool-cases (contains x (change k l).1)) [
    | inl here ↦ own k l here
    | inr elsewhere ↦
        sweep_reports x m own (ground (arith, contains-append x (change k l).1 (visit change m).1))
  ]
