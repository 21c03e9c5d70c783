-- ===== src/HashMap/Sets.antt =====
-- Membership after a change of a set.
use metalbond_rs.HashMap.{HashSet, contains, erase, set_insert}
use metalbond_rs.Common.{
  ◌==◌, ==_iff, PartialEq, true, false, not, ◌&&◌, ◌||◌, List, [], ◌∷◌, ◌++◌, ◌≡◌, refl, arith,
  is_empty, ◌+◌, length,
}

module _ {ℓ} {A : Type ℓ} ⦃e : PartialEq A⦄ where
  pub contains-append :
      (a : A) (xs ys : List A) → contains a (xs ++ ys) ≡ (contains a xs || contains a ys)
  unfolding contains
  contains-append a [] ys = refl
  contains-append a (x ∷ xs) ys = ground (arith, contains-append a xs ys)

  pub contains-set_insert :
      (b a : A) (xs : HashSet A) → contains b (set_insert a xs).0 ≡ (a == b || contains b xs)
  unfolding set_insert
  contains-set_insert b a xs = ground (arith, ==_iff a b)

  pub is_empty-set_insert : (a : A) (xs : HashSet A) → is_empty (set_insert a xs).0 ≡ false
  unfolding set_insert contains
  is_empty-set_insert a [] = refl
  is_empty-set_insert a (x ∷ xs) = ground arith

  pub contains-erase :
      (b a : A) (xs : HashSet A) → contains b (erase a xs) ≡ (not (a == b) && contains b xs)
  unfolding contains erase
  contains-erase b a [] = ground arith
  contains-erase b a (x ∷ xs) =
      ground (arith, contains-erase b a xs, ==_iff x a, ==_iff x b, ==_iff a b)

  -- No value stands in the list twice.
  abbrev pub IsNodup : HashSet A → Type 0
  IsNodup [] = Unit
  IsNodup (x ∷ xs) = (contains x xs ≡ false) × IsNodup xs

  pub set_insert-IsNodup : (a : A) (xs : HashSet A) → IsNodup xs → IsNodup (set_insert a xs).0
  unfolding set_insert
  set_insert-IsNodup a xs h = ground arith

  pub erase-IsNodup : (a : A) (xs : HashSet A) → IsNodup xs → IsNodup (erase a xs)
  unfolding erase
  erase-IsNodup a [] h = tt
  erase-IsNodup a (x ∷ xs) h = ground (arith, erase-IsNodup a xs h.1, contains-erase x a xs)

  erase-absent : (a : A) (xs : HashSet A) → contains a xs ≡ false → erase a xs ≡ xs
  unfolding contains erase
  erase-absent a [] h = refl
  erase-absent a (x ∷ xs) h = ground (arith, erase-absent a xs)

  -- A removal takes out exactly one value.
  pub length-erase :
      (a : A) (xs : HashSet A)
      → IsNodup xs
      → contains a xs ≡ true
      → length (erase a xs) + 1 ≡ length xs
  unfolding contains erase
  length-erase a (x ∷ xs) d h = ground (arith, length-erase a xs d.1, erase-absent a xs, ==_iff x a)
  length-erase a [] d h = absurd (cc)
