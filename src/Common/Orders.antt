-- ===== src/Common/Orders.antt =====
-- `std::cmp::Ordering`, and the laws of `Ord` for numbers, pairs, lists and what maps into them.
use Prim.Native.Nat.{compare, Ordering, lt, eq, gt}
use mathlib.Core.Path.{◌≡◌, refl, sym, ap, subst, ◌∙◌}
use mathlib.Core.Logic.{◌↔◌, ◌⊎◌, inl, inr}
use mathlib.Core.List.{List, [], ◌∷◌}
use native.Mathlib.Omega.{arith}

abbrev pub reverse : Ordering → Ordering
reverse lt = gt
reverse eq = eq
reverse gt = lt

-- `Ordering::then_with`
abbrev pub then_with : Ordering → Ordering → Ordering
then_with lt o = lt
then_with eq o = o
then_with gt o = gt

-- The laws of a total order that agrees with equality.
pub record IsOrder {ℓ} {A : Type ℓ} (cmp : A → A → Ordering) : Type ℓ where
  pub eq_iff : (a b : A) → (cmp a b ≡ eq) ↔ (a ≡ b)
  pub flip : (a b : A) → cmp b a ≡ reverse (cmp a b)
  pub trans : (a b c : A) → cmp a b ≡ lt → cmp b c ≡ lt → cmp a c ≡ lt

pub Ordering-cases : (o : Ordering) → (o ≡ lt) ⊎ ((o ≡ eq) ⊎ (o ≡ gt))
Ordering-cases lt = inl refl
Ordering-cases eq = inr (inl refl)
Ordering-cases gt = inr (inr refl)

then_eq : (o p : Ordering) → then_with o p ≡ eq → (o ≡ eq) × (p ≡ eq)
then_eq lt p e = absurd (cc)
then_eq eq p e = (refl, e)
then_eq gt p e = absurd (cc)

then_lt : (o p : Ordering) → then_with o p ≡ lt → (o ≡ lt) ⊎ ((o ≡ eq) × (p ≡ lt))
then_lt lt p e = inl refl
then_lt eq p e = inr (refl, e)
then_lt gt p e = absurd (cc)

then_reverse : (o p : Ordering) → then_with (reverse o) (reverse p) ≡ reverse (then_with o p)
then_reverse lt p = refl
then_reverse eq p = refl
then_reverse gt p = refl

pub compare-IsOrder : IsOrder compare
compare-IsOrder = record {
  eq_iff = λ a b. ground arith;
  flip = λ a b. ground arith;
  trans = λ a b c h i. ground (arith, h, i);
}

then_first : (o r : Ordering) → o ≡ lt → then_with o r ≡ lt
then_first o r h = rw (h) refl

then_second : (o r : Ordering) → o ≡ eq → r ≡ lt → then_with o r ≡ lt
then_second o r h i = rw (h, i) refl

module _ {ℓ} {A : Type ℓ} {cmp : A → A → Ordering} (h : IsOrder cmp) where
  -- The transitivity of `then_with`, from that of what stands behind.
  then_trans :
      (a b c : A) (p q r : Ordering)
      → (p ≡ lt → q ≡ lt → r ≡ lt)
      → then_with (cmp a b) p ≡ lt
      → then_with (cmp b c) q ≡ lt
      → then_with (cmp a c) r ≡ lt
  then_trans a b c p q r t e f = elim (then_lt (cmp a b) p e) [
    | inl ab ↦ elim (then_lt (cmp b c) q f) [
      | inl bc ↦ then_first (cmp a c) r (h.trans a b c ab bc)
      | inr (bc, q_lt) ↦ then_first (cmp a c) r (subst (λ x. cmp a x ≡ lt) ((h.eq_iff b c).0 bc) ab)
    ]
    | inr (ab, p_lt) ↦ elim (then_lt (cmp b c) q f) [
      | inl bc ↦ then_first (cmp a c) r (subst (λ x. cmp x c ≡ lt) (sym ((h.eq_iff a b).0 ab)) bc)
      | inr (bc, q_lt) ↦
          then_second (cmp a c) r ((h.eq_iff a c).1 ((h.eq_iff a b).0 ab ∙ (h.eq_iff b c).0 bc))
            (t p_lt q_lt)
    ]
  ]

-- The order of pairs, by the first and then by the second part.
abbrev pub pair_cmp {ℓ κ} :
    {A : Type ℓ} {B : Type κ} → (A → A → Ordering) → (B → B → Ordering) → A × B → A × B → Ordering
pair_cmp cmp_a cmp_b (a, b) (a', b') = then_with (cmp_a a a') (cmp_b b b')

pub pair_cmp-IsOrder {ℓ κ} :
    {A : Type ℓ} {B : Type κ} (cmp_a : A → A → Ordering) (cmp_b : B → B → Ordering)
    → IsOrder cmp_a
    → IsOrder cmp_b
    → IsOrder (pair_cmp cmp_a cmp_b)
pair_cmp-IsOrder cmp_a cmp_b ha hb = record {
  eq_iff = λ x y. (
    λ e.
        let (p, q) = then_eq (cmp_a x.0 y.0) (cmp_b x.1 y.1) e in
        (ap (λ a. (a, x.1)) ((ha.eq_iff x.0 y.0).0 p)
          ∙ ap (λ b. (y.0, b)) ((hb.eq_iff x.1 y.1).0 q)),
    λ e. rw ((ha.eq_iff x.0 y.0).1 (ap (λ z. z.0) e)) ((hb.eq_iff x.1 y.1).1 (ap (λ z. z.1) e)),
  );
  flip =
      λ x y. rw (ha.flip x.0 y.0, hb.flip x.1 y.1) (then_reverse (cmp_a x.0 y.0) (cmp_b x.1 y.1));
  trans = λ x y z.
      then_trans ha x.0 y.0 z.0 (cmp_b x.1 y.1) (cmp_b y.1 z.1) (cmp_b x.1 z.1)
        (hb.trans x.1 y.1 z.1);
}

-- The lexicographic order of lists.
abbrev pub list_cmp {ℓ} : {A : Type ℓ} → (A → A → Ordering) → List A → List A → Ordering
list_cmp cmp [] [] = eq
list_cmp cmp [] (y ∷ ys) = lt
list_cmp cmp (x ∷ xs) [] = gt
list_cmp cmp (x ∷ xs) (y ∷ ys) = then_with (cmp x y) (list_cmp cmp xs ys)

module _ {ℓ} {A : Type ℓ} {cmp : A → A → Ordering} (h : IsOrder cmp) where
  list_eq : (xs ys : List A) → list_cmp cmp xs ys ≡ eq → xs ≡ ys
  list_eq [] [] e = refl
  list_eq [] (y ∷ ys) e = absurd (cc)
  list_eq (x ∷ xs) [] e = absurd (cc)
  list_eq (x ∷ xs) (y ∷ ys) e =
      let (p, q) = then_eq (cmp x y) (list_cmp cmp xs ys) e in
      cc ((h.eq_iff x y).0 p, list_eq xs ys q)

  list_self : (xs : List A) → list_cmp cmp xs xs ≡ eq
  list_self [] = refl
  list_self (x ∷ xs) = rw ((h.eq_iff x x).1 refl) (list_self xs)

  list_flip : (xs ys : List A) → list_cmp cmp ys xs ≡ reverse (list_cmp cmp xs ys)
  list_flip [] [] = refl
  list_flip [] (y ∷ ys) = refl
  list_flip (x ∷ xs) [] = refl
  list_flip (x ∷ xs) (y ∷ ys) =
      rw (h.flip x y, list_flip xs ys) (then_reverse (cmp x y) (list_cmp cmp xs ys))

  list_trans :
      (xs ys zs : List A)
      → list_cmp cmp xs ys ≡ lt
      → list_cmp cmp ys zs ≡ lt
      → list_cmp cmp xs zs ≡ lt
  list_trans [] [] zs e f = f
  list_trans [] (y ∷ ys) [] e f = absurd (cc)
  list_trans [] (y ∷ ys) (z ∷ zs) e f = refl
  list_trans (x ∷ xs) [] zs e f = absurd (cc)
  list_trans (x ∷ xs) (y ∷ ys) [] e f = absurd (cc)
  list_trans (x ∷ xs) (y ∷ ys) (z ∷ zs) e f =
      then_trans h x y z (list_cmp cmp xs ys) (list_cmp cmp ys zs) (list_cmp cmp xs zs)
        (list_trans xs ys zs) e f

  pub list_cmp-IsOrder : IsOrder (list_cmp cmp)
  list_cmp-IsOrder = record {
    eq_iff = λ xs ys. (list_eq xs ys, λ e. subst (λ zs. list_cmp cmp xs zs ≡ eq) e (list_self xs));
    flip = list_flip;
    trans = list_trans;
  }

-- An order of the keys is an order of what the keys tell apart.
pub key-IsOrder {ℓ κ} :
    {A : Type ℓ} {B : Type κ} (key : A → B) (cmp : B → B → Ordering)
    → ((x y : A) → key x ≡ key y → x ≡ y)
    → IsOrder cmp
    → IsOrder (λ x y. cmp (key x) (key y))
key-IsOrder key cmp apart h = record {
  eq_iff = λ x y. (
    λ e. apart x y ((h.eq_iff (key x) (key y)).0 e),
    λ e. (h.eq_iff (key x) (key y)).1 (ap key e),
  );
  flip = λ x y. h.flip (key x) (key y);
  trans = λ x y z. h.trans (key x) (key y) (key z);
}
