-- ===== src/Http/Pages.antt =====
-- `get_route_data` of http_server.rs lists the routes of the table.
use metalbond_rs.Http.Collections.{
  BTreeMap, btree_insert, or_default-btree_insert, contains-sort_by,
}
use metalbond_rs.Http.{
  ShowAddr, destination_cmp, sort_hops, sorted_dest_map, vnet_map, get_route_data,
}
use metalbond_rs.HashMap.{HashMap, get, contains, contains_key, keys, or_default}
use metalbond_rs.HashMap.Tidy.{Distinct, AllValues}
use metalbond_rs.HashMap.Collect.{collect, collect-Distinct, or_default-copy}
use metalbond_rs.RouteTable.{RouteTable, NextHops, get_destinations_by_vni}
use metalbond_rs.RouteTable.Routes.{announcers}
use metalbond_rs.RouteTable.Tidy.{
  IsTidyTable, AreTidyDestinations, AreTidyHops, or_default-AreTidyHops,
  or_default-AreTidyDestinations,
}
use metalbond_rs.RouteTable.Views.{contains-keys}
use metalbond_rs.Types.{Vni, Ipnet, Destination, NextHop, next_hop_eq, destination_eq}
use metalbond_rs.Common.{
  Bool, true, false, not, ◌==◌, ==_iff, ==_self, nat_beq, PartialEq, none, some, List, [], ◌∷◌,
  is_empty, if◌then◌else◌, compare, IsOrder, compare-IsOrder, nat_eq, ◌≡◌, refl, sym, ap, subst,
  ◌∙◌, ◌⊎◌, inl, inr, arith, Option, Option-cases, Bool-cases,
}

-- In a map without empty collections, a key is there when its collection is not empty.
contains_key-is_empty {ℓ} :
    {K V : Type ℓ} ⦃e : PartialEq K⦄ (P : List V → Type ℓ) (k : K) (m : HashMap K (List V))
    → AllValues P m
    → contains_key k m ≡ not (is_empty (or_default k m))
unfolding get or_default
contains_key-is_empty P k [] a = refl
contains_key-is_empty P k ((j, l) ∷ m) a = ground (arith, contains_key-is_empty P k m a.2, a.0)

if_same {ℓ} : {A : Type ℓ} (b : Bool) (a : A) → (if b then a else a) ≡ a
if_same true a = refl
if_same false a = refl

is_empty_nil {ℓ} : {A : Type ℓ} (xs : List A) → is_empty xs ≡ true → xs ≡ []
is_empty_nil [] h = refl
is_empty_nil (x ∷ xs) h = absurd (cc)

module _ {Net : Type 0} ⦃i : Ipnet Net⦄ ⦃text : ShowAddr⦄
    (order : IsOrder (destination_cmp {Net = Net})) where
  sorted_dest_map_absent :
      (dest : Destination Net) (m : HashMap (Destination Net) (List NextHop))
      (sorted : BTreeMap (Destination Net) (List NextHop))
      → get dest m ≡ none
      → or_default dest (sorted_dest_map m sorted) ≡ or_default dest sorted
  unfolding sorted_dest_map get
  sorted_dest_map_absent dest [] sorted h = refl
  sorted_dest_map_absent dest ((d, hops) ∷ m) sorted h = ground (
    arith,
    sorted_dest_map_absent dest m (btree_insert destination_cmp d (sort_hops hops) sorted),
    or_default-btree_insert order dest d (sort_hops hops) sorted,
  )

  or_default-sorted_dest_map :
      (dest : Destination Net) (m : HashMap (Destination Net) (List NextHop))
      (sorted : BTreeMap (Destination Net) (List NextHop))
      → Distinct m
      → or_default dest sorted ≡ []
      → or_default dest (sorted_dest_map m sorted) ≡ sort_hops (or_default dest m)
  unfolding sorted_dest_map get sort_hops or_default
  or_default-sorted_dest_map dest [] sorted d z = z
  or_default-sorted_dest_map dest ((k, hops) ∷ m) sorted d z =
      let inserted = btree_insert destination_cmp k (sort_hops hops) sorted in
      let read = or_default-btree_insert order dest k (sort_hops hops) sorted in
      elim (Bool-cases (k == dest)) [
        | inl same ↦
            let key : k ≡ dest = (==_iff k dest).0 same in
            rw (same, or_default)
              (sorted_dest_map_absent dest m inserted (subst (λ x. get x m ≡ none) key d.0)
                ∙ read
                ∙ rw (same) refl)
        | inr other ↦
            rw (other, or_default)
              (or_default-sorted_dest_map dest m inserted d.1 (read ∙ rw (other) z))
      ]

  abbrev dests_of : RouteTable Net → Vni → BTreeMap (Destination Net) (List NextHop)
  dests_of t vni = sorted_dest_map (get_destinations_by_vni t vni) []

  -- What one round of the outer loop leaves.
  abbrev after_round :
      RouteTable Net
      → Vni
      → BTreeMap Vni (BTreeMap (Destination Net) (List NextHop))
      → BTreeMap Vni (BTreeMap (Destination Net) (List NextHop))
  after_round t v vnet =
      if is_empty (dests_of t v) then vnet else btree_insert compare v (dests_of t v) vnet

  or_default-after_round :
      (t : RouteTable Net) (vni v : Vni)
      (vnet : BTreeMap Vni (BTreeMap (Destination Net) (List NextHop)))
      → (or_default vni vnet ≡ []) ⊎ (or_default vni vnet ≡ dests_of t vni)
      → or_default vni (after_round t v vnet)
        ≡ (if nat_beq v vni then dests_of t vni else or_default vni vnet)
  or_default-after_round t vni v vnet h = elim (Bool-cases (nat_beq v vni)) [
    | inl same ↦
        let key : v ≡ vni = (==_iff v vni).0 same in
        rw (same, key) (at_key (is_empty (dests_of t vni)) refl)
    | inr other ↦ rw (other) (elsewhere (is_empty (dests_of t v)) other)
  ]
    where
      at_key :
          (b : Bool)
          → is_empty (dests_of t vni) ≡ b
          → or_default vni (if b then vnet else btree_insert compare vni (dests_of t vni) vnet)
            ≡ dests_of t vni
      at_key true e0 = elim h [ inl e ↦ e ∙ sym (is_empty_nil (dests_of t vni) e0) | inr e ↦ e ]
      at_key false e0 =
          or_default-btree_insert compare-IsOrder vni vni (dests_of t vni) vnet
          ∙ rw (==_self vni) refl

      elsewhere :
          (b : Bool)
          → nat_beq v vni ≡ false
          → or_default vni (if b then vnet else btree_insert compare v (dests_of t v) vnet)
            ≡ or_default vni vnet
      elsewhere true other = refl
      elsewhere false other =
          or_default-btree_insert compare-IsOrder vni v (dests_of t v) vnet ∙ rw (other) refl

  -- The outer loop leaves, for each VNI that it passes, what the inner one gives.
  or_default-vnet_map :
      (t : RouteTable Net) (vni : Vni) (vnis : List Vni)
      (vnet : BTreeMap Vni (BTreeMap (Destination Net) (List NextHop)))
      → (or_default vni vnet ≡ []) ⊎ (or_default vni vnet ≡ dests_of t vni)
      → or_default vni (vnet_map t vnis vnet)
        ≡ (if contains vni vnis then dests_of t vni else or_default vni vnet)
  unfolding vnet_map contains
  or_default-vnet_map t vni [] vnet h = refl
  or_default-vnet_map t vni (v ∷ vnis) vnet h =
      let read = or_default-after_round t vni v vnet h in
      elim (Bool-cases (nat_beq v vni)) [
        | inl same ↦
            let here : or_default vni (after_round t v vnet) ≡ dests_of t vni =
              read ∙ rw (same) refl in
            rw (same) (
              or_default-vnet_map t vni vnis (after_round t v vnet) (inr here)
              ∙ rw (here) (if_same (contains vni vnis) (dests_of t vni)))
        | inr other ↦
            let there : or_default vni (after_round t v vnet) ≡ or_default vni vnet =
              read ∙ rw (other) refl in
            rw (other) (
              or_default-vnet_map t vni vnis (after_round t v vnet)
                (elim h [ inl e ↦ inl (there ∙ e) | inr e ↦ inr (there ∙ e) ])
              ∙ rw (there) refl)
      ]

  by_keys :
      (t : RouteTable Net) (vni : Vni)
      → get_destinations_by_vni t vni ≡ collect (λ dest nh_map. keys nh_map) (or_default vni t) []
  unfolding get_destinations_by_vni or_default
  by_keys t vni = elim (Option-cases (get vni t)) [
    | inl e ↦ rw (e, get_destinations_by_vni) (rw (e, or_default))
    | inr (m, e) ↦ rw (e, get_destinations_by_vni) (rw (e, or_default))
  ]

  absent_dests : (t : RouteTable Net) (vni : Vni) → get vni t ≡ none → dests_of t vni ≡ []
  unfolding get_destinations_by_vni sorted_dest_map
  absent_dests t vni e = rw (e, get_destinations_by_vni) refl

  -- The data of a VNI is what the inner loop gives.
  or_default-get_route_data :
      (t : RouteTable Net) (vni : Vni) → or_default vni (get_route_data t) ≡ dests_of t vni
  unfolding get_route_data or_default
  or_default-get_route_data t vni =
      let has_key : Option (HashMap (Destination Net) NextHops) → Bool =
        λ o. elim o [ none ↦ false | some m ↦ true ] in
      or_default-vnet_map t vni (keys t) [] (inl refl) ∙ elim (Option-cases (get vni t)) [
        | inl e ↦ rw (contains-keys vni t ∙ ap has_key e) (sym (absent_dests t vni e))
        | inr (m, e) ↦ rw (contains-keys vni t ∙ ap has_key e) refl
      ]

  -- The destinations of a VNI, with their next hops.
  dests_read :
      (t : RouteTable Net) (vni : Vni) (dest : Destination Net)
      → IsTidyTable t
      → or_default dest (dests_of t vni) ≡ sort_hops (keys (or_default dest (or_default vni t)))
  unfolding or_default
  dests_read t vni dest h =
      let dests : AreTidyDestinations (or_default vni t) = or_default-AreTidyDestinations t vni h in
      rw (by_keys t vni) (
        or_default-sorted_dest_map dest (collect (λ dest nh_map. keys nh_map) (or_default vni t) [])
          [] (collect-Distinct (λ dest nh_map. keys nh_map) (or_default vni t) [] tt) refl
        ∙ ap sort_hops
            (or_default-copy (λ dest nh_map. keys nh_map) dest (or_default vni t) refl dests.0))

  -- If `Ord` of destinations is a total order, the data of the pages lists, for each VNI and
  -- destination, exactly the next hops that some peer or this instance announces in a tidy table.
  pub contains-get_route_data :
      (t : RouteTable Net) (vni : Vni) (dest : Destination Net) (nh : NextHop)
      → IsTidyTable t
      → contains nh (or_default dest (or_default vni (get_route_data t)))
        ≡ not (is_empty (announcers t vni dest nh))
  unfolding announcers sort_hops
  contains-get_route_data t vni dest nh h =
      let hops : AreTidyHops (or_default dest (or_default vni t)) =
        or_default-AreTidyHops _ dest (or_default-AreTidyDestinations t vni h) in
      ap (λ m. contains nh (or_default dest m)) (or_default-get_route_data t vni)
      ∙ ap (contains nh) (dests_read t vni dest h)
      ∙ contains-sort_by _ nh _
      ∙ contains-keys nh _
      ∙ contains_key-is_empty _ nh _ hops.1
