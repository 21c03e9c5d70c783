-- ===== src/Http/Ascending.antt =====
-- The maps of the pages of http_server.rs stand in ascending order.
use metalbond_rs.Http.Collections.{BTreeMap, btree_insert}
use metalbond_rs.Http.{
  ShowAddr, destination_cmp, sort_hops, sorted_dest_map, vnet_map, get_route_data,
}
use metalbond_rs.HashMap.{HashMap}
use metalbond_rs.RouteTable.{RouteTable, get_vnis, get_destinations_by_vni}
use metalbond_rs.Types.{Vni, Ipnet, Destination, NextHop}
use metalbond_rs.Common.{
  List, [], ◌∷◌, is_empty, Ordering, compare, lt, IsOrder, compare-IsOrder, Ordering-cases, reverse,
  Bool-cases, ◌≡◌, sym, ap, subst, ◌∙◌, inl, inr,
}

module _ {ℓ} {K V : Type ℓ} (cmp : K → K → Ordering) where
  -- A key below every key of a map.
  abbrev pub IsBelow : K → BTreeMap K V → Type 0
  IsBelow k [] = Unit
  IsBelow k ((j, w) ∷ m) = (cmp k j ≡ lt) × IsBelow k m

  -- The keys of a map ascend.
  abbrev pub IsAscending : BTreeMap K V → Type 0
  IsAscending [] = Unit
  IsAscending ((k, v) ∷ m) = IsBelow k m × IsAscending m

module _ {ℓ} {K V : Type ℓ} {cmp : K → K → Ordering} (h : IsOrder cmp) where
  IsBelow-trans : (k j : K) (m : BTreeMap K V) → cmp k j ≡ lt → IsBelow cmp j m → IsBelow cmp k m
  IsBelow-trans k j [] e b = tt
  IsBelow-trans k j ((i, w) ∷ m) e b = (h.trans k j i e b.0, IsBelow-trans k j m e b.1)

  btree_insert-IsBelow :
      (j k : K) (v : V) (m : BTreeMap K V)
      → cmp j k ≡ lt
      → IsBelow cmp j m
      → IsBelow cmp j (btree_insert cmp k v m)
  unfolding btree_insert
  btree_insert-IsBelow j k v [] e b = (e, tt)
  btree_insert-IsBelow j k v ((i, w) ∷ m) e b = elim (Ordering-cases (cmp k i)) [
    | inl less ↦ rw (less, IsBelow, btree_insert) (e, b)
    | inr (inl same) ↦ rw (same, IsBelow, btree_insert) (e, b.1)
    | inr (inr more) ↦ rw (more, IsBelow, btree_insert) (b.0, btree_insert-IsBelow j k v m e b.1)
  ]

  pub btree_insert-IsAscending :
      (k : K) (v : V) (m : BTreeMap K V)
      → IsAscending cmp m
      → IsAscending cmp (btree_insert cmp k v m)
  unfolding btree_insert
  btree_insert-IsAscending k v [] a = (tt, tt)
  btree_insert-IsAscending k v ((j, w) ∷ m) a = elim (Ordering-cases (cmp k j)) [
    | inl less ↦ rw (less, IsAscending, btree_insert) ((less, IsBelow-trans k j m less a.0), a)
    | inr (inl same) ↦
        rw (same, IsAscending, btree_insert)
          (subst (λ x. IsBelow cmp x m) (sym ((h.eq_iff k j).0 same)) a.0, a.1)
    | inr (inr more) ↦
        rw (more, IsAscending, btree_insert)
          (
            btree_insert-IsBelow j k v m (h.flip k j ∙ ap reverse more) a.0,
            btree_insert-IsAscending k v m a.1,
          )
  ]

-- A property of the values of a map.
abbrev pub AllIn {ℓ} : {K V : Type ℓ} → (V → Type 0) → BTreeMap K V → Type 0
AllIn P [] = Unit
AllIn P ((k, v) ∷ m) = P v × AllIn P m

btree_insert-AllIn {ℓ} :
    {K V : Type ℓ} (cmp : K → K → Ordering) (P : V → Type 0) (k : K) (v : V) (m : BTreeMap K V)
    → P v
    → AllIn P m
    → AllIn P (btree_insert cmp k v m)
unfolding btree_insert
btree_insert-AllIn cmp P k v [] p a = (p, tt)
btree_insert-AllIn cmp P k v ((j, w) ∷ m) p a = elim (Ordering-cases (cmp k j)) [
  | inl less ↦ rw (less, AllIn, btree_insert) (p, a)
  | inr (inl same) ↦ rw (same, AllIn, btree_insert) (p, a.1)
  | inr (inr more) ↦ rw (more, AllIn, btree_insert) (a.0, btree_insert-AllIn cmp P k v m p a.1)
]

module _ {Net : Type 0} ⦃i : Ipnet Net⦄ where
  -- The VNIs ascend, and the destinations of each.
  abbrev pub IsOrdered : BTreeMap Vni (BTreeMap (Destination Net) (List NextHop)) → Type 0
  IsOrdered vnet = IsAscending compare vnet × AllIn (IsAscending (destination_cmp {Net = Net})) vnet

module _ {Net : Type 0} ⦃i : Ipnet Net⦄ ⦃text : ShowAddr⦄
    (order : IsOrder (destination_cmp {Net = Net})) where
  sorted_dest_map-IsAscending :
      (m : HashMap (Destination Net) (List NextHop))
      (sorted : BTreeMap (Destination Net) (List NextHop))
      → IsAscending destination_cmp sorted
      → IsAscending destination_cmp (sorted_dest_map m sorted)
  unfolding sorted_dest_map
  sorted_dest_map-IsAscending [] sorted a = a
  sorted_dest_map-IsAscending ((dest, hops) ∷ m) sorted a =
      sorted_dest_map-IsAscending m _
        (btree_insert-IsAscending order dest (sort_hops hops) sorted a)

  vnet_map-IsOrdered :
      (t : RouteTable Net) (vnis : List Vni)
      (vnet : BTreeMap Vni (BTreeMap (Destination Net) (List NextHop)))
      → IsOrdered vnet
      → IsOrdered (vnet_map t vnis vnet)
  unfolding vnet_map
  vnet_map-IsOrdered t [] vnet a = a
  vnet_map-IsOrdered t (vni ∷ vnis) vnet a =
      let dests = sorted_dest_map (get_destinations_by_vni t vni) [] in
      elim (Bool-cases (is_empty dests)) [
        | inl e0 ↦ rw (e0) (vnet_map-IsOrdered t vnis vnet a)
        | inr e1 ↦ rw (e1) (
            vnet_map-IsOrdered t vnis _ (
              btree_insert-IsAscending compare-IsOrder vni dests vnet a.0,
              btree_insert-AllIn compare (IsAscending destination_cmp) vni dests vnet
                  (sorted_dest_map-IsAscending (get_destinations_by_vni t vni) [] tt) a.1,
            ))
      ]

  -- If `Ord` of destinations is a total order, then in the data of the pages the VNIs stand in
  -- strictly ascending order and so do the destinations of each VNI, whatever order the table's maps
  -- have.
  pub get_route_data-IsOrdered : (t : RouteTable Net) → IsOrdered (get_route_data t)
  unfolding get_route_data
  get_route_data-IsOrdered t = vnet_map-IsOrdered t (get_vnis t) [] (tt, tt)
