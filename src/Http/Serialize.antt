-- ===== src/Http/Serialize.antt =====
-- `serialize_vnet_map` of http_server.rs: the two maps that the serializer of serde is given, as their
-- entries in the order of the calls of `serialize_entry`. How ipnet writes a prefix is the parameter
-- `ShowNet`; the errors of the serializer are left out.
use metalbond_rs.Http.Collections.{BTreeMap, btree_insert}
use metalbond_rs.Http.{ShowAddr, show_u32, vnet_map, get_route_data, destination_cmp}
use metalbond_rs.Http.Pages.{contains-get_route_data}
use metalbond_rs.Http.Numbers.{show_u32-IsInjective}
use metalbond_rs.Command.Readers.{Text}
use metalbond_rs.Command.{u32_max}
use metalbond_rs.HashMap.{keys, get, contains, or_default}
use metalbond_rs.RouteTable.{RouteTable, get_vnis}
use metalbond_rs.RouteTable.Routes.{announcers}
use metalbond_rs.RouteTable.Tidy.{IsTidyTable}
use metalbond_rs.Types.{Vni, Ipnet, Destination, NextHop, destination_eq, next_hop_eq}
use metalbond_rs.Common.{
  ◌≤◌, Bool, true, false, ==_iff, PartialEq, of_discrete, ℕ_discrete, List, [], ◌∷◌, if◌then◌else◌,
  nat_eq, ◌≡◌, refl, ap, ◌∙◌, arith, Ordering, Ordering-cases, compare, IsOrder, not, is_empty, inl,
  inr, All,
}

-- How ipnet writes a prefix.
pub record ShowNet (Net : Type 0) : Type 0 where
  pub show : Net → Text

unfoldable pub text_discrete : Discrete Text
text_discrete = hlevel ℕ_discrete

instance abbrev pub text_eq : PartialEq Text
text_eq = of_discrete text_discrete

-- `Display` of `Destination`
unfoldable pub show_destination : {Net : Type 0} ⦃t : ShowNet Net⦄ → Destination Net → Text
show_destination ⦃t⦄ dest = t.show dest.prefix

-- `serialize_entry(&k.to_string(), …)` for each entry of a map.
abbrev entries : {K V W : Type 0} → (K → Text) → (V → W) → BTreeMap K V → List (Text × W)
entries to_string f [] = []
entries to_string f ((k, v) ∷ m) = (to_string k, f v) ∷ entries to_string f m

module _ {Net : Type 0} ⦃t : ShowNet Net⦄ where
  -- `SerializeDestMap`
  unfoldable pub serialize_dest_map :
      BTreeMap (Destination Net) (List NextHop) → List (Text × List NextHop)
  unfolding show_destination
  serialize_dest_map m = entries show_destination (λ hops. hops) m

  unfoldable pub serialize :
      BTreeMap Vni (BTreeMap (Destination Net) (List NextHop))
      → List (Text × List (Text × List NextHop))
  unfolding show_u32 serialize_dest_map
  serialize m = entries show_u32 serialize_dest_map m

-- Every key of a map has the property.
abbrev pub AllKeys : {K V : Type 0} → (K → Type 0) → BTreeMap K V → Type 0
AllKeys P [] = Unit
AllKeys P ((k, v) ∷ m) = P k × AllKeys P m

module _ {K V W : Type 0} ⦃e : PartialEq K⦄ (to_string : K → Text) (f : List V → List W) where
  -- What stands under the text of a key, if no other key has this text.
  or_default-entries :
      (k : K) (m : BTreeMap K (List V))
      → AllKeys (λ j. to_string j ≡ to_string k → j ≡ k) m
      → f [] ≡ []
      → or_default (to_string k) (entries to_string f m) ≡ f (or_default k m)
  unfolding or_default get
  or_default-entries k [] h z = ground (arith, z)
  or_default-entries k ((j, v) ∷ m) h z =
      let alike : j ≡ k → to_string j ≡ to_string k = λ e. ap to_string e in
      ground (
        arith,
        or_default-entries k m h.1 z,
        ==_iff j k,
        ==_iff (to_string j) (to_string k),
        h.0,
        alike,
      )

AllKeys-map :
    {K V : Type 0} (P Q : K → Type 0)
    → ((k : K) → P k → Q k)
    → (m : BTreeMap K V) → AllKeys P m
    → AllKeys Q m
AllKeys-map P Q f [] h = tt
AllKeys-map P Q f ((k, v) ∷ m) h = (f k h.0, AllKeys-map P Q f m h.1)

btree_insert-AllKeys :
    {K V : Type 0} (P : K → Type 0) (cmp : K → K → Ordering) (k : K) (v : V) (m : BTreeMap K V)
    → P k
    → AllKeys P m
    → AllKeys P (btree_insert cmp k v m)
unfolding btree_insert
btree_insert-AllKeys P cmp k v [] p h = (p, tt)
btree_insert-AllKeys P cmp k v ((j, w) ∷ m) p h = elim (Ordering-cases (cmp k j)) [
  | inl less ↦ rw (less, btree_insert) (p, h)
  | inr (inl same) ↦ rw (same, btree_insert) (p, h.1)
  | inr (inr more) ↦ rw (more, btree_insert) (h.0, btree_insert-AllKeys P cmp k v m p h.1)
]

AllKeys-all : {K V : Type 0} (P : K → Type 0) → ((k : K) → P k) → (m : BTreeMap K V) → AllKeys P m
AllKeys-all P f [] = tt
AllKeys-all P f ((k, v) ∷ m) = (f k, AllKeys-all P f m)

if_both : {A : Type 0} (P : A → Type 0) (b : Bool) (x y : A) → P x → P y → P (if b then x else y)
if_both P true x y p q = p
if_both P false x y p q = q

same_destination : {Net : Type 0} (x y : Destination Net) → x.prefix ≡ y.prefix → x ≡ y
same_destination x y e = ap (λ p. record { prefix = p }) e

module _ {Net : Type 0} ⦃i : Ipnet Net⦄ ⦃text : ShowAddr⦄ where
  vnet_map-AllKeys :
      (P : Vni → Type 0) (t : RouteTable Net) (vnis : List Vni)
      (vnet : BTreeMap Vni (BTreeMap (Destination Net) (List NextHop)))
      → All P vnis
      → AllKeys P vnet
      → AllKeys P (vnet_map t vnis vnet)
  unfolding vnet_map
  vnet_map-AllKeys P t [] vnet h k = k
  vnet_map-AllKeys P t (v ∷ vnis) vnet h k =
      vnet_map-AllKeys P t vnis _ h.1
        (if_both (AllKeys P) _ vnet _ k (btree_insert-AllKeys P compare v _ vnet h.0 k))

  module _ ⦃net : ShowNet Net⦄ (determined : (p q : Net) → net.show p ≡ net.show q → p ≡ q) where
    -- What stands under a VNI and a destination in the serialized map.
    or_default-serialize :
        (m : BTreeMap Vni (BTreeMap (Destination Net) (List NextHop))) (vni : Vni)
        (dest : Destination Net)
        → vni ≤ u32_max
        → AllKeys (λ v. v ≤ u32_max) m
        → or_default (show_destination dest) (or_default (show_u32 vni) (serialize m))
          ≡ or_default dest (or_default vni m)
    unfolding serialize serialize_dest_map show_destination
    or_default-serialize m vni dest small h =
        ap (or_default (show_destination dest)) (
          or_default-entries show_u32 serialize_dest_map vni m
            (AllKeys-map _ _ (λ v bound e. show_u32-IsInjective v vni bound small e) m h) refl)
        ∙ or_default-entries show_destination (λ hops. hops) dest (or_default vni m)
            (AllKeys-all _ (λ d e. same_destination d dest (determined d.prefix dest.prefix e)) _)
            refl

    -- If `Ord` of destinations is a total order, ipnet writes different prefixes differently and the
    -- VNIs are of type u32, the map that the page of JSON or YAML consists of has, under the texts of a
    -- VNI and a destination, exactly the next hops that somebody announces in a tidy table.
    pub contains-serialize :
        IsOrder (destination_cmp {Net = Net})
        → (t : RouteTable Net) (vni : Vni) (dest : Destination Net) (nh : NextHop) → IsTidyTable t
        → All (λ v. v ≤ u32_max) (keys t)
        → vni ≤ u32_max
        → contains nh (
            or_default
              (show_destination dest)
              (or_default (show_u32 vni) (serialize (get_route_data t))))
          ≡ not (is_empty (announcers t vni dest nh))
    unfolding get_route_data get_vnis
    contains-serialize order t vni dest nh tidy small bound =
        ap (contains nh) (
          or_default-serialize (get_route_data t) vni dest bound
            (vnet_map-AllKeys (λ v. v ≤ u32_max) t (keys t) [] small tt))
        ∙ contains-get_route_data order t vni dest nh tidy
