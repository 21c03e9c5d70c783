-- ===== src/Http.antt =====
-- http_server.rs: the order of destinations and next hops, and the data of the three pages. `Display`
-- and `Ord` of addresses are the standard library's, by octets; how an address is written is the
-- parameter `ShowAddr`. The date, the version and the page's template are left out.
pub mod Collections
pub mod Ords
pub mod Pages
pub mod Ascending
pub mod Numbers
pub mod Serialize
pub mod Handlers
use metalbond_rs.Http.Collections.{BTreeMap, btree_insert, sort_by}
use metalbond_rs.HashMap.{HashMap}
use metalbond_rs.Types.{Vni, IpAddr, Ipnet, Destination, NextHop}
use metalbond_rs.RouteTable.{RouteTable, get_vnis, get_destinations_by_vni}
use metalbond_rs.Wire.{Prost}
use metalbond_rs.Command.Readers.{codes}
use metalbond_rs.Common.{
  ℕ, ◌+◌, ◌/◌, ◌%◌, zero, suc, List, [], ◌∷◌, ◌++◌, Ordering, compare, lt, gt, then_with, list_cmp,
  is_empty, nat_beq, ltb, not, if◌then◌else◌,
}

-- How the standard library writes an address.
pub record ShowAddr : Type 0 where
  pub show : IpAddr → List ℕ

-- `Ord` of `IpAddr`: the versions in their order, then the octets.
abbrev pub addr_cmp : IpAddr → IpAddr → Ordering
addr_cmp (IpAddr.v4 a) (IpAddr.v4 b) = list_cmp compare a b
addr_cmp (IpAddr.v4 a) (IpAddr.v6 b) = lt
addr_cmp (IpAddr.v6 a) (IpAddr.v4 b) = gt
addr_cmp (IpAddr.v6 a) (IpAddr.v6 b) = list_cmp compare a b

-- `Ord::cmp` of `Destination`
unfoldable pub destination_cmp :
    {Net : Type 0} ⦃i : Ipnet Net⦄ → Destination Net → Destination Net → Ordering
destination_cmp ⦃i⦄ self other =
    then_with (addr_cmp (i.addr self.prefix) (i.addr other.prefix))
      (compare (i.prefix_len self.prefix) (i.prefix_len other.prefix))

-- `Ord::cmp` of `NextHop`; the generated enumeration is ordered by its numbers.
unfoldable pub next_hop_cmp : ⦃prost : Prost⦄ → NextHop → NextHop → Ordering
next_hop_cmp ⦃prost⦄ self other =
    then_with
      (then_with
        (then_with
          (then_with (addr_cmp self.target_address other.target_address)
            (compare self.target_vni other.target_vni))
          (compare (prost.hop_type_number self.hop_type) (prost.hop_type_number other.hop_type)))
        (compare self.nat_port_range_from other.nat_port_range_from))
      (compare self.nat_port_range_to other.nat_port_range_to)

-- `Display` of a `u32`: at most ten digits.
unfoldable pub digits : ℕ → ℕ → List ℕ → List ℕ
digits zero n text = text
digits (suc fuel) n text =
    let longer = (b'0' + n % 10) ∷ text in if ltb n 10 then longer else digits fuel (n / 10) longer

unfoldable pub show_u32 : ℕ → List ℕ
unfolding digits
show_u32 n = digits 10 n []

-- `Display` of `NextHop`
unfoldable pub show_next_hop : ⦃text : ShowAddr⦄ → NextHop → List ℕ
unfolding show_u32
show_next_hop ⦃text⦄ nh =
    if not (nat_beq nh.target_vni 0)
    then text.show nh.target_address ++ codes " (VNI: " ++ show_u32 nh.target_vni ++ codes ")"
    else text.show nh.target_address

-- `hops.sort_by(|a, b| a.to_string().cmp(&b.to_string()))`
unfoldable pub sort_hops : ⦃text : ShowAddr⦄ → List NextHop → List NextHop
unfolding show_next_hop sort_by
sort_hops hops = sort_by (λ a b. list_cmp compare (show_next_hop a) (show_next_hop b)) hops

module _ {Net : Type 0} ⦃i : Ipnet Net⦄ ⦃text : ShowAddr⦄ where
  -- The inner loop of `get_route_data`.
  unfoldable pub sorted_dest_map :
      HashMap (Destination Net) (List NextHop)
      → BTreeMap (Destination Net) (List NextHop)
      → BTreeMap (Destination Net) (List NextHop)
  unfolding sort_hops destination_cmp btree_insert
  sorted_dest_map [] sorted = sorted
  sorted_dest_map ((dest, hops) ∷ dest_map) sorted =
      sorted_dest_map dest_map (btree_insert destination_cmp dest (sort_hops hops) sorted)

  -- The outer loop, over a table that does not change meanwhile.
  unfoldable pub vnet_map :
      RouteTable Net
      → List Vni
      → BTreeMap Vni (BTreeMap (Destination Net) (List NextHop))
      → BTreeMap Vni (BTreeMap (Destination Net) (List NextHop))
  unfolding sorted_dest_map btree_insert get_destinations_by_vni
  vnet_map t [] vnet = vnet
  vnet_map t (vni ∷ vnis) vnet =
      let dests = sorted_dest_map (get_destinations_by_vni t vni) [] in
      vnet_map t vnis (if is_empty dests then vnet else btree_insert compare vni dests vnet)

  -- The routes of `get_route_data`.
  unfoldable pub get_route_data :
      RouteTable Net → BTreeMap Vni (BTreeMap (Destination Net) (List NextHop))
  unfolding vnet_map get_vnis
  get_route_data t = vnet_map t (get_vnis t) []
