-- ===== src/Wire/RoundTrip.antt =====
-- The conversions of peer.rs between the wire messages and the types of types.rs.
use metalbond_rs.Types.{IpAddr, Ipnet, Destination, NextHop, UpdateAction}
use metalbond_rs.Wire.{
  PbDestination, Prost, addr_bytes_vec, from_slice, action_of_pb, pb_of_action, destination_of_pb,
  pb_of_destination, next_hop_of_pb, pb_of_next_hop,
}
use metalbond_rs.Common.{ℕ, ◌+◌, ◌*◌, ◌^◌, ◌<◌, some, length, ◌≡◌, refl, arith}

-- The array types `[u8; 4]` and `[u8; 16]`.
abbrev pub HasWidth : IpAddr → Type 0
HasWidth (IpAddr.v4 octets) = length octets ≡ 4
HasWidth (IpAddr.v6 octets) = length octets ≡ 16

-- What ipnet documents of a prefix: `new` accepts the address and the length that it holds, and a
-- length is a u8.
pub record Rebuilds {Net : Type 0} ⦃i : Ipnet Net⦄ (net : Net) : Type 0 where
  pub width : HasWidth (i.addr net)
  pub short : i.prefix_len net < 2 ^ 8
  pub rebuilt : i.new (i.addr net) (i.prefix_len net) ≡ some net

pub from_slice-addr_bytes_vec : (a : IpAddr) → HasWidth a → from_slice (addr_bytes_vec a) ≡ some a
unfolding from_slice addr_bytes_vec
from_slice-addr_bytes_vec (IpAddr.v4 octets) h = ground arith
from_slice-addr_bytes_vec (IpAddr.v6 octets) h = ground arith

pub action_of_pb-pb_of_action : (a : UpdateAction) → action_of_pb (pb_of_action a) ≡ a
unfolding action_of_pb pb_of_action
action_of_pb-pb_of_action UpdateAction.add = refl
action_of_pb-pb_of_action UpdateAction.remove = refl

-- A destination whose prefix ipnet rebuilds from its address and length survives its conversion to
-- the wire message and back.
pub destination_of_pb-pb_of_destination :
    {Net : Type 0} ⦃i : Ipnet Net⦄ ⦃p : Prost⦄ (dest : Destination Net)
    → Rebuilds dest.prefix
    → destination_of_pb (pb_of_destination dest) ≡ some dest
unfolding destination_of_pb pb_of_destination
destination_of_pb-pb_of_destination ⦃i⦄ dest r =
    ground (arith, from_slice-addr_bytes_vec (i.addr dest.prefix) r.width)

-- The fields of a next hop that have a machine width lie within it.
pub record IsNextHop (nh : NextHop) : Type 0 where
  pub width : HasWidth nh.target_address
  pub from_port : nh.nat_port_range_from < 2 ^ 16
  pub to_port : nh.nat_port_range_to < 2 ^ 16

-- A next hop whose address and ports have their machine widths survives its conversion to the wire
-- message and back, if prost reads the number that it writes for the type of this next hop.
pub next_hop_of_pb-pb_of_next_hop :
    ⦃p : Prost⦄ (nh : NextHop)
    → IsNextHop nh
    → p.hop_type_of_number (p.hop_type_number nh.hop_type) ≡ some nh.hop_type
    → next_hop_of_pb (pb_of_next_hop nh) ≡ some nh
unfolding next_hop_of_pb pb_of_next_hop
next_hop_of_pb-pb_of_next_hop nh h n =
    ground (arith, from_slice-addr_bytes_vec nh.target_address h.width)

-- A prefix length is read modulo 2 ^ 8: a message with the length 256 + n is accepted wherever n is,
-- as the prefix of length n.
pub destination_of_pb_wraps :
    {Net : Type 0} ⦃i : Ipnet Net⦄ (d : PbDestination) (k : ℕ)
    → destination_of_pb ⦃i = i⦄ (record d { prefix_length = d.prefix_length + k * 2 ^ 8 })
      ≡ destination_of_pb d
unfolding destination_of_pb
destination_of_pb_wraps d k = ground arith
