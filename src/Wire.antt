-- ===== src/Wire.antt =====
-- The messages of proto/metalbond.proto and their conversions from and to the types of types.rs: the
-- `TryFrom` and `From` impls of peer.rs and types.rs. What the build generates from the proto file
-- (prost's encoding and the numbering of the enums) is the parameter `Prost`. An i32 stands for its
-- bit pattern; a failed conversion is `none`.
pub mod RoundTrip
use metalbond_rs.Types.{
  Vni, IpAddr, IpVersion, Ipnet, Destination, NextHop, NextHopType, UpdateAction, ip_version,
  standard,
}
use metalbond_rs.Common.{
  ℕ, ◌%◌, ◌^◌, Bool, Option, none, some, List, [], ◌∷◌, length, nat_beq, if◌then◌else◌,
}

-- enum Action
pub data Action : Type 0 where
  add remove : Action

-- enum IPVersion
pub data PbIpVersion : Type 0 where
  ipv4 ipv6 : PbIpVersion

pub record Hello : Type 0 where
  pub keepalive_interval : ℕ
  pub is_server : Bool

pub record Subscription : Type 0 where
  pub vni : Vni

pub record PbDestination : Type 0 where
  pub ip_version : ℕ
  pub prefix : List ℕ
  pub prefix_length : ℕ

pub record PbNextHop : Type 0 where
  pub target_address : List ℕ
  pub target_vni : ℕ
  pub type : ℕ
  pub nat_port_range_from : ℕ
  pub nat_port_range_to : ℕ

pub record Update : Type 0 where
  pub action : ℕ
  pub vni : Vni
  pub destination : Option PbDestination
  pub next_hop : Option PbNextHop

-- The generated code: `encode_to_vec` and `decode` of the messages, and for each enum the number of
-- a value (`as i32`) and the value of a number (`try_from`).
pub record Prost : Type 0 where
  pub encode_hello : Hello → List ℕ
  pub decode_hello : List ℕ → Option Hello
  pub encode_subscription : Subscription → List ℕ
  pub decode_subscription : List ℕ → Option Subscription
  pub encode_update : Update → List ℕ
  pub decode_update : List ℕ → Option Update
  pub action_number : Action → ℕ
  pub action_of_number : ℕ → Option Action
  pub hop_type_number : NextHopType → ℕ
  pub hop_type_of_number : ℕ → Option NextHopType
  pub ip_version_number : PbIpVersion → ℕ

abbrev pub u8 : ℕ → ℕ
u8 n = n % 2 ^ 8

abbrev pub u16 : ℕ → ℕ
u16 n = n % 2 ^ 16

unfoldable pub version_of_pb : PbIpVersion → IpVersion
version_of_pb ipv4 = IpVersion.v4
version_of_pb ipv6 = IpVersion.v6

unfoldable pub pb_of_version : IpVersion → PbIpVersion
pb_of_version IpVersion.v4 = ipv4
pb_of_version IpVersion.v6 = ipv6

unfoldable pub action_of_pb : Action → UpdateAction
action_of_pb Action.add = UpdateAction.add
action_of_pb Action.remove = UpdateAction.remove

unfoldable pub pb_of_action : UpdateAction → Action
pb_of_action UpdateAction.add = Action.add
pb_of_action UpdateAction.remove = Action.remove

unfoldable pub addr_bytes_vec : IpAddr → List ℕ
addr_bytes_vec (IpAddr.v4 octets) = octets
addr_bytes_vec (IpAddr.v6 octets) = octets

unfoldable pub from_slice : List ℕ → Option IpAddr
from_slice slice =
    if nat_beq (length slice) 4
    then some (IpAddr.v4 slice)
    else if nat_beq (length slice) 16
    then some (IpAddr.v6 slice)
    else none

module _ {Net : Type 0} ⦃i : Ipnet Net⦄ where
  unfoldable pub destination_of_pb : PbDestination → Option (Destination Net)
  unfolding from_slice
  destination_of_pb pb_dest = elim (from_slice pb_dest.prefix) [
    | none ↦ none
    | some addr ↦ elim (i.new addr (u8 pb_dest.prefix_length)) [
      | none ↦ none
      | some prefix ↦ some (record { prefix = prefix })
    ]
  ]

  unfoldable pub pb_of_destination : ⦃p : Prost⦄ → Destination Net → PbDestination
  unfolding addr_bytes_vec ip_version pb_of_version
  pb_of_destination ⦃p⦄ dest = record {
    ip_version = p.ip_version_number (pb_of_version (ip_version dest));
    prefix = addr_bytes_vec (i.addr dest.prefix);
    prefix_length = i.prefix_len dest.prefix;
  }

-- `NextHopType::try_from(n).unwrap_or(Standard)`
hop_type_or_standard : Option NextHopType → NextHopType
hop_type_or_standard none = standard
hop_type_or_standard (some t) = t

module _ ⦃p : Prost⦄ where
  unfoldable pub next_hop_of_pb : PbNextHop → Option NextHop
  unfolding from_slice hop_type_or_standard
  next_hop_of_pb pb_nh = elim (from_slice pb_nh.target_address) [
    | none ↦ none
    | some address ↦ some (record {
      target_address = address;
      target_vni = pb_nh.target_vni;
      hop_type = hop_type_or_standard (p.hop_type_of_number pb_nh.type);
      nat_port_range_from = u16 pb_nh.nat_port_range_from;
      nat_port_range_to = u16 pb_nh.nat_port_range_to;
    })
  ]

  unfoldable pub pb_of_next_hop : NextHop → PbNextHop
  unfolding addr_bytes_vec
  pb_of_next_hop nh = record {
    target_address = addr_bytes_vec nh.target_address;
    target_vni = nh.target_vni;
    type = p.hop_type_number nh.hop_type;
    nat_port_range_from = nh.nat_port_range_from;
    nat_port_range_to = nh.nat_port_range_to;
  }
