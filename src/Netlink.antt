-- ===== src/Netlink.antt =====
-- netlink.rs: the client that installs routes in the operating system. The crate rtnetlink with the
-- kernel behind it is the parameter `Rtnetlink`, whose state is `K`; a dump of routes is taken when
-- it is asked for. Each function is an action on the kernel, and log output is left out.
pub mod Requests
pub mod Leftovers
pub mod Kernels
pub mod Clearing
pub mod Installing
use metalbond_rs.Netlink.Requests.{
  RtError, RouteMessage, RouteHeader, Rtnetlink, NetlinkError, no_table, invalid_table, no_device,
  request_failed, Request, pure, bail, ◌>>◌, ◌>>=◌, RouteAttribute, AddressFamily, RouteScope,
  RouteType, send,
}
use metalbond_rs.HashMap.{HashMap, get}
use metalbond_rs.Types.{
  Vni, IpAddr, IpVersion, Ipnet, Destination, NextHop, ip_version, standard, hop_type_discrete,
  hop_type_eq,
}
use metalbond_rs.Common.{
  ℕ, ◌%◌, ◌^◌, Bool, true, false, not, ◌&&◌, ◌==◌, Option, none, some, List, [], ◌∷◌, ◌++◌, nat_beq,
  nat_eq, if◌then◌else◌, Result, ok, err, ℤ, is_positive, as_unsigned, is_number,
}

abbrev pub metalbond_rt_proto : ℕ
metalbond_rt_proto = 254

-- The index of the first output interface among the attributes.
unfoldable pub output_interface_of : {Other : Type 0} → List (RouteAttribute Other) → Option ℕ
output_interface_of [] = none
output_interface_of (RouteAttribute.oif index ∷ attributes) = some index
output_interface_of (RouteAttribute.destination a ∷ attributes) = output_interface_of attributes
output_interface_of (RouteAttribute.gateway a ∷ attributes) = output_interface_of attributes
output_interface_of (RouteAttribute.other o ∷ attributes) = output_interface_of attributes

unfoldable pub output_interface : {Other : Type 0} → RouteMessage Other → Option ℕ
unfolding output_interface_of
output_interface route = output_interface_of route.attributes

pub record NetlinkClientConfig : Type 0 where
  pub vni_table_map : HashMap Vni ℤ
  pub link_name : List ℕ
  pub ipv4_only : Bool

-- The mutex, which nothing locks, is left out.
pub record NetlinkClient (Other K : Type 0) : Type 0 where
  pub handle : Rtnetlink Other K
  pub config : NetlinkClientConfig
  pub tun_index : ℕ

-- `route.output_interface() == Some(link_index)`
abbrev pub leaves_by : ℕ → Option ℕ → Bool
leaves_by link_index none = false
leaves_by link_index (some index) = nat_beq index link_index

-- The test of a dumped route in the two loops of `clear_metalbond_routes`.
unfoldable pub is_metalbond_route : {Other : Type 0} → ℕ → ℕ → RouteMessage Other → Bool
unfolding output_interface
is_metalbond_route table_id link_index route =
    nat_beq route.header.table (table_id % 2 ^ 8)
    && nat_beq route.header.protocol metalbond_rt_proto
    && leaves_by link_index (output_interface route)

-- `IpVersion` has a derived `PartialEq`.
abbrev is_v4 : IpVersion → Bool
is_v4 IpVersion.v4 = true
is_v4 IpVersion.v6 = false

abbrev pub family_of : IpVersion → AddressFamily
family_of IpVersion.v4 = AddressFamily.inet
family_of IpVersion.v6 = AddressFamily.inet6

abbrev gateway_of : {Other : Type 0} → IpAddr → List (RouteAttribute Other)
gateway_of (IpAddr.v4 octets) = []
gateway_of (IpAddr.v6 octets) = RouteAttribute.gateway (IpAddr.v6 octets) ∷ []

-- The crate's error number: `ENOENT` of libc.
abbrev pub enoent : ℕ
enoent = 2

-- `err_msg.code.map_or(false, |c| c.get() == nix::libc::ENOENT)`
abbrev is_enoent : Option ℤ → Bool
is_enoent none = false
is_enoent (some code) = is_number enoent code

-- The `match` on the result of the deletion: every other error is passed on.
unfoldable pub after_deletion : Result RtError (Unit {0}) → Result NetlinkError (Unit {0})
after_deletion (ok _) = ok tt
after_deletion (err (RtError.netlink_error code)) =
    if is_enoent code then ok tt else err (request_failed (RtError.netlink_error code))
after_deletion (err e) = err (request_failed e)

module _ {Other K : Type 0} where
  -- One of the loops: the rest of a dump is handled behind each of its items.
  unfoldable pub clear_routes :
      Rtnetlink Other K → ℕ → ℕ → List (Result RtError (RouteMessage Other)) → Request K (Unit {0})
  unfolding is_metalbond_route pure bail ◌>>◌ send
  clear_routes handle table_id link_index [] = pure tt
  clear_routes handle table_id link_index (err e ∷ routes) = bail (request_failed e)
  clear_routes handle table_id link_index (ok route ∷ routes) =
      let rest = clear_routes handle table_id link_index routes in
      if is_metalbond_route table_id link_index route
      then (send (handle.del route) >> rest)
      else rest

  unfoldable pub clear_metalbond_routes : Rtnetlink Other K → ℕ → ℕ → Request K (Unit {0})
  unfolding clear_routes ◌>>◌
  clear_metalbond_routes handle table_id link_index k =
      (clear_routes handle table_id link_index (handle.dump IpVersion.v4 k)
          >> clear_routes handle table_id link_index (handle.dump IpVersion.v6 k))
        k

  -- The loop over `vni_table_map` in `new`.
  unfoldable pub clear_tables : Rtnetlink Other K → ℕ → HashMap Vni ℤ → Request K (Unit {0})
  unfolding clear_metalbond_routes pure ◌>>◌
  clear_tables handle tun_index [] = pure tt
  clear_tables handle tun_index ((vni, table_id) ∷ rest) =
      let others = clear_tables handle tun_index rest in
      if is_positive table_id
      then (clear_metalbond_routes handle (as_unsigned 32 table_id) tun_index >> others)
      else others

  -- `NetlinkClient::new`
  unfoldable pub new_client :
      Rtnetlink Other K → NetlinkClientConfig → Request K (NetlinkClient Other K)
  unfolding clear_tables pure bail ◌>>◌ ◌>>=◌
  new_client handle config k = elim (handle.link_index config.link_name k) [
    | err e ↦ bail (request_failed e) k
    | ok none ↦ bail no_device k
    | ok (some tun_index) ↦
        (clear_tables handle tun_index config.vni_table_map
            >> pure (record { handle = handle; config = config; tun_index = tun_index }))
          k
  ]

  unfoldable pub clear_routes_for_vni : NetlinkClient Other K → Vni → Request K (Unit {0})
  unfolding clear_metalbond_routes bail get
  clear_routes_for_vni client vni = elim (get vni client.config.vni_table_map) [
    | none ↦ bail (no_table vni)
    | some table_id ↦
        if is_positive table_id
        then clear_metalbond_routes client.handle (as_unsigned 32 table_id) client.tun_index
        else bail invalid_table
  ]

module _ {Net Other K : Type 0} ⦃i : Ipnet Net⦄ where
  unfoldable pub build_route_message :
      NetlinkClient Other K → ℤ → Destination Net → IpAddr → RouteMessage Other
  build_route_message client table_id dest nexthop_ip =
      let blank = client.handle.default_message in
      record {
        header = record blank.header {
          address_family = family_of (i.variant dest.prefix);
          destination_prefix_length = i.prefix_len dest.prefix;
          table = as_unsigned 8 table_id;
          protocol = metalbond_rt_proto;
          scope = RouteScope.universe;
          kind = RouteType.unicast;
        };
        attributes =
            blank.attributes
            ++ (RouteAttribute.destination (i.network dest.prefix)
                ∷ RouteAttribute.oif client.tun_index
                ∷ gateway_of nexthop_ip);
      }

  -- What `add_route` and `remove_route` both do before they ask the kernel: `none` is the early
  -- `Ok(())` of a route that is skipped.
  unfoldable pub route_request :
      NetlinkClient Other K
      → Vni
      → Destination Net
      → NextHop
      → Result NetlinkError (Option (RouteMessage Other))
  unfolding build_route_message get ip_version hop_type_discrete
  route_request client vni dest nexthop =
      if client.config.ipv4_only && not (is_v4 (ip_version dest))
      then ok none
      else elim (get vni client.config.vni_table_map) [
        | none ↦ err (no_table vni)
        | some table_id ↦
            if not (is_positive table_id)
            then err invalid_table
            else if not (nexthop.hop_type == standard)
            then ok none
            else ok (some (build_route_message client table_id dest nexthop.target_address))
      ]

  unfoldable pub add_route :
      NetlinkClient Other K → Vni → Destination Net → NextHop → Request K (Unit {0})
  unfolding route_request send pure bail
  add_route client vni dest nexthop = elim (route_request client vni dest nexthop) [
    | err e ↦ bail e
    | ok none ↦ pure tt
    | ok (some route_message) ↦ send (client.handle.add route_message)
  ]

  unfoldable pub remove_route :
      NetlinkClient Other K → Vni → Destination Net → NextHop → Request K (Unit {0})
  unfolding route_request after_deletion pure bail
  remove_route client vni dest nexthop = elim (route_request client vni dest nexthop) [
    | err e ↦ bail e
    | ok none ↦ pure tt
    | ok (some route_message) ↦ (λ k.
        let (result, after) = client.handle.del route_message k in (after_deletion result, after))
  ]
