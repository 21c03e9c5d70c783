-- ===== src/Client.antt =====
-- client.rs: the trait `Client` as an interface, with its two implementations, `DummyClient` and the
-- client of netlink.rs. `K` is the state that a client works on.
use metalbond_rs.Types.{Vni, Ipnet, Destination, NextHop}
use metalbond_rs.Netlink.Requests.{Request}
use metalbond_rs.Netlink.{NetlinkClient, add_route, remove_route, clear_routes_for_vni}
use metalbond_rs.MetalBond.{ClientCall}
use metalbond_rs.Common.{List, [], ◌∷◌, ok}

pub record Client (Net K : Type 0) : Type 0 where
  pub add_route : Vni → Destination Net → NextHop → Request K (Unit {0})
  pub remove_route : Vni → Destination Net → NextHop → Request K (Unit {0})
  pub clear_routes_for_vni : Vni → Request K (Unit {0})

-- `DummyClient` only logs.
unfoldable pub dummy_client : {Net K : Type 0} → Client Net K
dummy_client = record {
  add_route = λ vni dest nexthop k. (ok tt, k);
  remove_route = λ vni dest nexthop k. (ok tt, k);
  clear_routes_for_vni = λ vni k. (ok tt, k);
}

unfoldable pub netlink_client :
    {Net Other K : Type 0} ⦃i : Ipnet Net⦄ → NetlinkClient Other K → Client Net K
netlink_client client = record {
  add_route = λ vni dest nexthop. add_route client vni dest nexthop;
  remove_route = λ vni dest nexthop. remove_route client vni dest nexthop;
  clear_routes_for_vni = λ vni. clear_routes_for_vni client vni;
}

module _ {Net K : Type 0} (client : Client Net K) where
  -- The calls that an instance has made, one after the other; errors are logged by the caller.
  unfoldable pub perform : List (ClientCall Net) → K → K
  perform [] k = k
  perform (ClientCall.add_route vni dest nexthop ∷ calls) k =
      perform calls (client.add_route vni dest nexthop k).1
  perform (ClientCall.remove_route vni dest nexthop ∷ calls) k =
      perform calls (client.remove_route vni dest nexthop k).1
  perform (ClientCall.clear_routes_for_vni vni ∷ calls) k =
      perform calls (client.clear_routes_for_vni vni k).1
