-- ===== src/Examples/Tables.antt =====
-- The laws of the route table at the example's table.
use metalbond_rs.HashMap.{contains, or_default}
use metalbond_rs.Types.{
  next_hop_eq, peer_key_eq, destination_eq, socket_addr_eq, ip_addr_discrete, socket_addr_discrete,
  next_hop_discrete, peer_key_discrete, destination_discrete, hop_type_discrete,
}
use metalbond_rs.RouteTable.{
  removed_eq, ok, add_next_hop, remove_next_hop, next_hop_exists, remove_routes_from_peer,
  get_local_announcements,
}
use metalbond_rs.RouteTable.Updates.{
  same_route, next_hop_exists-add_next_hop, next_hop_exists-remove_next_hop,
}
use metalbond_rs.RouteTable.Departure.{
  next_hop_exists-remove_routes_from_peer, contains-remove_routes_from_peer,
}
use metalbond_rs.RouteTable.Views.{contains-get_local_announcements}
use mathlib.Core.Bool.{decide}
use metalbond_rs.Examples.Fixtures.{
  prefixes, prefix_discrete, alice, subnet, host, gateway, of_alice, table, table-IsTidyTable,
}
use metalbond_rs.Common.{not, ◌&&◌, ◌||◌, none, some, ◌==◌, ◌≡◌, refl, nat_eq, ℕ_discrete}

next_hop_exists-add_next_hop_example :
    next_hop_exists (add_next_hop table 8 host gateway (some alice)).0 7 subnet gateway none ≡ (
      same_route 8 host gateway (some alice) 7 subnet gateway none
      || next_hop_exists table 7 subnet gateway none)
next_hop_exists-add_next_hop_example =
    next_hop_exists-add_next_hop table 8 host gateway (some alice) 7 subnet gateway none

next_hop_exists-remove_next_hop_example :
    next_hop_exists (remove_next_hop table 7 subnet gateway (some alice)).0 7 subnet gateway none
    ≡ (not (same_route 7 subnet gateway (some alice) 7 subnet gateway none)
        && next_hop_exists table 7 subnet gateway none)
next_hop_exists-remove_next_hop_example =
    next_hop_exists-remove_next_hop table 7 subnet gateway (some alice) 7 subnet gateway none

next_hop_exists-remove_routes_from_peer_example :
    next_hop_exists (remove_routes_from_peer table alice).0 7 subnet gateway none
    ≡ (not (some alice == none) && next_hop_exists table 7 subnet gateway none)
next_hop_exists-remove_routes_from_peer_example =
    next_hop_exists-remove_routes_from_peer table alice 7 subnet gateway none table-IsTidyTable

contains-remove_routes_from_peer_example :
    contains
      (record { vni = 7; destination = subnet; next_hop = gateway })
      (remove_routes_from_peer table alice).1
    ≡ next_hop_exists table 7 subnet gateway (some alice)
contains-remove_routes_from_peer_example =
    contains-remove_routes_from_peer table alice
      (record { vni = 7; destination = subnet; next_hop = gateway }) table-IsTidyTable

contains-get_local_announcements_example :
    contains gateway (or_default subnet (or_default 7 (get_local_announcements table)))
    ≡ next_hop_exists table 7 subnet gateway none
contains-get_local_announcements_example =
    contains-get_local_announcements table 7 subnet gateway table-IsTidyTable

-- A removal from a single route leaves no announcer.
removes_last : (remove_next_hop of_alice 7 subnet gateway (some alice)).1 ≡ ok 0
unfolding remove_next_hop add_next_hop destination_discrete prefix_discrete ip_addr_discrete
    next_hop_discrete hop_type_discrete peer_key_discrete socket_addr_discrete ℕ_discrete decide
removes_last = refl
