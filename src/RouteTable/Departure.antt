-- ===== src/RouteTable/Departure.antt =====
-- `remove_routes_from_peer` of routetable.rs: what is left of the table and what is reported.
use metalbond_rs.HashMap.{contains, erase, or_default}
use metalbond_rs.HashMap.Sets.{contains-erase}
use metalbond_rs.HashMap.Sweep.{or_default-sweep, contains-sweep, sweep_reports}
use metalbond_rs.Types.{
  Vni, Destination, NextHop, PeerKey, SocketAddr, Ipnet, next_hop_eq, peer_key_eq, destination_eq,
}
use metalbond_rs.RouteTable.{
  RouteTable, PeerSet, NextHops, Destinations, Removed, removed_eq, remove_routes_from_peer,
  leave_next_hop, leave_destination, leave_vni, next_hop_exists,
}
use metalbond_rs.RouteTable.Routes.{announcers, next_hop_exists-announcers}
use metalbond_rs.RouteTable.Tidy.{
  IsTidyTable, or_default-AreTidyHops, or_default-AreTidyDestinations,
}
use metalbond_rs.Common.{
  true, not, ◌&&◌, some, ◌≡◌, refl, sym, ap, ◌∙◌, nat_eq, ◌==◌, ==_iff, arith,
}

module _ {Net : Type 0} ⦃i : Ipnet Net⦄ where
  announcers-remove_routes_from_peer :
      (t : RouteTable Net) (peer : SocketAddr) (vni : Vni) (dest : Destination Net) (nh : NextHop)
      → IsTidyTable t
      → announcers (remove_routes_from_peer t peer).0 vni dest nh
        ≡ erase (some peer) (announcers t vni dest nh)
  unfolding announcers remove_routes_from_peer leave_vni leave_destination leave_next_hop
  announcers-remove_routes_from_peer t peer vni dest nh h =
      ap (λ m. or_default nh (or_default dest m)) (or_default-sweep (leave_vni peer) vni t refl h.0)
      ∙ ap (or_default nh) (
          or_default-sweep (leave_destination peer vni) dest _ refl
            (or_default-AreTidyDestinations t vni h).0)
      ∙ or_default-sweep (leave_next_hop peer vni dest) nh _ refl
          (or_default-AreTidyHops _ dest (or_default-AreTidyDestinations t vni h)).0

  -- After a peer left a tidy table exactly the routes of the other peers exist.
  pub next_hop_exists-remove_routes_from_peer :
      (t : RouteTable Net) (peer : SocketAddr) (vni : Vni) (dest : Destination Net) (nh : NextHop)
      (p : PeerKey)
      → IsTidyTable t
      → next_hop_exists (remove_routes_from_peer t peer).0 vni dest nh p
        ≡ (not (some peer == p) && next_hop_exists t vni dest nh p)
  next_hop_exists-remove_routes_from_peer t peer vni dest nh p h =
      rw (next_hop_exists-announcers, next_hop_exists-announcers)
        (ap (contains p) (announcers-remove_routes_from_peer t peer vni dest nh h)
          ∙ contains-erase p (some peer) (announcers t vni dest nh))

  contains-leave_next_hop :
      (peer : SocketAddr) (vni : Vni) (dest : Destination Net) (nh : NextHop) (s : PeerSet)
      → contains
          (record { vni = vni; destination = dest; next_hop = nh })
          (leave_next_hop peer vni dest nh s).1
        ≡ contains (some peer) s
  unfolding leave_next_hop contains
  contains-leave_next_hop peer vni dest nh s =
      let x : Removed Net = record { vni = vni; destination = dest; next_hop = nh } in
      ground (arith, ==_iff x x)

  own_next_hop :
      (peer : SocketAddr) (x : Removed Net) (vni : Vni) (dest : Destination Net) (nh : NextHop)
      (s : PeerSet)
      → contains x (leave_next_hop peer vni dest nh s).1 ≡ true
      → x ≡ record { vni = vni; destination = dest; next_hop = nh }
  unfolding leave_next_hop contains
  own_next_hop peer x vni dest nh s h =
      ground (arith, ==_iff (record { vni = vni; destination = dest; next_hop = nh }) x)

  own_destination :
      (peer : SocketAddr) (x : Removed Net) (vni : Vni) (dest : Destination Net) (hops : NextHops)
      → contains x (leave_destination peer vni dest hops).1 ≡ true
      → (x.vni ≡ vni) × (x.destination ≡ dest)
  unfolding leave_destination
  own_destination peer x vni dest hops =
      sweep_reports (leave_next_hop peer vni dest) x hops λ nh s h.
        let e : x ≡ record { vni = vni; destination = dest; next_hop = nh } =
          own_next_hop peer x vni dest nh s h in
        (ap (λ r. r.vni) e, ap (λ r. r.destination) e)

  own_vni :
      (peer : SocketAddr) (x : Removed Net) (vni : Vni) (dests : Destinations Net)
      → contains x (leave_vni peer vni dests).1 ≡ true
      → x.vni ≡ vni
  unfolding leave_vni
  own_vni peer x vni dests =
      sweep_reports (leave_destination peer vni) x dests
        λ dest hops h. (own_destination peer x vni dest hops h).0

  -- `remove_routes_from_peer` reports exactly the routes that the peer had in a tidy table.
  pub contains-remove_routes_from_peer :
      (t : RouteTable Net) (peer : SocketAddr) (x : Removed Net)
      → IsTidyTable t
      → contains x (remove_routes_from_peer t peer).1
        ≡ next_hop_exists t x.vni x.destination x.next_hop (some peer)
  unfolding remove_routes_from_peer announcers leave_vni leave_destination
  contains-remove_routes_from_peer t peer x h =
      contains-sweep (leave_vni peer) (λ r. r.vni) x t refl (own_vni peer x) h.0
      ∙ contains-sweep (leave_destination peer x.vni) (λ r. r.destination) x _ refl
          (λ dest hops r. (own_destination peer x x.vni dest hops r).1)
          (or_default-AreTidyDestinations t x.vni h).0
      ∙ contains-sweep (leave_next_hop peer x.vni x.destination) (λ r. r.next_hop) x _ refl
          (λ nh s r. ap (λ y. y.next_hop) (own_next_hop peer x x.vni x.destination nh s r))
          (or_default-AreTidyHops _ x.destination (or_default-AreTidyDestinations t x.vni h)).0
      ∙ contains-leave_next_hop peer x.vni x.destination x.next_hop _
      ∙ sym (next_hop_exists-announcers t x.vni x.destination x.next_hop (some peer))
