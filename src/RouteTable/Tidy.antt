-- ===== src/RouteTable/Tidy.antt =====
-- The invariant of the route table that the cleanup in routetable.rs is for: every VNI, destination,
-- next hop and peer stands once, and nothing that is kept is empty.
use metalbond_rs.HashMap.{contains, or_default}
use metalbond_rs.HashMap.Laws.{is_empty-insert}
use metalbond_rs.HashMap.Sets.{
  is_empty-set_insert, IsNodup, set_insert-IsNodup, erase-IsNodup, length-erase,
}
use metalbond_rs.HashMap.Tidy.{IsTidy, or_default-AllValues, insert-IsTidy, put_or_drop-IsTidy}
use metalbond_rs.HashMap.Sweep.{sweep-IsTidy}
use metalbond_rs.Types.{
  Vni, Destination, NextHop, PeerKey, SocketAddr, Ipnet, next_hop_eq, peer_key_eq, destination_eq,
}
use metalbond_rs.RouteTable.{
  RouteTable, PeerSet, NextHops, Destinations, add_next_hop, remove_next_hop,
  remove_routes_from_peer, leave_next_hop, leave_destination, leave_vni, ok,
}
use metalbond_rs.RouteTable.Routes.{
  announcers, leave, remove_next_hop_found, remove_next_hop-missing,
}
use metalbond_rs.Common.{ℕ, ◌+◌, ◌≡◌, nat_eq, arith, length, Bool-cases, inl, inr, some}

abbrev pub AreTidyHops : NextHops → Type 0
AreTidyHops = IsTidy IsNodup

or_default-IsNodup : (m : NextHops) (nh : NextHop) → AreTidyHops m → IsNodup (or_default nh m)
or_default-IsNodup m nh h = or_default-AllValues IsNodup nh m tt h.1

module _ {Net : Type 0} ⦃i : Ipnet Net⦄ where
  abbrev pub AreTidyDestinations : Destinations Net → Type 0
  AreTidyDestinations = IsTidy AreTidyHops

  abbrev pub IsTidyTable : RouteTable Net → Type 0
  IsTidyTable = IsTidy AreTidyDestinations

  pub or_default-AreTidyDestinations :
      (t : RouteTable Net) (vni : Vni) → IsTidyTable t → AreTidyDestinations (or_default vni t)
  or_default-AreTidyDestinations t vni h =
      or_default-AllValues AreTidyDestinations vni t (tt, tt) h.1

  pub or_default-AreTidyHops :
      (m : Destinations Net) (dest : Destination Net)
      → AreTidyDestinations m
      → AreTidyHops (or_default dest m)
  or_default-AreTidyHops m dest h = or_default-AllValues AreTidyHops dest m (tt, tt) h.1

  -- The peers of a next hop of a tidy table stand once each.
  pub announcers-IsNodup :
      (t : RouteTable Net) (vni : Vni) (dest : Destination Net) (nh : NextHop)
      → IsTidyTable t
      → IsNodup (announcers t vni dest nh)
  unfolding announcers
  announcers-IsNodup t vni dest nh h =
      or_default-IsNodup _ nh
        (or_default-AreTidyHops _ dest (or_default-AreTidyDestinations t vni h))

  -- `add_next_hop` keeps the table tidy.
  pub add_next_hop-IsTidyTable :
      (t : RouteTable Net) (vni : Vni) (dest : Destination Net) (nh : NextHop) (p : PeerKey)
      → IsTidyTable t
      → IsTidyTable (add_next_hop t vni dest nh p).0
  unfolding add_next_hop
  add_next_hop-IsTidyTable t vni dest nh p h =
      insert-IsTidy AreTidyDestinations vni _ t (is_empty-insert dest _ _)
        (insert-IsTidy AreTidyHops dest _ (or_default vni t) (is_empty-insert nh _ _)
          (insert-IsTidy IsNodup nh _ (or_default dest (or_default vni t)) (is_empty-set_insert p _)
            (set_insert-IsNodup p _ (or_default-IsNodup _ nh hops)) hops)
          dests)
        h
    where
      dests : AreTidyDestinations (or_default vni t)
      dests = or_default-AreTidyDestinations t vni h

      hops : AreTidyHops (or_default dest (or_default vni t))
      hops = or_default-AreTidyHops _ dest dests

  leave-IsTidyTable :
      (t : RouteTable Net) (vni : Vni) (dest : Destination Net) (nh : NextHop) (left : PeerSet)
      → IsNodup left
      → IsTidyTable t
      → IsTidyTable (leave t vni dest nh left)
  unfolding leave
  leave-IsTidyTable t vni dest nh left n h =
      let dests : AreTidyDestinations (or_default vni t) = or_default-AreTidyDestinations t vni h in
      let hops : AreTidyHops (or_default dest (or_default vni t)) =
        or_default-AreTidyHops _ dest dests in
      put_or_drop-IsTidy AreTidyDestinations vni _ t
        (put_or_drop-IsTidy AreTidyHops dest _ (or_default vni t)
          (put_or_drop-IsTidy IsNodup nh left (or_default dest (or_default vni t)) n hops) dests)
        h

  -- `remove_next_hop` keeps the table tidy: what it empties it removes.
  pub remove_next_hop-IsTidyTable :
      (t : RouteTable Net) (vni : Vni) (dest : Destination Net) (nh : NextHop) (p : PeerKey)
      → IsTidyTable t
      → IsTidyTable (remove_next_hop t vni dest nh p).0
  remove_next_hop-IsTidyTable t vni dest nh p h =
      elim (Bool-cases (contains p (announcers t vni dest nh))) [
        | inl found ↦ rw (remove_next_hop_found t vni dest nh p found) (
            leave-IsTidyTable t vni dest nh _
              (erase-IsNodup p _ (announcers-IsNodup t vni dest nh h)) h)
        | inr absent ↦ rw (remove_next_hop-missing t vni dest nh p absent) h
      ]

  -- `remove_routes_from_peer` keeps the table tidy.
  pub remove_routes_from_peer-IsTidyTable :
      (t : RouteTable Net) (peer : SocketAddr)
      → IsTidyTable t
      → IsTidyTable (remove_routes_from_peer t peer).0
  unfolding remove_routes_from_peer leave_vni leave_destination leave_next_hop
  remove_routes_from_peer-IsTidyTable t peer =
      sweep-IsTidy (leave_vni peer) AreTidyDestinations t λ vni dests.
        sweep-IsTidy (leave_destination peer vni) AreTidyHops dests λ dest hops.
          sweep-IsTidy (leave_next_hop peer vni dest) IsNodup hops λ nh. erase-IsNodup (some peer)

  -- A successful removal from a tidy table takes one announcer away: one more than the number it
  -- returns was there.
  pub remove_next_hop-count :
      (t : RouteTable Net) (vni : Vni) (dest : Destination Net) (nh : NextHop) (p : PeerKey) (n : ℕ)
      → IsTidyTable t
      → (remove_next_hop t vni dest nh p).1 ≡ ok n
      → length (announcers t vni dest nh) ≡ n + 1
  remove_next_hop-count t vni dest nh p n h e =
      elim (Bool-cases (contains p (announcers t vni dest nh))) [
        | inl found ↦ ground (
          arith,
          remove_next_hop_found t vni dest nh p found,
          length-erase p _ (announcers-IsNodup t vni dest nh h) found,
        )
        | inr absent ↦ ground (arith, remove_next_hop-missing t vni dest nh p absent)
      ]
