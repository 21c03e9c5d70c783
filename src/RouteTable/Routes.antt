-- ===== src/RouteTable/Routes.antt =====
-- The route table as the set of its routes: what each operation of routetable.rs does to the answer
-- of `next_hop_exists` for every route, on every branch.
use metalbond_rs.HashMap.{get, insert, contains, erase, set_insert, or_default, put_or_drop}
use metalbond_rs.HashMap.Laws.{or_default-insert, or_default-put_or_drop}
use metalbond_rs.Types.{
  Vni, Destination, NextHop, PeerKey, Ipnet, next_hop_eq, peer_key_eq, destination_eq,
}
use metalbond_rs.RouteTable.{
  RouteTable, PeerSet, RouteError, ok, err, vni_not_found, destination_not_found,
  next_hop_not_found, peer_not_found, add_next_hop, remove_next_hop, next_hop_exists,
}
use metalbond_rs.Common.{
  Bool, true, false, ◌&&◌, if◌then◌else◌, none, some, ◌≡◌, length, nat_eq, ◌==◌, ==_iff, arith,
}

module _ {Net : Type 0} ⦃i : Ipnet Net⦄ where
  -- The peers that announce a next hop: the abstract view of the table.
  unfoldable pub announcers : RouteTable Net → Vni → Destination Net → NextHop → PeerSet
  announcers t vni dest nh = or_default nh (or_default dest (or_default vni t))

  -- Whether two routes are the same next hop of the same destination and VNI.
  abbrev pub same_path : Vni → Destination Net → NextHop → Vni → Destination Net → NextHop → Bool
  same_path vni dest nh vni' dest' nh' = vni == vni' && (dest == dest' && nh == nh')

  pub next_hop_exists-announcers :
      (t : RouteTable Net) (vni : Vni) (dest : Destination Net) (nh : NextHop) (p : PeerKey)
      → next_hop_exists t vni dest nh p ≡ contains p (announcers t vni dest nh)
  unfolding next_hop_exists announcers or_default
  next_hop_exists-announcers t vni dest nh p = ground arith

  pub announcers-add_next_hop :
      (t : RouteTable Net) (vni vni' : Vni) (dest dest' : Destination Net) (nh nh' : NextHop)
      (p : PeerKey)
      → announcers (add_next_hop t vni dest nh p).0 vni' dest' nh' ≡ (
          if same_path vni dest nh vni' dest' nh'
          then (set_insert p (announcers t vni dest nh)).0
          else announcers t vni' dest' nh')
  unfolding announcers add_next_hop
  announcers-add_next_hop t vni vni' dest dest' nh nh' p =
      let dest_map = or_default vni t in
      let nh_map = or_default dest dest_map in
      let peer_set = (set_insert p (or_default nh nh_map)).0 in
      ground (
        arith,
        or_default-insert vni' vni (insert dest (insert nh peer_set nh_map) dest_map) t,
        or_default-insert dest' dest (insert nh peer_set nh_map) dest_map,
        or_default-insert nh' nh peer_set nh_map,
        ==_iff vni vni',
        ==_iff dest dest',
      )

  -- What is left of the table once a peer left the announcers of one next hop.
  unfoldable pub leave : RouteTable Net → Vni → Destination Net → NextHop → PeerSet → RouteTable Net
  leave t vni dest nh left =
      let dest_map = or_default vni t in
      put_or_drop vni (put_or_drop dest (put_or_drop nh left (or_default dest dest_map)) dest_map) t

  pub announcers-leave :
      (t : RouteTable Net) (vni vni' : Vni) (dest dest' : Destination Net) (nh nh' : NextHop)
      (left : PeerSet)
      → announcers (leave t vni dest nh left) vni' dest' nh'
        ≡ (if same_path vni dest nh vni' dest' nh' then left else announcers t vni' dest' nh')
  unfolding announcers leave
  announcers-leave t vni vni' dest dest' nh nh' left =
      let dest_map = or_default vni t in
      let nh_map = or_default dest dest_map in
      ground (
        arith,
        or_default-put_or_drop vni' vni (put_or_drop dest (put_or_drop nh left nh_map) dest_map) t,
        or_default-put_or_drop dest' dest (put_or_drop nh left nh_map) dest_map,
        or_default-put_or_drop nh' nh left nh_map,
        ==_iff vni vni',
        ==_iff dest dest',
      )

  -- A removal succeeds exactly when the peer announces the route, and then counts who is left.
  pub remove_next_hop_found :
      (t : RouteTable Net) (vni : Vni) (dest : Destination Net) (nh : NextHop) (p : PeerKey)
      → contains p (announcers t vni dest nh) ≡ true
      → let left = erase p (announcers t vni dest nh) in
        remove_next_hop t vni dest nh p ≡ (leave t vni dest nh left, ok (length left))
  unfolding remove_next_hop announcers leave or_default contains
  remove_next_hop_found t vni dest nh p h = ground arith

  -- Which lookup a failed removal reports.
  pub missing : RouteTable Net → Vni → Destination Net → NextHop → RouteError
  missing t vni dest nh = elim (get vni t) [
    | none ↦ vni_not_found
    | some dest_map ↦ elim (get dest dest_map) [
      | none ↦ destination_not_found
      | some nh_map ↦ elim (get nh nh_map) [ none ↦ next_hop_not_found | some _ ↦ peer_not_found ]
    ]
  ]

  pub remove_next_hop-missing :
      (t : RouteTable Net) (vni : Vni) (dest : Destination Net) (nh : NextHop) (p : PeerKey)
      → contains p (announcers t vni dest nh) ≡ false
      → remove_next_hop t vni dest nh p ≡ (t, err (missing t vni dest nh))
  unfolding remove_next_hop announcers missing or_default
  remove_next_hop-missing t vni dest nh p h = ground arith
