-- ===== src/RouteTable/Updates.antt =====
-- `add_next_hop` and `remove_next_hop` of routetable.rs, told by `next_hop_exists` for every route.
use metalbond_rs.HashMap.{contains, erase, set_insert}
use metalbond_rs.HashMap.Sets.{contains-set_insert, contains-erase}
use metalbond_rs.Types.{
  Vni, Destination, NextHop, PeerKey, Ipnet, next_hop_eq, peer_key_eq, destination_eq,
}
use metalbond_rs.RouteTable.{RouteTable, ok, err, add_next_hop, remove_next_hop, next_hop_exists}
use metalbond_rs.RouteTable.Routes.{
  announcers, same_path, next_hop_exists-announcers, announcers-add_next_hop, announcers-leave,
  missing, remove_next_hop_found, remove_next_hop-missing,
}
use metalbond_rs.Common.{
  Bool, false, not, ◌&&◌, ◌||◌, if◌then◌else◌, ◌≡◌, sym, ◌∙◌, length, nat_eq, ◌==◌, ==_iff, arith,
  Bool-cases, inl, inr, ap,
}

module _ {Net : Type 0} ⦃i : Ipnet Net⦄ where
  -- Two routes are the same: path and announcing peer.
  abbrev pub same_route :
      Vni → Destination Net → NextHop → PeerKey → Vni → Destination Net → NextHop → PeerKey → Bool
  same_route vni dest nh p vni' dest' nh' p' = same_path vni dest nh vni' dest' nh' && p == p'

  module _ (t : RouteTable Net) (vni : Vni) (dest : Destination Net) (nh : NextHop) (p : PeerKey)
      (vni' : Vni) (dest' : Destination Net) (nh' : NextHop) (p' : PeerKey) where
    contains-add :
        contains p' (announcers (add_next_hop t vni dest nh p).0 vni' dest' nh')
        ≡ (same_route vni dest nh p vni' dest' nh' p' || contains p' (announcers t vni' dest' nh'))
    contains-add = ground (
      arith,
      announcers-add_next_hop t vni vni' dest dest' nh nh' p,
      contains-set_insert p' p (announcers t vni dest nh),
      ==_iff vni vni',
      ==_iff dest dest',
      ==_iff nh nh',
    )

    -- After `add_next_hop` exactly the added route and the routes of before exist.
    pub next_hop_exists-add_next_hop :
        next_hop_exists (add_next_hop t vni dest nh p).0 vni' dest' nh' p'
        ≡ (same_route vni dest nh p vni' dest' nh' p' || next_hop_exists t vni' dest' nh' p')
    next_hop_exists-add_next_hop =
        rw (next_hop_exists-announcers, next_hop_exists-announcers) contains-add

    contains-remove :
        contains p' (announcers (remove_next_hop t vni dest nh p).0 vni' dest' nh') ≡ (
          not (same_route vni dest nh p vni' dest' nh' p')
          && contains p' (announcers t vni' dest' nh'))
    contains-remove = elim (Bool-cases (contains p (announcers t vni dest nh))) [
      | inl found ↦ ground (
        arith,
        remove_next_hop_found t vni dest nh p found,
        announcers-leave t vni vni' dest dest' nh nh' (erase p (announcers t vni dest nh)),
        contains-erase p' p (announcers t vni dest nh),
        ==_iff vni vni',
        ==_iff dest dest',
        ==_iff nh nh',
      )
      | inr absent ↦ ground (
        arith,
        remove_next_hop-missing t vni dest nh p absent,
        ==_iff vni vni',
        ==_iff dest dest',
        ==_iff nh nh',
        ==_iff p p',
      )
    ]

    -- After `remove_next_hop`, whether it succeeds or fails, exactly the routes of before exist
    -- less the removed one.
    pub next_hop_exists-remove_next_hop :
        next_hop_exists (remove_next_hop t vni dest nh p).0 vni' dest' nh' p'
        ≡ (not (same_route vni dest nh p vni' dest' nh' p') && next_hop_exists t vni' dest' nh' p')
    next_hop_exists-remove_next_hop =
        rw (next_hop_exists-announcers, next_hop_exists-announcers) contains-remove

  module _ (t : RouteTable Net) (vni : Vni) (dest : Destination Net) (nh : NextHop)
      (p : PeerKey) where
    -- `add_next_hop` returns true exactly when the route did not exist before.
    pub add_next_hop-new : (add_next_hop t vni dest nh p).1 ≡ not (next_hop_exists t vni dest nh p)
    unfolding add_next_hop set_insert announcers
    add_next_hop-new = rw next_hop_exists-announcers (ground arith)

    -- `remove_next_hop` fails exactly when the route did not exist, with the error of the first
    -- lookup that failed; otherwise it returns how many peers announce the next hop afterwards.
    pub remove_next_hop-result : (remove_next_hop t vni dest nh p).1 ≡ (
        if next_hop_exists t vni dest nh p
        then ok (length (announcers (remove_next_hop t vni dest nh p).0 vni dest nh))
        else err (missing t vni dest nh))
    remove_next_hop-result =
        rw next_hop_exists-announcers (elim (Bool-cases (contains p (announcers t vni dest nh))) [
          | inl found ↦
              let left = erase p (announcers t vni dest nh) in
              ground (
                arith,
                remove_next_hop_found t vni dest nh p found,
                announcers-leave t vni vni dest dest nh nh left,
                ==_iff vni vni,
                ==_iff dest dest,
                ==_iff nh nh,
              )
          | inr absent ↦ ground (arith, remove_next_hop-missing t vni dest nh p absent)
        ])

    -- A removal of a route that does not exist leaves the table as it was.
    pub remove_next_hop_absent :
        next_hop_exists t vni dest nh p ≡ false → (remove_next_hop t vni dest nh p).0 ≡ t
    remove_next_hop_absent h =
        ap (λ r. r.0)
          (remove_next_hop-missing t vni dest nh p
            (sym (next_hop_exists-announcers t vni dest nh p) ∙ h))
