-- ===== src/RouteTable/Views.antt =====
-- The read operations of routetable.rs that build a copy of a part of the table.
use metalbond_rs.HashMap.{HashMap, get, contains, keys, contains_key, or_default}
use metalbond_rs.HashMap.Tidy.{Distinct}
use metalbond_rs.HashMap.Collect.{collect, collect_some, or_default-collect, or_default-copy}
use metalbond_rs.Types.{
  Vni, Destination, NextHop, PeerKey, Ipnet, next_hop_eq, peer_key_eq, destination_eq,
}
use metalbond_rs.RouteTable.{
  RouteTable, NextHops, get_destinations_by_vni_with_peer, get_local_announcements, local_next_hops,
  next_hop_exists,
}
use metalbond_rs.RouteTable.Routes.{announcers, next_hop_exists-announcers}
use metalbond_rs.RouteTable.Tidy.{
  IsTidyTable, AreTidyDestinations, or_default-AreTidyHops, or_default-AreTidyDestinations,
}
use metalbond_rs.Common.{
  none, [], ◌∷◌, ◌≡◌, refl, sym, ap, ◌∙◌, nat_eq, ==_iff, arith, PartialEq, Option-cases, inl, inr,
}

contains-local_next_hops :
    (nh : NextHop) (m : NextHops)
    → Distinct m
    → contains nh (local_next_hops m) ≡ contains none (or_default nh m)
unfolding local_next_hops contains or_default get
contains-local_next_hops nh [] d = refl
contains-local_next_hops nh ((k, s) ∷ m) d =
    ground (arith, contains-local_next_hops nh m d.1, ==_iff k nh)

module _ {ℓ} {K V : Type ℓ} ⦃e : PartialEq K⦄ where
  pub contains-keys : (k : K) (m : HashMap K V) → contains k (keys m) ≡ contains_key k m
  unfolding contains get
  contains-keys k [] = refl
  contains-keys k ((j, v) ∷ m) = ground (arith, contains-keys k m)

module _ {Net : Type 0} ⦃i : Ipnet Net⦄ where
  by_vni :
      (t : RouteTable Net) (vni : Vni)
      → get_destinations_by_vni_with_peer t vni
        ≡ collect (λ dest nh_map. collect (λ nh peer_set. peer_set) nh_map []) (or_default vni t) []
  unfolding get_destinations_by_vni_with_peer or_default
  by_vni t vni = elim (Option-cases (get vni t)) [
    | inl e ↦ rw (e, get_destinations_by_vni_with_peer) (rw (e, or_default))
    | inr (m, e) ↦ rw (e, get_destinations_by_vni_with_peer) (rw (e, or_default))
  ]

  by_announcers :
      (t : RouteTable Net) (vni : Vni) (dest : Destination Net) (nh : NextHop) (p : PeerKey)
      → contains p (or_default nh (or_default dest (or_default vni t)))
        ≡ next_hop_exists t vni dest nh p
  unfolding announcers
  by_announcers t vni dest nh p = sym (next_hop_exists-announcers t vni dest nh p)

  -- `get_local_announcements` lists exactly the routes of a tidy table that this instance announced.
  pub contains-get_local_announcements :
      (t : RouteTable Net) (vni : Vni) (dest : Destination Net) (nh : NextHop)
      → IsTidyTable t
      → contains nh (or_default dest (or_default vni (get_local_announcements t)))
        ≡ next_hop_exists t vni dest nh none
  unfolding get_local_announcements or_default
  contains-get_local_announcements t vni dest nh h =
      ap (λ m. contains nh (or_default dest m))
        (or_default-collect
          (λ vni dest_map. collect_some (λ dest nh_map. local_next_hops nh_map) dest_map []) vni t
          [] refl refl h.0)
      ∙ ap (contains nh) (
          or_default-collect (λ dest nh_map. local_next_hops nh_map) dest _ [] refl refl
            (or_default-AreTidyDestinations t vni h).0)
      ∙ contains-local_next_hops nh _
          (or_default-AreTidyHops _ dest (or_default-AreTidyDestinations t vni h)).0
      ∙ by_announcers t vni dest nh none

  -- `get_destinations_by_vni_with_peer` lists, for each destination and next hop of the VNI, exactly
  -- the peers that announce it in a tidy table.
  pub contains-get_destinations_by_vni_with_peer :
      (t : RouteTable Net) (vni : Vni) (dest : Destination Net) (nh : NextHop) (p : PeerKey)
      → IsTidyTable t
      → contains p (or_default nh (or_default dest (get_destinations_by_vni_with_peer t vni)))
        ≡ next_hop_exists t vni dest nh p
  unfolding collect
  contains-get_destinations_by_vni_with_peer t vni dest nh p h =
      let dests : AreTidyDestinations (or_default vni t) = or_default-AreTidyDestinations t vni h in
      ap (λ m. contains p (or_default nh (or_default dest m))) (by_vni t vni)
      ∙ ap (λ m. contains p (or_default nh m))
          (or_default-copy (λ dest nh_map. collect (λ nh peer_set. peer_set) nh_map []) dest _ refl
            dests.0)
      ∙ ap (contains p) (
          or_default-copy (λ nh peer_set. peer_set) nh _ refl
            (or_default-AreTidyHops _ dest dests).0)
      ∙ by_announcers t vni dest nh p
