-- ===== src/Peer/Greetings.antt =====
-- `announcements_of`, the nested loop of `set_state` in peer.rs over the local announcements.
use metalbond_rs.HashMap.{HashMap, get, contains, or_default}
use metalbond_rs.HashMap.Sets.{contains-append}
use metalbond_rs.HashMap.Tidy.{Distinct}
use metalbond_rs.HashMap.Collect.{collect_some-Distinct, or_default-collect}
use metalbond_rs.Types.{Vni, Ipnet, Destination, NextHop, next_hop_eq, peer_key_eq, destination_eq}
use metalbond_rs.RouteTable.{
  RouteTable, Removed, removed_eq, get_local_announcements, next_hop_exists,
}
use metalbond_rs.RouteTable.Tidy.{IsTidyTable}
use metalbond_rs.RouteTable.Views.{contains-get_local_announcements}
use metalbond_rs.Peer.{hops_of, destinations_of, announcements_of}
use metalbond_rs.Common.{
  Bool, ◌&&◌, ◌||◌, ◌==◌, ==_iff, ==_self, false, if◌then◌else◌, Bool-cases, inl, inr, sym, subst,
  none, List, [], ◌∷◌, ◌≡◌, refl, ap, ◌∙◌, arith, nat_eq,
}

or_false : (b : Bool) → (b || false) ≡ b
or_false b = ground arith

module _ {Net : Type 0} ⦃i : Ipnet Net⦄ where
  same_fields :
      (r x : Removed Net)
      → r.vni ≡ x.vni
      → r.destination ≡ x.destination
      → r.next_hop ≡ x.next_hop
      → r ≡ x
  same_fields r x a b c = λ j. record { vni = a j; destination = b j; next_hop = c j }

  removed_by_fields :
      (r x : Removed Net)
      → (r == x) ≡ (r.vni == x.vni && (r.destination == x.destination && r.next_hop == x.next_hop))
  removed_by_fields r x =
      let a : r ≡ x → r.vni ≡ x.vni = λ e. ap (λ q. q.vni) e in
      let b : r ≡ x → r.destination ≡ x.destination = λ e. ap (λ q. q.destination) e in
      let c : r ≡ x → r.next_hop ≡ x.next_hop = λ e. ap (λ q. q.next_hop) e in
      ground (
        arith,
        ==_iff r x,
        ==_iff r.vni x.vni,
        ==_iff r.destination x.destination,
        ==_iff r.next_hop x.next_hop,
        a,
        b,
        c,
        same_fields r x,
      )

  contains-hops_of :
      (x : Removed Net) (vni : Vni) (dest : Destination Net) (nhs : List NextHop)
      → contains x (hops_of vni dest nhs)
        ≡ (vni == x.vni && (dest == x.destination && contains x.next_hop nhs))
  unfolding hops_of contains
  contains-hops_of x vni dest [] = ground arith
  contains-hops_of x vni dest (nh ∷ nhs) =
      let r : Removed Net = record { vni = vni; destination = dest; next_hop = nh } in
      ground (arith, contains-hops_of x vni dest nhs, removed_by_fields r x)

  contains-destinations_of :
      (x : Removed Net) (vni : Vni) (m : HashMap (Destination Net) (List NextHop))
      → Distinct m
      → contains x (destinations_of vni m)
        ≡ (vni == x.vni && contains x.next_hop (or_default x.destination m))
  unfolding destinations_of contains or_default get
  contains-destinations_of x vni [] d = ground arith
  contains-destinations_of x vni ((dest, nhs) ∷ m) d = ground (
    arith,
    contains-destinations_of x vni m d.1,
    contains-append x (hops_of vni dest nhs) (destinations_of vni m),
    contains-hops_of x vni dest nhs,
    ==_iff dest x.destination,
    d.0,
  )

  other_vni :
      (x : Removed Net) (vni : Vni) (m : HashMap (Destination Net) (List NextHop))
      → (vni == x.vni) ≡ false
      → contains x (destinations_of vni m) ≡ false
  unfolding destinations_of contains
  other_vni x vni [] h = refl
  other_vni x vni ((dest, nhs) ∷ m) h = ground (
    arith,
    other_vni x vni m h,
    contains-append x (hops_of vni dest nhs) (destinations_of vni m),
    contains-hops_of x vni dest nhs,
    h,
  )

  or_default-head :
      (x : Vni) (vni : Vni) (v : HashMap (Destination Net) (List NextHop))
      (m : HashMap Vni (HashMap (Destination Net) (List NextHop)))
      → or_default x ((vni, v) ∷ m) ≡ (if vni == x then v else or_default x m)
  unfolding or_default get
  or_default-head x vni v m = ground arith

  absent_vni :
      (x : Vni) (m : HashMap Vni (HashMap (Destination Net) (List NextHop)))
      → get x m ≡ none
      → or_default x m ≡ []
  unfolding or_default
  absent_vni x m h = rw (h, or_default) refl

  contains-announcements_of :
      (x : Removed Net) (m : HashMap Vni (HashMap (Destination Net) (List NextHop)))
      → Distinct m
      → contains x (announcements_of m) ≡ contains x (destinations_of x.vni (or_default x.vni m))
  unfolding announcements_of or_default get contains destinations_of
  contains-announcements_of x [] d = refl
  contains-announcements_of x ((vni, dests) ∷ m) d =
      let rest = contains-announcements_of x m d.1 in
      let both = contains-append x (destinations_of vni dests) (announcements_of m) in
      let listed = λ (w : Vni) (l : HashMap (Destination Net) (List NextHop)).
        contains x (destinations_of w l) in
      elim (Bool-cases (vni == x.vni)) [
        | inl same ↦
            let e : vni ≡ x.vni = (==_iff vni x.vni).0 same in
            let gone : or_default x.vni m ≡ [] =
              absent_vni x.vni m (ap (λ v. get v m) (sym e) ∙ d.0) in
            let none_left : contains x (announcements_of m) ≡ false =
              rest ∙ ap (listed x.vni) gone in
            let here : or_default x.vni ((vni, dests) ∷ m) ≡ dests =
              or_default-head x.vni vni dests m ∙ rw (same) refl in
            both
            ∙ ap (λ b. contains x (destinations_of vni dests) || b) none_left
            ∙ or_false (contains x (destinations_of vni dests))
            ∙ ap (λ v. listed v dests) e
            ∙ ap (listed x.vni) (sym here)
        | inr other ↦
            let there : or_default x.vni ((vni, dests) ∷ m) ≡ or_default x.vni m =
              or_default-head x.vni vni dests m ∙ rw (other) refl in
            both
            ∙ ap (λ b. b || contains x (announcements_of m)) (other_vni x vni dests other)
            ∙ rest
            ∙ ap (listed x.vni) (sym there)
      ]

  get_local_announcements-Distinct :
      (t : RouteTable Net) (vni : Vni)
      → IsTidyTable t
      → Distinct (get_local_announcements t) × Distinct (or_default vni (get_local_announcements t))
  unfolding get_local_announcements or_default
  get_local_announcements-Distinct t vni h = (
    collect_some-Distinct _ t [] tt,
    subst Distinct (sym (or_default-collect _ vni t [] refl refl h.0))
        (collect_some-Distinct _ (or_default vni t) [] tt),
  )

  -- The loop visits exactly the routes of a tidy table that this instance announces.
  pub contains-announced :
      (t : RouteTable Net) (x : Removed Net)
      → IsTidyTable t
      → contains x (announcements_of (get_local_announcements t))
        ≡ next_hop_exists t x.vni x.destination x.next_hop none
  contains-announced t x h =
      let listed = or_default x.destination (or_default x.vni (get_local_announcements t)) in
      let (outer, inner) = get_local_announcements-Distinct t x.vni h in
      contains-announcements_of x (get_local_announcements t) outer
      ∙ contains-destinations_of x x.vni (or_default x.vni (get_local_announcements t)) inner
      ∙ ap (λ b. b && contains x.next_hop listed) (==_self x.vni)
      ∙ contains-get_local_announcements t x.vni x.destination x.next_hop h
