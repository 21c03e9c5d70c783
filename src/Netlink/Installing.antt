-- ===== src/Netlink/Installing.antt =====
-- What netlink.rs installs and removes: the message of a route, the table that it names, and the
-- errors of the kernel.
use metalbond_rs.Netlink.Requests.{
  RtError, RouteMessage, RouteAttribute, Rtnetlink, Request, NetlinkError, send, pass_on, pure,
  bail,
}
use metalbond_rs.Netlink.{
  NetlinkClient, is_metalbond_route, output_interface, output_interface_of, build_route_message,
  route_request, add_route, remove_route, after_deletion,
}
use metalbond_rs.Types.{Vni, IpAddr, Ipnet, Destination, NextHop}
use metalbond_rs.Common.{
  ℕ, ◌%◌, ◌^◌, false, ◌&&◌, Option, none, some, List, [], ◌∷◌, ◌++◌, Result, ok, err, ℤ, pos,
  negsuc, as_unsigned, is_positive, nat_beq, ◌≡◌, refl, sym, ap, ◌∙◌, arith, Result-cases,
  Option-cases, inl, inr,
}

output_interface_append :
    {Other : Type 0} (xs ys : List (RouteAttribute Other))
    → output_interface_of xs ≡ none
    → output_interface_of (xs ++ ys) ≡ output_interface_of ys
unfolding output_interface_of
output_interface_append [] ys h = refl
output_interface_append (RouteAttribute.oif n ∷ xs) ys h = absurd (cc)
output_interface_append (RouteAttribute.destination a ∷ xs) ys h = output_interface_append xs ys h
output_interface_append (RouteAttribute.gateway a ∷ xs) ys h = output_interface_append xs ys h
output_interface_append (RouteAttribute.other o ∷ xs) ys h = output_interface_append xs ys h

ok_not_err : {E A : Type 0} (a : A) (x : E) → ¬ (Path (Result E A) (ok a) (err x))
ok_not_err a x e = cc

low_byte : (m : ℕ) → m % 2 ^ 32 % 2 ^ 8 ≡ m % 2 ^ 8
low_byte m = omega arith

module _ {K : Type 0} where
  -- A request that is passed on succeeds only if the kernel grants it.
  granted :
      (outcome : Result RtError (Unit {0}) × K)
      → (pass_on outcome).0 ≡ ok tt
      → (outcome.0 ≡ ok tt) × ((pass_on outcome).1 ≡ outcome.1)
  granted (ok a, after) h = (refl, refl)
  granted (err e, after) h = absurd (cc)

  -- A deletion that is refused with no positive code is refused to the caller.
  refused :
      (outcome : Result RtError (Unit {0}) × K)
      → ((code : ℤ)
          → outcome.0 ≡ err (RtError.netlink_error (some code))
          → is_positive code ≡ false)
      → (after_deletion outcome.0, outcome.1) ≡ pass_on outcome
  unfolding after_deletion
  refused (ok a, after) h = refl
  refused (err (RtError.netlink_error none), after) h = refl
  refused (err (RtError.netlink_error (some (negsuc n))), after) h = refl
  refused (err (RtError.netlink_error (some (pos n))), after) h = ground (arith, h (pos n) refl)
  refused (err RtError.unexpected_message, after) h = refl
  refused (err RtError.bad_request, after) h = refl
  refused (err RtError.namespace_error, after) h = refl
  refused (err RtError.other, after) h = refl

module _ {Other K : Type 0} where
  -- Requests of a kernel that takes back an addition: the deletion of the message that has just been
  -- added succeeds and gives the state before it.
  abbrev pub IsReversible : Rtnetlink Other K → Type 0
  IsReversible handle =
      (r : RouteMessage Other) (k : K)
      → (handle.add r k).0 ≡ ok tt
      → handle.del r (handle.add r k).1 ≡ (ok tt, k)

  -- The kernel's error codes are negative errnos, as netlink documents them.
  abbrev pub HasErrnoCodes : Rtnetlink Other K → Type 0
  HasErrnoCodes handle =
      (r : RouteMessage Other) (k : K) (code : ℤ)
      → (handle.del r k).0 ≡ err (RtError.netlink_error (some code))
      → is_positive code ≡ false

module _ {Net Other K : Type 0} ⦃i : Ipnet Net⦄ where
  -- If a blank message has no output interface, a clearing of table `m` on an interface deletes the
  -- route that the client builds for table `n` if and only if `m` and `n` agree modulo 2 ^ 8 and the
  -- interface is the client's: a route is cleared with its own table, and with every other table
  -- whose number has the same low byte.
  pub is_metalbond_route-build_route_message :
      (client : NetlinkClient Other K) (dest : Destination Net) (nexthop_ip : IpAddr) (m n link : ℕ)
      → output_interface client.handle.default_message ≡ none
      → is_metalbond_route
          (as_unsigned 32 (pos m))
          link
          (build_route_message client (pos n) dest nexthop_ip)
        ≡ (nat_beq (n % 2 ^ 8) (m % 2 ^ 8) && nat_beq client.tun_index link)
  unfolding is_metalbond_route build_route_message output_interface output_interface_of
  is_metalbond_route-build_route_message client dest nexthop_ip m n link blank =
      rw
        (
          output_interface_append client.handle.default_message.attributes _ blank,
          is_metalbond_route,
          output_interface,
          build_route_message,
        )
        (rw (low_byte m) (ground arith))

  add_route_sent :
      (client : NetlinkClient Other K) (vni : Vni) (dest : Destination Net) (nexthop : NextHop)
      {m : RouteMessage Other} (k : K)
      → route_request client vni dest nexthop ≡ ok (some m)
      → add_route client vni dest nexthop k ≡ send (client.handle.add m) k
  unfolding add_route
  add_route_sent client vni dest nexthop k e = rw (e, add_route) refl

  add_route_refused :
      (client : NetlinkClient Other K) (vni : Vni) (dest : Destination Net) (nexthop : NextHop)
      {x : NetlinkError} (k : K)
      → route_request client vni dest nexthop ≡ err x
      → (add_route client vni dest nexthop k).0 ≡ err x
  unfolding add_route bail
  add_route_refused client vni dest nexthop k e = rw (e, add_route) refl

  -- If the kernel takes back additions, then whatever the route, `remove_route` directly after a
  -- successful `add_route` of the same arguments succeeds and restores the kernel's state: both skip
  -- the same routes and send the same message for the others.
  pub remove_route-add_route :
      (client : NetlinkClient Other K) (vni : Vni) (dest : Destination Net) (nexthop : NextHop)
      (k : K)
      → IsReversible client.handle
      → (add_route client vni dest nexthop k).0 ≡ ok tt
      → remove_route client vni dest nexthop (add_route client vni dest nexthop k).1 ≡ (ok tt, k)
  unfolding remove_route add_route pure bail after_deletion
  remove_route-add_route client vni dest nexthop k reversible added =
      elim (Result-cases (route_request client vni dest nexthop)) [
        | inl (o, e) ↦ elim (Option-cases o) [
          | inl skipped ↦ rw (e ∙ ap ok skipped, add_route, remove_route) refl
          | inr (m, sent) ↦
              let to_kernel : add_route client vni dest nexthop k ≡ send (client.handle.add m) k =
                add_route_sent client vni dest nexthop k (e ∙ ap ok sent) in
              let sent_out =
                granted (client.handle.add m k) (ap (λ p. p.0) (sym to_kernel) ∙ added) in
              rw (to_kernel, sent_out.1)
                (rw (e ∙ ap ok sent, remove_route, reversible m k sent_out.0) refl)
        ]
        | inr (x, e) ↦
            absurd (ok_not_err tt x (sym added ∙ add_route_refused client vni dest nexthop k e))
      ]

  -- The deletion of a route with every error passed on, as `add_route` passes them on.
  unfoldable pub deletion_request :
      NetlinkClient Other K → Vni → Destination Net → NextHop → Request K (Unit {0})
  deletion_request client vni dest nexthop = elim (route_request client vni dest nexthop) [
    | err e ↦ bail e
    | ok none ↦ pure tt
    | ok (some m) ↦ send (client.handle.del m)
  ]

  -- If the error codes of the kernel are negative, `remove_route` passes every error of the kernel
  -- on: it is the request of the deletion as it is, and the tolerance of `ENOENT` never applies.
  pub remove_route_passes_errors :
      (client : NetlinkClient Other K) (vni : Vni) (dest : Destination Net) (nexthop : NextHop)
      (k : K)
      → HasErrnoCodes client.handle
      → remove_route client vni dest nexthop k ≡ deletion_request client vni dest nexthop k
  unfolding remove_route deletion_request after_deletion send pure bail
  remove_route_passes_errors client vni dest nexthop k negative =
      by_request (route_request client vni dest nexthop) refl
    where
      by_request :
          (r : Result NetlinkError (Option (RouteMessage Other)))
          → route_request client vni dest nexthop ≡ r
          → remove_route client vni dest nexthop k ≡ deletion_request client vni dest nexthop k
      by_request (err x) e = rw (e, remove_route, deletion_request) refl
      by_request (ok none) e = rw (e, remove_route, deletion_request) refl
      by_request (ok (some m)) e =
          rw (e, remove_route, deletion_request) (refused (client.handle.del m k) (negative m k))
