-- ===== src/Netlink/Kernels.antt =====
-- A kernel that lists and deletes its routes, as netlink.rs relies on it, and rules for the requests
-- that clear some of them.
use metalbond_rs.Netlink.Requests.{
  RouteMessage, Rtnetlink, RtError, NetlinkError, Request, pass_on, ◌>>◌, ◌>>=◌, send,
}
use metalbond_rs.Netlink.{family_of}
use metalbond_rs.HashMap.{contains}
use metalbond_rs.HashMap.Sets.{IsNodup}
use metalbond_rs.Types.{IpVersion}
use metalbond_rs.Common.{
  Bool, true, not, ◌&&◌, ◌||◌, ◌==◌, PartialEq, List, map, Result, ok, err, ◌≡◌, refl, sym, ap,
  subst, arith, nat_eq,
}

-- The kernel behind a handle: `routes` are its routes of a version, each once; a dump lists them, and
-- the deletion of one of them succeeds and deletes it alone.
pub record Kernel {Other K : Type 0} ⦃e : PartialEq (RouteMessage Other)⦄
    (handle : Rtnetlink Other K) : Type 0 where
  pub routes : IpVersion → K → List (RouteMessage Other)
  pub dump_routes : (v : IpVersion) (k : K) → handle.dump v k ≡ map ok (routes v k)
  pub routes_nodup : (v : IpVersion) (k : K) → IsNodup (routes v k)
  pub routes_family :
      (v : IpVersion) (k : K) (r : RouteMessage Other)
      → contains r (routes v k) ≡ true
      → r.header.address_family ≡ family_of v
  pub del_result :
      (v : IpVersion) (k : K) (r : RouteMessage Other)
      → contains r (routes v k) ≡ true
      → (handle.del r k).0 ≡ ok tt
  pub del_routes :
      (v w : IpVersion) (k : K) (r s : RouteMessage Other)
      → contains r (routes v k) ≡ true
      → contains s (routes w (handle.del r k).1) ≡ (not (r == s) && contains s (routes w k))

module _ {K : Type 0} where
  pub then_ok :
      {A B : Type 0} (m : Request K A) (n : Request K B) (k : K) (a : A)
      → (m k).0 ≡ ok a
      → (m >> n) k ≡ n (m k).1
  unfolding ◌>>◌ ◌>>=◌
  then_ok m n k a h = ap (λ r. elim r [ ok b ↦ n (m k).1 | err e ↦ (err e, (m k).1) ]) h

  pass_on_ok :
      {A : Type 0} (outcome : Result RtError A × K) (a : A)
      → outcome.0 ≡ ok a
      → pass_on outcome ≡ (ok a, outcome.1)
  pass_on_ok (ok b, after) a h = ground (arith, h)
  pass_on_ok (err e, after) a h = absurd (cc)

  send_ok :
      {A : Type 0} (request : K → Result RtError A × K) (k : K) (a : A)
      → (request k).0 ≡ ok a
      → send request k ≡ (ok a, (request k).1)
  unfolding send
  send_ok request k a h = pass_on_ok (request k) a h

module _ {Other K : Type 0} ⦃e : PartialEq (RouteMessage Other)⦄ {handle : Rtnetlink Other K}
    (kernel : Kernel handle) where
  -- The request is done and leaves exactly the routes that `deleted` does not hold of.
  abbrev pub IsCleared :
      (RouteMessage Other → Bool) → K → Result NetlinkError (Unit {0}) × K → Type 0
  IsCleared deleted k outcome =
      (outcome.0 ≡ ok tt)
      × ((w : IpVersion) (s : RouteMessage Other)
          → contains s (kernel.routes w outcome.1)
            ≡ (not (deleted s) && contains s (kernel.routes w k)))

  pub IsCleared-then :
      (f g : RouteMessage Other → Bool) (m n : Request K (Unit {0})) (k : K)
      → IsCleared f k (m k)
      → IsCleared g (m k).1 (n (m k).1)
      → IsCleared (λ s. f s || g s) k ((m >> n) k)
  IsCleared-then f g m n k h i =
      subst (IsCleared (λ s. f s || g s) k) (sym (then_ok m n k tt h.0))
        (i.0, λ w s. ground (arith, h.1 w s, i.1 w s))

  pub send-IsCleared :
      (v : IpVersion) (k : K) (r : RouteMessage Other)
      → contains r (kernel.routes v k) ≡ true
      → IsCleared (λ s. r == s) k (send (handle.del r) k)
  send-IsCleared v k r h =
      subst (IsCleared (λ s. r == s) k)
        (sym (send_ok (handle.del r) k tt (kernel.del_result v k r h)))
        (refl, λ w s. kernel.del_routes v w k r s h)

  pub same-IsCleared :
      (f g : RouteMessage Other → Bool) (k : K) (outcome : Result NetlinkError (Unit {0}) × K)
      → ((w : IpVersion) (s : RouteMessage Other)
          → contains s (kernel.routes w k) ≡ true
          → f s ≡ g s)
      → IsCleared f k outcome
      → IsCleared g k outcome
  same-IsCleared f g k outcome same h = (h.0, λ w s. ground (arith, h.1 w s, same w s))
