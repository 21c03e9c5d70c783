-- ===== src/MetalBond/Installs.antt =====
-- The distributor of metalbond.rs with the client of netlink.rs: the routes of the operating system
-- after the calls that its rounds make.
use metalbond_rs.Client.{Client, netlink_client, perform}
use metalbond_rs.Netlink.{NetlinkClient, add_route, remove_route}
use metalbond_rs.Netlink.Installing.{IsReversible, remove_route-add_route}
use metalbond_rs.HashMap.{get}
use metalbond_rs.Types.{Vni, Ipnet, Destination, NextHop, UpdateAction, InternalUpdate, PeerKey}
use metalbond_rs.Wire.{Prost}
use metalbond_rs.MetalBond.{ClientCall, Node, on_peer}
use metalbond_rs.MetalBond.Distributor.{
  distribute, notify_all, notify, client_call, peers_to_notify,
}
use metalbond_rs.Common.{
  ℕ, List, [], ◌∷◌, ◌++◌, ok, ◌≡◌, refl, ap, ◌∙◌, if◌then◌else◌, Bool, true, false, Option-cases,
  inl, inr, nat_eq,
}

module _ {Net K : Type 0} where
  -- The calls of a longer history are performed after those of a shorter one.
  perform-append :
      (client : Client Net K) (xs ys : List (ClientCall Net)) (k : K)
      → perform client (xs ++ ys) k ≡ perform client ys (perform client xs k)
  unfolding perform
  perform-append client [] ys k = refl
  perform-append client (ClientCall.add_route v d h ∷ xs) ys k = perform-append client xs ys _
  perform-append client (ClientCall.remove_route v d h ∷ xs) ys k = perform-append client xs ys _
  perform-append client (ClientCall.clear_routes_for_vni v ∷ xs) ys k =
      perform-append client xs ys _

module _ {Net : Type 0} ⦃i : Ipnet Net⦄ ⦃prost : Prost⦄ where
  if_calls :
      (b : Bool) (m n : Node Net)
      → m.client_calls ≡ n.client_calls
      → (if b then n else m).client_calls ≡ n.client_calls
  if_calls true m n e = refl
  if_calls false m n e = e

  notify_all-client_calls :
      (u : InternalUpdate Net) (ks : List ℕ) (n : Node Net)
      → (notify_all u ks n).client_calls ≡ n.client_calls
  unfolding notify_all notify on_peer
  notify_all-client_calls u [] n = refl
  notify_all-client_calls u (k ∷ ks) n =
      notify_all-client_calls u ks (notify u k n) ∙ if_calls _ _ n refl

  distribute-client_calls :
      (u : InternalUpdate Net) (n : Node Net)
      → (distribute u n).client_calls ≡ n.client_calls ++ client_call u.action u ∷ []
  unfolding distribute
  distribute-client_calls u n =
      let calls : List (ClientCall Net) = n.client_calls ++ client_call u.action u ∷ [] in
      elim (Option-cases (get u.vni n.mb.subscribers)) [
        | inl e ↦ rw (e, distribute) refl
        | inr (addrs, e) ↦
            rw (e, distribute)
              (notify_all-client_calls u (peers_to_notify n.mb.peers addrs)
                (record n { client_calls = calls }))
      ]

-- An update of a route, from any source.
abbrev pub route_update :
    {Net : Type 0} → UpdateAction → Vni → Destination Net → NextHop → PeerKey → InternalUpdate Net
route_update action vni dest nh source = record {
  action = action;
  vni = vni;
  destination = dest;
  next_hop = nh;
  source_peer = source;
}

module _ {Net Other K : Type 0} ⦃i : Ipnet Net⦄ ⦃prost : Prost⦄
    (client : NetlinkClient Other K) where
  -- The state of the kernel after the calls that a node has made.
  abbrev pub kernel_after : Node Net → K → K
  kernel_after n k = perform (netlink_client client) n.client_calls k

  -- One more round of the distributor performs one more call.
  kernel_after-distribute :
      (u : InternalUpdate Net) (n : Node Net) (k : K)
      → kernel_after (distribute u n) k
        ≡ perform (netlink_client client) (client_call u.action u ∷ []) (kernel_after n k)
  kernel_after-distribute u n k =
      ap (λ calls. perform (netlink_client client) calls k) (distribute-client_calls u n)
      ∙ perform-append (netlink_client client) n.client_calls (client_call u.action u ∷ []) k

  -- If the kernel takes back additions and grants the addition of the route, then the rounds of the
  -- distributor for an ADD and the REMOVE of the same route after it, from whatever sources, leave the
  -- routes of the kernel as they were.
  pub distribute-add-remove :
      (vni : Vni) (dest : Destination Net) (nh : NextHop) (p q : PeerKey) (n : Node Net) (k : K)
      → IsReversible client.handle
      → (add_route client vni dest nh (kernel_after n k)).0 ≡ ok tt
      → kernel_after
          (distribute
            (route_update UpdateAction.remove vni dest nh q)
            (distribute (route_update UpdateAction.add vni dest nh p) n))
          k
        ≡ kernel_after n k
  unfolding perform netlink_client client_call
  distribute-add-remove vni dest nh p q n k reversible added =
      let added_once : Node Net = distribute (route_update UpdateAction.add vni dest nh p) n in
      kernel_after-distribute (route_update UpdateAction.remove vni dest nh q) added_once k
      ∙ ap (λ s. (remove_route client vni dest nh s).1)
          (kernel_after-distribute (route_update UpdateAction.add vni dest nh p) n k)
      ∙ ap (λ r. r.1)
          (remove_route-add_route client vni dest nh (kernel_after n k) reversible added)
