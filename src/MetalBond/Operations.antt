-- ===== src/MetalBond/Operations.antt =====
-- `subscribe`, `unsubscribe`, `announce_route` and `withdraw_route` of metalbond.rs: the subscriptions
-- and the announced routes after them.
use metalbond_rs.HashMap.{values, contains, set_insert, set_remove}
use metalbond_rs.HashMap.Sets.{contains-erase}
use metalbond_rs.Types.{
  Vni, Ipnet, Destination, NextHop, UpdateAction, InternalUpdate, peer_key_eq, socket_addr_eq,
}
use metalbond_rs.RouteTable.{
  RouteTable, RouteResult, ok, err, add_next_hop, remove_next_hop, next_hop_exists,
}
use metalbond_rs.RouteTable.Updates.{
  same_route, next_hop_exists-add_next_hop, next_hop_exists-remove_next_hop,
}
use metalbond_rs.Wire.{Prost}
use metalbond_rs.State.{MetalBondState}
use metalbond_rs.State.Actions.{M, Done}
use metalbond_rs.Peer.{send_subscribe, send_unsubscribe}
use metalbond_rs.MetalBond.{
  Node, on_peer, on_peers, queue_update, connected, subscribe, unsubscribe, is_route_announced,
  local_update, announce_route, after_withdrawal, withdraw_route,
}
use metalbond_rs.Common.{
  ℕ, Bool, false, not, ◌&&◌, ◌||◌, none, List, [], ◌∷◌, nat_beq, nat_beq_iff, ◌==◌, ◌≡◌, refl, ap,
  ◌∙◌, arith, nat_eq, Bool-cases, inl, inr,
}

module _ {Net : Type 0} where
  pub queue_update_keeps :
      (u : InternalUpdate Net) (mb : MetalBondState Net)
      → ((queue_update u mb).1.my_announcements ≡ mb.my_announcements)
        × ((queue_update u mb).1.route_table ≡ mb.route_table)
  unfolding queue_update
  queue_update_keeps u mb = ground arith

  on_peers_keeps : (m : M Net Done) (ks : List ℕ) (n : Node Net) → (on_peers m ks n).mb ≡ n.mb
  unfolding on_peers on_peer
  on_peers_keeps m [] n = refl
  on_peers_keeps m (k ∷ ks) n = on_peers_keeps m ks (on_peer m k n)

  -- After `subscribe` of a client, whatever it answers, exactly the VNI and those of before are
  -- subscribed.
  pub contains-subscribe :
      (clears : Vni → Bool) (vni vni' : Vni) (n : Node Net)
      → n.mb.is_server ≡ false
      → contains vni' (subscribe clears vni n).1.mb.my_subscriptions
        ≡ (vni == vni' || contains vni' n.mb.my_subscriptions)
  unfolding subscribe set_insert
  contains-subscribe clears vni vni' n client =
      elim (Bool-cases (contains vni n.mb.my_subscriptions)) [
        | inl old ↦ rw (client, old) (ground (arith, nat_beq_iff vni vni', old))
        | inr fresh ↦
            rw (client, fresh)
              (ap (λ mb. contains vni' mb.my_subscriptions)
                  (on_peers_keeps (send_subscribe vni) (connected n.heap (values n.mb.peers)) _)
                ∙ refl)
      ]

  -- What `subscribe` leaves as it was.
  pub subscribe_keeps :
      (clears : Vni → Bool) (vni : Vni) (n : Node Net)
      → ((subscribe clears vni n).1.mb.is_server ≡ n.mb.is_server)
        × ((subscribe clears vni n).1.mb.my_announcements ≡ n.mb.my_announcements)
  unfolding subscribe set_insert
  subscribe_keeps clears vni n =
      let kept = on_peers_keeps (send_subscribe vni) (connected n.heap (values n.mb.peers)) in
      elim (Bool-cases n.mb.is_server) [
        | inl server ↦ rw (server) (refl, refl)
        | inr client ↦ elim (Bool-cases (contains vni n.mb.my_subscriptions)) [
          | inl old ↦ rw (client, old) (refl, refl)
          | inr fresh ↦
              rw (client, fresh)
                (ap (λ mb. mb.is_server) (kept _), ap (λ mb. mb.my_announcements) (kept _))
        ]
      ]

  -- After `unsubscribe` of a client, whatever it answers, exactly the VNIs of before less this one are
  -- subscribed.
  pub contains-unsubscribe :
      (clears : Vni → Bool) (vni vni' : Vni) (n : Node Net)
      → n.mb.is_server ≡ false
      → contains vni' (unsubscribe clears vni n).1.mb.my_subscriptions
        ≡ (not (vni == vni') && contains vni' n.mb.my_subscriptions)
  unfolding unsubscribe set_remove
  contains-unsubscribe clears vni vni' n client =
      elim (Bool-cases (contains vni n.mb.my_subscriptions)) [
        | inl old ↦
            rw (client, old)
              (ap (λ mb. contains vni' mb.my_subscriptions)
                  (on_peers_keeps (send_unsubscribe vni) (connected n.heap (values n.mb.peers)) _)
                ∙ contains-erase vni' vni n.mb.my_subscriptions)
        | inr absent ↦ rw (client, absent) (ground (arith, nat_beq_iff vni vni', absent))
      ]

module _ {Net : Type 0} ⦃i : Ipnet Net⦄ ⦃prost : Prost⦄ where
  -- After `announce_route`, whether it succeeds, fails or blocks, exactly the route and those of before
  -- are announced by this instance.
  pub is_route_announced-announce_route :
      (vni : Vni) (dest : Destination Net) (nh : NextHop) (vni' : Vni) (dest' : Destination Net)
      (nh' : NextHop) (n : Node Net)
      → is_route_announced vni' dest' nh' (announce_route vni dest nh n).1
        ≡ (same_route vni dest nh none vni' dest' nh' none || is_route_announced vni' dest' nh' n)
  unfolding is_route_announced announce_route
  is_route_announced-announce_route vni dest nh vni' dest' nh' n =
      let t : RouteTable Net = (add_next_hop n.mb.my_announcements vni dest nh none).0 in
      ap (λ a. next_hop_exists a vni' dest' nh' none)
        (queue_update_keeps (local_update UpdateAction.add vni dest nh)
          (record (n.mb) { my_announcements = t })).0
      ∙ next_hop_exists-add_next_hop n.mb.my_announcements vni dest nh none vni' dest' nh' none

  -- `announce_route` leaves the subscriptions as they were.
  pub announce_route_keeps :
      (vni : Vni) (dest : Destination Net) (nh : NextHop) (n : Node Net)
      → (announce_route vni dest nh n).1.mb.my_subscriptions ≡ n.mb.my_subscriptions
  unfolding announce_route queue_update
  announce_route_keeps vni dest nh n = ground arith

  after_withdrawal_keeps :
      (u : InternalUpdate Net) (r : RouteResult) (mb : MetalBondState Net)
      → (after_withdrawal u r mb).1.my_announcements ≡ mb.my_announcements
  unfolding after_withdrawal
  after_withdrawal_keeps u (err e) mb = refl
  after_withdrawal_keeps u (ok remaining) mb = elim (Bool-cases (nat_beq remaining 0)) [
    | inl last ↦ rw (last) ((queue_update_keeps u mb).0)
    | inr left ↦ rw (left) refl
  ]

  withdraw_route-my_announcements :
      (vni : Vni) (dest : Destination Net) (nh : NextHop) (n : Node Net)
      → (withdraw_route vni dest nh n).1.mb.my_announcements
        ≡ (remove_next_hop n.mb.my_announcements vni dest nh none).0
  unfolding withdraw_route
  withdraw_route-my_announcements vni dest nh n =
      let r : RouteTable Net × RouteResult =
        remove_next_hop n.mb.my_announcements vni dest nh none in
      after_withdrawal_keeps (local_update UpdateAction.remove vni dest nh) r.1
        (record (n.mb) { my_announcements = r.0 })

  -- After `withdraw_route`, whatever it answers, exactly the routes of before less this one are
  -- announced by this instance.
  pub is_route_announced-withdraw_route :
      (vni : Vni) (dest : Destination Net) (nh : NextHop) (vni' : Vni) (dest' : Destination Net)
      (nh' : NextHop) (n : Node Net)
      → is_route_announced vni' dest' nh' (withdraw_route vni dest nh n).1 ≡ (
          not (same_route vni dest nh none vni' dest' nh' none)
          && is_route_announced vni' dest' nh' n)
  unfolding is_route_announced
  is_route_announced-withdraw_route vni dest nh vni' dest' nh' n =
      ap (λ a. next_hop_exists a vni' dest' nh' none)
        (withdraw_route-my_announcements vni dest nh n)
      ∙ next_hop_exists-remove_next_hop n.mb.my_announcements vni dest nh none vni' dest' nh' none
