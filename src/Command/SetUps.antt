-- ===== src/Command/SetUps.antt =====
-- What a client of main.rs has announced and subscribed to when its set-up has ended.
use metalbond_rs.Command.Readers.{Text, AddrText}
use metalbond_rs.Command.{
  Turns, SetUp, ready, stuck, invalid_argument, failed, go_on, add_peers, subscribe_all,
  announce_all, read_announcement, with_keepalive,
}
use metalbond_rs.Command.Announcing.{
  announces, IsSame, IsAside, go_on_ready, is_route_announced-announce_all,
}
use metalbond_rs.Command.Programs.{ClientArgs, Meanwhile, set_up_client, new_metalbond, next_loop}
use metalbond_rs.Types.{InternalUpdate, Vni, SocketAddr, Ipnet, Destination, NextHop}
use metalbond_rs.Wire.{Prost}
use metalbond_rs.RouteTable.{next_hop_exists}
use metalbond_rs.State.{Peer, MetalBondState, new_state}
use metalbond_rs.State.Actions.{Done}
use metalbond_rs.HashMap.{get, contains}
use metalbond_rs.MetalBond.{
  Outcome, Node, success, failure, blocked, subscribe, add_peer, announce_route, is_route_announced,
}
use metalbond_rs.MetalBond.Distributor.{
  notify, notify_all, client_call, distribute, peers_to_notify,
}
use metalbond_rs.MetalBond.Delivery.{notify_mb}
use metalbond_rs.MetalBond.Relay.{next_update}
use metalbond_rs.MetalBond.Operations.{contains-subscribe, subscribe_keeps, announce_route_keeps}
use metalbond_rs.Common.{
  ℕ, Bool, false, ◌||◌, Option-cases, List, [], ◌∷◌, ◌++◌, length, nat_eq, Result-cases, ◌≡◌, refl,
  sym, ap, ◌∙◌, arith, inl, inr,
}

module _ {Net : Type 0} where
  add_peer_keeps :
      (addr : SocketAddr) (handle : ℕ) (n : Node Net) → IsSame (add_peer addr handle n).1.mb n.mb
  unfolding add_peer
  add_peer_keeps addr handle n = ground arith

  IsSame-then : (a b c : MetalBondState Net) → IsSame a b → IsSame b c → IsSame a c
  IsSame-then a b c h k = (h.0 ∙ k.0, h.1 ∙ k.1, h.2 ∙ k.2)

  -- When the loop over the subscriptions ends without an error, the client is subscribed to the VNIs
  -- of before and those of the loop, and announces what it did.
  subscribe_all-result :
      (others : Turns Net) (clears : Vni → Bool) (vnis : List Vni) (n : Node Net) (vni : Vni)
      → IsAside others
      → n.mb.is_server ≡ false
      → (subscribe_all others clears vnis n).0 ≡ ready
      → ((subscribe_all others clears vnis n).1.mb.my_announcements ≡ n.mb.my_announcements)
        × (contains vni (subscribe_all others clears vnis n).1.mb.my_subscriptions
            ≡ (contains vni vnis || contains vni n.mb.my_subscriptions))
  unfolding subscribe_all contains
  subscribe_all-result others clears [] n vni aside is_client done = (refl, refl)
  subscribe_all-result others clears (v ∷ vnis) n vni aside is_client done =
      let m : Node Net = others (length vnis) n in
      let same = aside (length vnis) n in
      let first : Outcome Done × Node Net = subscribe clears v m in
      let kept = subscribe_keeps clears v m in
      let whole : go_on first (subscribe_all others clears vnis)
          ≡ subscribe_all others clears vnis first.1 =
        go_on_ready first (subscribe_all others clears vnis) done in
      let rest =
        subscribe_all-result others clears vnis first.1 vni aside (kept.0 ∙ same.0 ∙ is_client)
          (ap (λ p. p.0) (sym whole) ∙ done) in
      rw (whole) (
        rest.0 ∙ kept.1 ∙ same.1,
        rest.1 ∙ rw (contains-subscribe clears v vni m (same.0 ∙ is_client), same.2) (ground arith),
      )

  notify_all_keeps :
      ⦃i : Ipnet Net⦄ ⦃prost : Prost⦄ (u : InternalUpdate Net) (ks : List ℕ) (n : Node Net)
      → (notify_all u ks n).mb ≡ n.mb
  unfolding notify_all
  notify_all_keeps u [] n = refl
  notify_all_keeps u (k ∷ ks) n = notify_all_keeps u ks (notify u k n) ∙ notify_mb u k n

  distribute_keeps :
      ⦃i : Ipnet Net⦄ ⦃prost : Prost⦄ (u : InternalUpdate Net) (n : Node Net)
      → (distribute u n).mb ≡ n.mb
  unfolding distribute
  distribute_keeps u n = elim (Option-cases (get u.vni n.mb.subscribers)) [
    | inl e ↦ rw (e, distribute) refl
    | inr (addrs, e) ↦
        rw (e, distribute)
          (notify_all_keeps u (peers_to_notify n.mb.peers addrs)
            (record n { client_calls = n.client_calls ++ client_call u.action u ∷ [] }))
  ]

  -- A round of the distributor before each operation.
  pub next_update-IsAside :
      ⦃i : Ipnet Net⦄ ⦃prost : Prost⦄ → IsAside (λ (k : ℕ) (n : Node Net). next_update n)
  unfolding next_update
  next_update-IsAside k n = after n.mb.route_updates
    where
      after :
          (queued : List (InternalUpdate Net))
          → IsSame
              (elim queued as (λ us. Node Net) [
                | [] ↦ n
                | u ∷ us ↦ distribute u (record n { mb = record (n.mb) { route_updates = us } })
              ]).mb
              n.mb
      after [] = (refl, refl, refl)
      after (u ∷ us) =
          rw (distribute_keeps u (record n { mb = record (n.mb) { route_updates = us } }))
            (refl, refl, refl)

  go_on-keeps :
      (P : Node Net → Type 0) (p : Outcome Done × Node Net) (next : Node Net → SetUp × Node Net)
      → P p.1
      → ((n : Node Net) → P n → P (next n).1)
      → P (go_on p next).1
  go_on-keeps P (success _, n) next h f = f n h
  go_on-keeps P (failure e, n) next h f = h
  go_on-keeps P (blocked, n) next h f = h

  next_loop_ready :
      (p : SetUp × Node Net) (next : Node Net → SetUp × Node Net)
      → (next_loop p next).0 ≡ ready
      → (p.0 ≡ ready) × (next_loop p next ≡ next p.1)
  next_loop_ready (ready, n) next h = (refl, refl)
  next_loop_ready (stuck, n) next h = absurd (cc)
  next_loop_ready (invalid_argument e, n) next h = absurd (cc)
  next_loop_ready (failed e, n) next h = absurd (cc)

module _ {Net : Type 0} ⦃i : Ipnet Net⦄ ⦃prost : Prost⦄ ⦃text : AddrText Net⦄ where
  add_peers_keeps :
      (others : Turns Net) (servers : List (Text × ℕ)) (n : Node Net)
      → IsAside others
      → IsSame (add_peers others servers n).mb n.mb
  unfolding add_peers
  add_peers_keeps others [] n aside = (refl, refl, refl)
  add_peers_keeps others ((server_addr, handle) ∷ servers) n aside =
      let m : Node Net = others (length servers) n in
      let same = aside (length servers) n in
      let next = λ (m' : Node Net) (h : IsSame m'.mb m.mb).
        IsSame-then (add_peers others servers m').mb m'.mb n.mb
          (add_peers_keeps others servers m' aside) (IsSame-then m'.mb m.mb n.mb h same) in
      elim (Option-cases (text.socket_from_str server_addr)) [
        | inl e ↦ rw (e, add_peers) (next m (refl, refl, refl))
        | inr (addr, e) ↦
            rw (e, add_peers) (next (add_peer addr handle m).1 (add_peer_keeps addr handle m))
      ]

  -- The loop over the announcements leaves the subscriptions as they were.
  announce_all_keeps :
      (others : Turns Net) (texts : List Text) (n : Node Net)
      → IsAside others
      → (announce_all others texts n).1.mb.my_subscriptions ≡ n.mb.my_subscriptions
  unfolding announce_all
  announce_all_keeps others [] n aside = refl
  announce_all_keeps others (ann_str ∷ rest) n aside =
      let m : Node Net = others (length rest) n in
      let same = (aside (length rest) n).2 in
      elim (Result-cases (read_announcement {Net = Net} ann_str)) [
        | inl (a, e) ↦
            rw (e, announce_all)
              (go_on-keeps (λ m'. m'.mb.my_subscriptions ≡ n.mb.my_subscriptions)
                (announce_route a.vni a.destination a.next_hop m) (announce_all others rest)
                (announce_route_keeps a.vni a.destination a.next_hop m ∙ same)
                (λ m' h. announce_all_keeps others rest m' aside ∙ h))
        | inr (x, e) ↦ rw (e, announce_all) same
      ]

  none_announced :
      (n : Node Net) (vni : Vni) (dest : Destination Net) (nh : NextHop)
      → n.mb.my_announcements ≡ []
      → is_route_announced vni dest nh n ≡ false
  unfolding is_route_announced next_hop_exists
  none_announced n vni dest nh e = rw (e, is_route_announced) refl

  -- When the set-up of a client ends without an error, the client announces exactly the routes that
  -- the texts of `--announce` say and is subscribed to exactly the VNIs of `--subscribe`, whatever the
  -- other tasks do meanwhile that leaves its own routes and subscriptions as they are.
  pub set_up_client-result :
      (others : Meanwhile Net) (clears : Vni → Bool) (args : ClientArgs) (heap : ℕ → Peer)
      (vni : Vni) (dest : Destination Net) (nh : NextHop)
      → IsAside others.adding × IsAside others.subscribing × IsAside others.announcing
      → (set_up_client {Net = Net} others clears args heap).0 ≡ ready
      → (is_route_announced vni dest nh (set_up_client others clears args heap).1
          ≡ announces args.announce vni dest nh)
        × (contains vni (set_up_client {Net = Net} others clears args heap).1.mb.my_subscriptions
            ≡ contains vni args.subscribe)
  unfolding set_up_client new_metalbond new_state contains
  set_up_client-result others clears args heap vni dest nh aside done =
      let start : Node Net = new_metalbond heap (with_keepalive args.keepalive) false in
      let peers : Node Net = add_peers others.adding args.server start in
      let subscribed : SetUp × Node Net =
        subscribe_all others.subscribing clears args.subscribe peers in
      let kept = add_peers_keeps others.adding args.server start aside.0 in
      let (all_subscribed, whole) =
        next_loop_ready subscribed (announce_all others.announcing args.announce) done in
      let before =
        subscribe_all-result others.subscribing clears args.subscribe peers vni aside.1 kept.0
          all_subscribed in
      let announced =
        is_route_announced-announce_all others.announcing args.announce subscribed.1 vni dest nh
          aside.2 (ap (λ p. p.0) (sym whole) ∙ done) in
      let nothing = none_announced subscribed.1 vni dest nh (before.0 ∙ kept.1) in
      rw (whole) (
        announced ∙ rw (nothing) (ground arith),
        ap (contains vni) (announce_all_keeps others.announcing args.announce subscribed.1 aside.2)
            ∙ before.1
            ∙ rw (kept.2) (ground arith),
      )
