-- ===== src/Peer/Subscribers.antt =====
-- `process_subscribe` of peer.rs: who is subscribed afterwards, in the shared state and in the peer.
use metalbond_rs.HashMap.{HashMap, HashSet, insert, contains, set_insert, or_default}
use metalbond_rs.HashMap.Laws.{or_default-insert}
use metalbond_rs.HashMap.Sets.{contains-set_insert}
use metalbond_rs.Types.{Vni, SocketAddr, Ipnet, socket_addr_eq}
use metalbond_rs.RouteTable.{get_destinations_by_vni_with_peer}
use metalbond_rs.Wire.{Prost, Subscription}
use metalbond_rs.Codec.{GeneratedMessage}
use metalbond_rs.State.{peer_tx_buffer_size}
use metalbond_rs.State.Actions.{
  World, M, Done, pure, ◌>>=◌, gets, change, change_peer, when◌then◌else◌, lock_read, drop_read,
  lock_write, drop_write, reading, for_each,
}
use metalbond_rs.State.Runs.{bind_done, then_done}
use metalbond_rs.Peer.{
  Source, sources_of, send_message, send_update, trigger_shutdown, change_remote_subs,
}
use metalbond_rs.Peer.Handlers.{add_subscriber, offer_route, process_subscribe}
use metalbond_rs.Peer.Keeps.{
  Keeps, keeps_bind, keeps_pure, keeps_when, keeps_for_each, keeps_reading, keeps_on_fail,
}
use metalbond_rs.Peer.Sound.{if_rule}
use metalbond_rs.Common.{
  Bool, true, false, not, ◌&&◌, ◌||◌, ltb, leb, length, ◌==◌, if◌then◌else◌, ◌≡◌, refl, sym, ap,
  subst, ◌∙◌, arith, nat_eq, nat_beq_iff,
}

module _ {Net : Type 0} ⦃i : Ipnet Net⦄ ⦃prost : Prost⦄ where
  -- The subscriptions that a world records on both sides.
  abbrev pub Recorded : HashMap Vni (HashSet SocketAddr) → HashSet Vni → World Net → Type 0
  Recorded subscribers vnis w =
      (w.mb.subscribers ≡ subscribers) × (w.peer.subscribed_vnis_remote ≡ vnis)

  module _ (subscribers : HashMap Vni (HashSet SocketAddr)) (vnis : HashSet Vni) where
    send-Recorded : (m : GeneratedMessage) → Keeps (Recorded subscribers vnis) (send_message m)
    unfolding send_message
    send-Recorded m = record {
      at = λ w h.
          if_rule (Recorded subscribers vnis) (not w.peer.tx_open) _ _ (λ _. h)
            λ _.
              if_rule (Recorded subscribers vnis) (leb peer_tx_buffer_size (length w.peer.tx_queue))
                _ _ (λ _. h) (λ _. h);
    }

    offer-Recorded :
        (addr : SocketAddr) (vni : Vni) (r : Source Net)
        → Keeps (Recorded subscribers vnis) (offer_route addr vni r)
    unfolding offer_route send_update trigger_shutdown change_peer
    offer-Recorded addr vni r =
        keeps_when _ _ _ (keeps_on_fail _ _ (send-Recorded _) (record { at = λ w h. h }))
          (keeps_pure tt)

    pub read-Recorded : Keeps {Net = Net} (Recorded subscribers vnis) lock_read
    unfolding lock_read
    read-Recorded = record {
      at = λ w h. if_rule (Recorded subscribers vnis) w.writer _ _ (λ _. h) (λ _. h);
    }

    pub end_read-Recorded : Keeps {Net = Net} (Recorded subscribers vnis) drop_read
    unfolding drop_read
    end_read-Recorded = record { at = λ w h. h }

    routes-Recorded :
        (addr : SocketAddr) (vni : Vni)
        → Keeps (Recorded subscribers vnis) (
            reading (λ mb. get_destinations_by_vni_with_peer mb.route_table vni) >>= λ routes.
            for_each (offer_route addr vni) (sources_of routes))
    routes-Recorded addr vni =
        keeps_bind _ _ (keeps_reading _ read-Recorded end_read-Recorded)
          λ routes. keeps_for_each _ _ (offer-Recorded addr vni)

  -- The world that has recorded the subscription on both sides.
  abbrev subscribed : Vni → World Net → World Net
  subscribed vni w = record w {
    peer = record (w.peer) {
      subscribed_vnis_remote = (set_insert vni w.peer.subscribed_vnis_remote).0;
    };
    mb = record (w.mb) {
      subscribers =
          insert vni (set_insert w.peer.remote_addr (or_default vni w.mb.subscribers)).0
            w.mb.subscribers;
    };
  }

  process_subscribe-Recorded :
      (sub : Subscription) (w : World Net)
      → w.writer ≡ false
      → w.readers ≡ 0
      → Recorded
          (subscribed sub.vni w).mb.subscribers
          (subscribed sub.vni w).peer.subscribed_vnis_remote
          (process_subscribe sub w).1
  unfolding process_subscribe gets add_subscriber change lock_write drop_write change_remote_subs
      change_peer
  process_subscribe-Recorded sub w unlocked unread =
      let free : (w.writer || ltb 0 w.readers) ≡ false = ground (arith, unlocked, unread) in
      let addr : SocketAddr = w.peer.remote_addr in
      let inserted : Bool = (set_insert addr (or_default sub.vni w.mb.subscribers)).1 in
      let locked : World Net = record w { writer = true } in
      let joined : World Net = record locked { mb = (subscribed sub.vni w).mb } in
      let released : World Net = record joined { writer = false } in
      let noted : World Net = record released { peer = (subscribed sub.vni w).peer } in
      let rest : M Net Done =
        when not inserted
        then pure tt
        else (reading (λ mb. get_destinations_by_vni_with_peer mb.route_table sub.vni) >>= λ routes.
            for_each (offer_route addr sub.vni) (sources_of routes)) in
      let begins : process_subscribe sub w ≡ rest noted =
        bind_done (gets (λ p. p.remote_addr)) _ addr w w refl
        ∙ then_done lock_write _ w locked (rw (free) refl)
        ∙ bind_done (add_subscriber addr sub.vni) _ inserted locked joined refl
        ∙ then_done drop_write _ joined released refl
        ∙ then_done (change_remote_subs (λ s. (set_insert sub.vni s).0)) _ released noted refl in
      subst
        (λ r.
          Recorded (subscribed sub.vni w).mb.subscribers
            (subscribed sub.vni w).peer.subscribed_vnis_remote r.1)
        (sym begins)
        ((keeps_when (not inserted) (pure tt) _ (keeps_pure tt) (
            routes-Recorded (subscribed sub.vni w).mb.subscribers
              (subscribed sub.vni w).peer.subscribed_vnis_remote addr sub.vni)).at
          noted (refl, refl))

  -- After a SUBSCRIBE, where the task holds no lock and however the handler ends, exactly the peer itself
  -- joined the subscribers of exactly that VNI, and exactly that VNI the peer's own record, beside
  -- whatever both held before.
  pub contains-process_subscribe :
      (sub : Subscription) (w : World Net) (vni : Vni) (addr : SocketAddr)
      → w.writer ≡ false
      → w.readers ≡ 0
      → (contains addr (or_default vni (process_subscribe sub w).1.mb.subscribers) ≡ (
          (sub.vni == vni && w.peer.remote_addr == addr)
          || contains addr (or_default vni w.mb.subscribers)))
        × (contains vni (process_subscribe sub w).1.peer.subscribed_vnis_remote
            ≡ (sub.vni == vni || contains vni w.peer.subscribed_vnis_remote))
  contains-process_subscribe sub w vni addr unlocked unread =
      let (shared, own) = process_subscribe-Recorded sub w unlocked unread in
      (
        ap (λ m. contains addr (or_default vni m)) shared ∙ joins,
        ap (contains vni) own ∙ contains-set_insert vni sub.vni w.peer.subscribed_vnis_remote,
      )
    where
      joins : contains addr (or_default vni (subscribed sub.vni w).mb.subscribers) ≡ (
          (sub.vni == vni && w.peer.remote_addr == addr)
          || contains addr (or_default vni w.mb.subscribers))
      joins = ground (
        arith,
        or_default-insert vni sub.vni
            (set_insert w.peer.remote_addr (or_default sub.vni w.mb.subscribers)).0
            w.mb.subscribers,
        contains-set_insert addr w.peer.remote_addr (or_default sub.vni w.mb.subscribers),
        nat_beq_iff sub.vni vni,
      )
