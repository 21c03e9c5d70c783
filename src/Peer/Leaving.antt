-- ===== src/Peer/Leaving.antt =====
-- `process_unsubscribe` of peer.rs: who is subscribed afterwards, in the shared state and in the peer.
use metalbond_rs.HashMap.{
  HashMap, HashSet, get, contains, erase, set_remove, or_default, put_or_drop,
}
use metalbond_rs.HashMap.Laws.{or_default-put_or_drop}
use metalbond_rs.HashMap.Sets.{contains-erase}
use metalbond_rs.Types.{Vni, SocketAddr, Ipnet, InternalUpdate, socket_addr_eq, peer_key_eq}
use metalbond_rs.RouteTable.{Removed, RouteResult, ok, err, get_destinations_by_vni_with_peer}
use metalbond_rs.Wire.{Prost, Subscription}
use metalbond_rs.State.{route_update_buffer_size}
use metalbond_rs.State.Actions.{
  World, M, Done, pure, ◌>>=◌, gets, change, change_peer, when◌then◌else◌, lock_write, drop_write,
  reading, for_each, send_route_update,
}
use metalbond_rs.State.Runs.{bind_done, then_done}
use metalbond_rs.Peer.{Source, sources_of, change_remote_subs}
use metalbond_rs.Peer.Handlers.{
  leave_subscribers, remove_subscriber, forget_route, after_removal, withdraw_route,
  process_unsubscribe,
}
use metalbond_rs.Peer.Keeps.{
  Keeps, keeps_bind, keeps_then, keeps_pure, keeps_when, keeps_for_each, keeps_reading,
}
use metalbond_rs.Peer.Sound.{if_rule}
use metalbond_rs.Peer.Subscribers.{Recorded, read-Recorded, end_read-Recorded}
use metalbond_rs.Common.{
  Bool, true, false, not, ◌&&◌, ◌||◌, [], ltb, leb, nat_beq, length, ◌==◌, if◌then◌else◌, ◌≡◌, refl,
  sym, ap, subst, ◌∙◌, arith, nat_eq, nat_beq_iff, Option-cases, Bool-cases, inl, inr,
}

contains-leave_subscribers :
    (addr addr' : SocketAddr) (vni vni' : Vni) (m : HashMap Vni (HashSet SocketAddr))
    → contains addr' (or_default vni' (leave_subscribers addr vni m).0)
      ≡ (not (vni == vni' && addr == addr') && contains addr' (or_default vni' m))
unfolding leave_subscribers or_default set_remove put_or_drop
contains-leave_subscribers addr addr' vni vni' m = elim (Option-cases (get vni m)) [
  | inl e ↦
      let same : (leave_subscribers addr vni m).0 ≡ m = rw (e, leave_subscribers) refl in
      let nobody : or_default vni m ≡ [] = rw (e, or_default) refl in
      ap (λ n. contains addr' (or_default vni' n)) same ∙ apart nobody
  | inr (peers, e) ↦
      let left : (leave_subscribers addr vni m).0 ≡ put_or_drop vni (erase addr peers) m =
        rw (e, leave_subscribers) refl in
      let those : or_default vni m ≡ peers = rw (e, or_default) refl in
      ap (λ n. contains addr' (or_default vni' n)) left
      ∙ ap (contains addr') (or_default-put_or_drop vni' vni (erase addr peers) m)
      ∙ split peers those
]
  where
    apart :
        or_default vni m ≡ []
        → contains addr' (or_default vni' m)
          ≡ (not (vni == vni' && addr == addr') && contains addr' (or_default vni' m))
    apart nobody = elim (Bool-cases (nat_beq vni vni')) [
      | inl e ↦
          let here : or_default vni' m ≡ [] =
            subst (λ v. or_default v m ≡ []) ((nat_beq_iff vni vni').0 e) nobody in
          rw (here) (ground (arith, here))
      | inr e ↦ rw (e) refl
    ]

    split :
        (peers : HashSet SocketAddr)
        → or_default vni m ≡ peers
        → contains addr' (if vni == vni' then erase addr peers else or_default vni' m)
          ≡ (not (vni == vni' && addr == addr') && contains addr' (or_default vni' m))
    split peers those = elim (Bool-cases (nat_beq vni vni')) [
      | inl e ↦
          let here : peers ≡ or_default vni' m =
            sym (subst (λ v. or_default v m ≡ peers) ((nat_beq_iff vni vni').0 e) those) in
          rw (e) (
            ap (λ l. contains addr' (erase addr l)) here
            ∙ contains-erase addr' addr (or_default vni' m))
      | inr e ↦ rw (e) refl
    ]

module _ {Net : Type 0} ⦃i : Ipnet Net⦄ ⦃prost : Prost⦄ where
  module _ (subscribers : HashMap Vni (HashSet SocketAddr)) (vnis : HashSet Vni) where
    announce-Recorded :
        (u : InternalUpdate Net) → Keeps (Recorded subscribers vnis) (send_route_update u)
    unfolding send_route_update
    announce-Recorded u = record {
      at = λ w h.
          if_rule (Recorded subscribers vnis) (not w.mb.route_updates_open) _ _ (λ _. h)
            λ _.
              if_rule (Recorded subscribers vnis)
                (leb route_update_buffer_size (length w.mb.route_updates)) _ _ (λ _. h) (λ _. h);
    }

    write-Recorded : Keeps {Net = Net} (Recorded subscribers vnis) lock_write
    unfolding lock_write
    write-Recorded = record {
      at = λ w h.
          if_rule (Recorded subscribers vnis) (w.writer || ltb 0 w.readers) _ _ (λ _. h) (λ _. h);
    }

    after_removal-Recorded :
        (addr : SocketAddr) (r : Removed Net) (x : RouteResult)
        → Keeps (Recorded subscribers vnis) (after_removal addr r x)
    unfolding after_removal
    after_removal-Recorded addr r (ok remaining) =
        keeps_when _ _ _ (announce-Recorded _) (keeps_pure tt)
    after_removal-Recorded addr r (err e) = keeps_pure tt

    withdraw-Recorded :
        (addr : SocketAddr) (vni : Vni) (r : Source Net)
        → Keeps (Recorded subscribers vnis) (withdraw_route addr vni r)
    unfolding withdraw_route forget_route change drop_write
    withdraw-Recorded addr vni r = keeps_when _ _ _ (keeps_pure tt) (
        keeps_then _ _ write-Recorded (
          keeps_bind _ _ (record { at = λ w h. h })
            λ x. keeps_then _ _ (after_removal-Recorded addr _ x) (record { at = λ w h. h })))

    routes-Recorded :
        (addr : SocketAddr) (vni : Vni)
        → Keeps {Net = Net} (Recorded subscribers vnis) (
            reading (λ mb. get_destinations_by_vni_with_peer mb.route_table vni) >>= λ routes.
            for_each (withdraw_route addr vni) (sources_of routes))
    routes-Recorded addr vni =
        keeps_bind _ _
          (keeps_reading _ (read-Recorded subscribers vnis) (end_read-Recorded subscribers vnis))
          λ routes. keeps_for_each _ _ (withdraw-Recorded addr vni)

  -- The world in which the peer has left a VNI on both sides.
  abbrev departed : Vni → World Net → World Net
  departed vni w = record w {
    peer = record (w.peer) { subscribed_vnis_remote = erase vni w.peer.subscribed_vnis_remote };
    mb = record (w.mb) {
      subscribers = (leave_subscribers w.peer.remote_addr vni w.mb.subscribers).0;
    };
  }

  process_unsubscribe-Recorded :
      (unsub : Subscription) (w : World Net)
      → w.writer ≡ false
      → w.readers ≡ 0
      → Recorded
          (departed unsub.vni w).mb.subscribers
          (departed unsub.vni w).peer.subscribed_vnis_remote
          (process_unsubscribe unsub w).1
  unfolding process_unsubscribe gets remove_subscriber change lock_write drop_write
      change_remote_subs change_peer
  process_unsubscribe-Recorded unsub w unlocked unread =
      let free : (w.writer || ltb 0 w.readers) ≡ false = ground (arith, unlocked, unread) in
      let addr : SocketAddr = w.peer.remote_addr in
      let removed : Bool = (leave_subscribers addr unsub.vni w.mb.subscribers).1 in
      let locked : World Net = record w { writer = true } in
      let left : World Net = record locked { mb = (departed unsub.vni w).mb } in
      let released : World Net = record left { writer = false } in
      let noted : World Net = record released { peer = (departed unsub.vni w).peer } in
      let rest : M Net Done =
        when not removed
        then pure tt
        else (reading (λ mb. get_destinations_by_vni_with_peer mb.route_table unsub.vni)
            >>= λ routes. for_each (withdraw_route addr unsub.vni) (sources_of routes)) in
      let begins : process_unsubscribe unsub w ≡ rest noted =
        bind_done (gets (λ p. p.remote_addr)) _ addr w w refl
        ∙ then_done lock_write _ w locked (rw (free) refl)
        ∙ bind_done (remove_subscriber addr unsub.vni) _ removed locked left refl
        ∙ then_done drop_write _ left released refl
        ∙ then_done (change_remote_subs (erase unsub.vni)) _ released noted refl in
      subst
        (λ r.
          Recorded (departed unsub.vni w).mb.subscribers
            (departed unsub.vni w).peer.subscribed_vnis_remote r.1)
        (sym begins)
        ((keeps_when (not removed) (pure tt) _ (keeps_pure tt) (
            routes-Recorded (departed unsub.vni w).mb.subscribers
              (departed unsub.vni w).peer.subscribed_vnis_remote addr unsub.vni)).at
          noted (refl, refl))

  -- After an UNSUBSCRIBE, where the task holds no lock and however the handler ends, exactly the peer
  -- itself has left the subscribers of exactly that VNI, and exactly that VNI the peer's own record.
  pub contains-process_unsubscribe :
      (unsub : Subscription) (w : World Net) (vni : Vni) (addr : SocketAddr)
      → w.writer ≡ false
      → w.readers ≡ 0
      → (contains addr (or_default vni (process_unsubscribe unsub w).1.mb.subscribers) ≡ (
          not (unsub.vni == vni && w.peer.remote_addr == addr)
          && contains addr (or_default vni w.mb.subscribers)))
        × (contains vni (process_unsubscribe unsub w).1.peer.subscribed_vnis_remote
            ≡ (not (unsub.vni == vni) && contains vni w.peer.subscribed_vnis_remote))
  contains-process_unsubscribe unsub w vni addr unlocked unread =
      let (shared, own) = process_unsubscribe-Recorded unsub w unlocked unread in
      (
        ap (λ m. contains addr (or_default vni m)) shared
            ∙ contains-leave_subscribers w.peer.remote_addr addr unsub.vni vni w.mb.subscribers,
        ap (contains vni) own ∙ contains-erase vni unsub.vni w.peer.subscribed_vnis_remote,
      )
