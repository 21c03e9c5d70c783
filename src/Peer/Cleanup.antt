-- ===== src/Peer/Cleanup.antt =====
-- `cleanup_peer_state` of peer.rs: what it leaves, and its wait for a lock that its own task holds.
use metalbond_rs.HashMap.{HashSet, contains}
use metalbond_rs.Types.{
  Vni, SocketAddr, PeerKey, Ipnet, Destination, NextHop, InternalUpdate, peer_key_eq, established,
  closed, connection_state_eq,
}
use metalbond_rs.RouteTable.{Removed, removed_eq, remove_routes_from_peer, next_hop_exists}
use metalbond_rs.RouteTable.Tidy.{IsTidyTable}
use metalbond_rs.RouteTable.Departure.{
  next_hop_exists-remove_routes_from_peer, contains-remove_routes_from_peer,
}
use metalbond_rs.Wire.{Prost}
use metalbond_rs.State.{route_update_buffer_size}
use metalbond_rs.State.Actions.{
  done, deadlock, World, pure, ◌>>=◌, ◌>>◌, when◌then◌else◌, gets, change, lock_read, drop_read,
  lock_write, send_route_update, for_each,
}
use metalbond_rs.State.Runs.{bind_done, then_done, then_deadlock}
use metalbond_rs.Peer.{
  removal, take_routes, drop_subscriptions, cleanup_peer_state, set_state, put_state,
  trigger_shutdown,
}
use metalbond_rs.Peer.Session.{reset}
use metalbond_rs.Common.{
  ◌+◌, ◌-◌, ◌≤◌, some, true, false, not, ◌&&◌, if◌then◌else◌, Bool-cases, inl, inr, ◌||◌, List, [],
  ◌∷◌, ◌++◌, map, append-nil, append_assoc, length, length-append, is_empty, leb, ltb, ◌==◌,
  ==_false, ==_self, ◌≡◌, refl, sym, ap, ◌∙◌, arith,
}

empty_nil {ℓ} : {A : Type ℓ} (xs : List A) → is_empty xs ≡ true → xs ≡ []
empty_nil [] h = refl
empty_nil (x ∷ xs) h = absurd (cc)

module _ {Net : Type 0} where
  -- The world with more updates for the distributor.
  abbrev pub with_updates : World Net → List (InternalUpdate Net) → World Net
  with_updates w us = record w { mb = record (w.mb) { route_updates = w.mb.route_updates ++ us } }

  pub send_with_room :
      (u : InternalUpdate Net) (w : World Net)
      → w.mb.route_updates_open ≡ true
      → length w.mb.route_updates + 1 ≤ route_update_buffer_size
      → send_route_update u w ≡ (done tt, with_updates w (u ∷ []))
  unfolding send_route_update
  send_with_room u w alive room =
      let free : leb route_update_buffer_size (length w.mb.route_updates) ≡ false = ground arith in
      rw (alive, free) refl

  pub announce_all :
      {A : Type 0} (f : A → InternalUpdate Net) (xs : List A) (w : World Net)
      → w.mb.route_updates_open ≡ true
      → length w.mb.route_updates + length xs ≤ route_update_buffer_size
      → for_each (λ a. send_route_update (f a)) xs w ≡ (done tt, with_updates w (map f xs))
  unfolding for_each pure
  announce_all f [] w alive room =
      ap (λ us. (done tt, record w { mb = record (w.mb) { route_updates = us } }))
        (sym (append-nil _))
  announce_all f (x ∷ xs) w alive room =
      then_done (send_route_update (f x)) _ w _ (send_with_room (f x) w alive (omega arith))
      ∙ announce_all f xs (with_updates w (f x ∷ [])) alive
          (rw (length-append w.mb.route_updates (f x ∷ [])) omega arith)
      ∙ ap (λ us. (done tt, record w { mb = record (w.mb) { route_updates = us } }))
          (append_assoc w.mb.route_updates (f x ∷ []) (map f xs))

module _ {Net : Type 0} ⦃i : Ipnet Net⦄ ⦃prost : Prost⦄ where
  abbrev pub taken : World Net → List (Removed Net)
  taken w = (remove_routes_from_peer w.mb.route_table w.peer.remote_addr).1

  -- The world once the routes of the peer are out of the table and on their way to the distributor.
  abbrev pub routes_gone : World Net → World Net
  routes_gone w =
      let addr = w.peer.remote_addr in
      with_updates
        (record w {
          mb = record (w.mb) { route_table = (remove_routes_from_peer w.mb.route_table addr).0 };
        })
        (map (removal addr) (taken w))

  cleanup_start :
      (w : World Net)
      → w.writer ≡ false
      → w.mb.route_updates_open ≡ true
      → length w.mb.route_updates + length (taken w) ≤ route_update_buffer_size
      → cleanup_peer_state w
        ≡ (drop_subscriptions w.peer.remote_addr w.peer.subscribed_vnis_remote >> drop_read)
            (record (routes_gone w) { readers = w.readers + 1 })
  unfolding cleanup_peer_state gets take_routes change lock_read
  cleanup_start w unlocked alive room =
      let held : World Net = record w { readers = w.readers + 1 } in
      let stripped : World Net = record held {
        mb = record (w.mb) {
          route_table = (remove_routes_from_peer w.mb.route_table w.peer.remote_addr).0;
        };
      } in
      then_done lock_read _ w held (rw (unlocked) refl)
      ∙ bind_done (gets (λ p. p.remote_addr)) _ w.peer.remote_addr held held refl
      ∙ bind_done (take_routes w.peer.remote_addr) _ (taken w) held stripped refl
      ∙ then_done (for_each (λ r. send_route_update (removal w.peer.remote_addr r)) (taken w)) _
          stripped _ (announce_all (removal w.peer.remote_addr) (taken w) stripped alive room)
      ∙ bind_done (gets (λ p. p.subscribed_vnis_remote)) _ w.peer.subscribed_vnis_remote _ _ refl

  -- With no subscription left the function ends.
  cleanup_peer_state-done :
      (w : World Net)
      → w.writer ≡ false
      → w.mb.route_updates_open ≡ true
      → length w.mb.route_updates + length (taken w) ≤ route_update_buffer_size
      → w.peer.subscribed_vnis_remote ≡ []
      → cleanup_peer_state w ≡ (done tt, routes_gone w)
  unfolding drop_subscriptions drop_read ◌>>◌ ◌>>=◌
  cleanup_peer_state-done w unlocked alive room none_left =
      let back : (w.readers + 1 - 1) ≡ w.readers = omega arith in
      cleanup_start w unlocked alive room
      ∙ ap
          (λ subs.
            (drop_subscriptions w.peer.remote_addr subs >> drop_read)
              (record (routes_gone w) { readers = w.readers + 1 }))
          none_left
      ∙ ap (λ n. (done tt, record (routes_gone w) { readers = n })) back

  drop_subscriptions-deadlock :
      (addr : SocketAddr) (subs : HashSet Vni) (w : World Net)
      → is_empty subs ≡ false
      → ltb 0 w.readers ≡ true
      → (drop_subscriptions addr subs >> drop_read) w ≡ (deadlock, w)
  unfolding drop_subscriptions lock_write when◌then◌else◌
  drop_subscriptions-deadlock addr [] w some_left held = absurd (cc)
  drop_subscriptions-deadlock addr (vni ∷ subs) w some_left held =
      let stuck : (w.writer || ltb 0 w.readers) ≡ true = ground arith in
      then_deadlock (lock_write >> _) drop_read w w
        (then_deadlock lock_write _ w w (rw (stuck) refl))

  -- Where the peer is still subscribed to a VNI, the task holds no write lock and the channel of route
  -- updates is open and has room, `cleanup_peer_state` never ends: it waits for the write lock of the
  -- shared state while its own read guard lives. The routes of the peer are gone by then.
  pub cleanup_peer_state-deadlock :
      (w : World Net)
      → w.writer ≡ false
      → w.mb.route_updates_open ≡ true
      → length w.mb.route_updates + length (taken w) ≤ route_update_buffer_size
      → is_empty w.peer.subscribed_vnis_remote ≡ false
      → cleanup_peer_state w ≡ (deadlock, record (routes_gone w) { readers = w.readers + 1 })
  cleanup_peer_state-deadlock w unlocked alive room some_left =
      cleanup_start w unlocked alive room
      ∙ drop_subscriptions-deadlock _ _ _ some_left (ground arith)

  -- What the end of `cleanup_peer_state` leaves of the routes of its peer.
  abbrev pub AreRoutesGone : World Net → World Net → Type 0
  AreRoutesGone before after =
      let addr = before.peer.remote_addr in
      let t = before.mb.route_table in
      ((vni : Vni) (dest : Destination Net) (nh : NextHop) (p : PeerKey)
        → next_hop_exists after.mb.route_table vni dest nh p
          ≡ (not (some addr == p) && next_hop_exists t vni dest nh p))
      × (after.mb.route_updates ≡ before.mb.route_updates ++ map (removal addr) (taken before))
      × ((r : Removed Net)
          → contains r (taken before)
            ≡ next_hop_exists t r.vni r.destination r.next_hop (some addr))

  routes_gone_lem : (w : World Net) → IsTidyTable w.mb.route_table → AreRoutesGone w (routes_gone w)
  routes_gone_lem w tidy = (
    λ vni dest nh p.
        next_hop_exists-remove_routes_from_peer w.mb.route_table w.peer.remote_addr vni dest nh p
          tidy,
    refl,
    λ r. contains-remove_routes_from_peer w.mb.route_table w.peer.remote_addr r tidy,
  )

  -- Where the table is tidy, the task holds no write lock and the channel of route updates is open and
  -- has room: whether or not `cleanup_peer_state` ends, exactly the routes of the other peers are left in
  -- the table, and a removal with this peer as its source is queued for exactly the routes that it
  -- announced, whoever else still announces them. It ends if the peer is subscribed to nothing, and
  -- otherwise waits for a lock that its own task holds.
  pub cleanup_peer_state-result :
      (w : World Net)
      → w.writer ≡ false
      → w.mb.route_updates_open ≡ true
      → length w.mb.route_updates + length (taken w) ≤ route_update_buffer_size
      → IsTidyTable w.mb.route_table
      → ((cleanup_peer_state w).0
          ≡ (if is_empty w.peer.subscribed_vnis_remote then done tt else deadlock))
        × AreRoutesGone w (cleanup_peer_state w).1
  cleanup_peer_state-result w unlocked alive room tidy =
      elim (Bool-cases (is_empty w.peer.subscribed_vnis_remote)) [
        | inl none_left ↦
            let e =
              cleanup_peer_state-done w unlocked alive room
                (empty_nil w.peer.subscribed_vnis_remote none_left) in
            rw (e, none_left) (refl, routes_gone_lem w tidy)
        | inr some_left ↦
            let e = cleanup_peer_state-deadlock w unlocked alive room some_left in
            rw (e, some_left) (refl, routes_gone_lem w tidy)
      ]

  set_state_closed :
      (w : World Net)
      → w.peer.state ≡ established
      → set_state closed w
        ≡ cleanup_peer_state (record w { peer = record (w.peer) { state = closed } })
  unfolding set_state put_state ◌>>◌ ◌>>=◌
  set_state_closed w up =
      let e1 : (w.peer.state == closed) ≡ false =
        (rw (up) (==_false established closed (λ p. cc))) in
      let e2 : (closed == established) ≡ false = ==_false closed established (λ p. cc) in
      let e3 : (w.peer.state == established) ≡ true = (rw (up) (==_self established)) in
      rw (e1, e2, e3) refl

  -- `set_state(Closed)` and the trigger of the shutdown, one after the other, in an established task whose
  -- peer is still subscribed to a VNI, if the task holds no write lock and the channel of route updates is
  -- open and has room: the state is closed and the routes are gone, and then the task waits for ever,
  -- with the read lock of the shared state, before it triggers its shutdown.
  pub reset-deadlock :
      (w : World Net)
      → w.peer.state ≡ established
      → w.writer ≡ false
      → w.mb.route_updates_open ≡ true
      → length w.mb.route_updates + length (taken w) ≤ route_update_buffer_size
      → is_empty w.peer.subscribed_vnis_remote ≡ false
      → reset w ≡ (
        deadlock,
        record (routes_gone (record w { peer = record (w.peer) { state = closed } })) {
          readers = w.readers + 1;
        },
      )
  unfolding reset
  reset-deadlock w up unlocked alive room some_left =
      then_deadlock (set_state closed) trigger_shutdown w _
        (set_state_closed w up ∙ cleanup_peer_state-deadlock _ unlocked alive room some_left)
