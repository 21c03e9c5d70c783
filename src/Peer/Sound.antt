-- ===== src/Peer/Sound.antt =====
-- The invariant of a peer's world: both route tables are tidy and no channel holds more than it can.
-- Every basic action of peer.rs keeps it.
use metalbond_rs.Types.{Ipnet, InternalUpdate, socket_addr_eq}
use metalbond_rs.RouteTable.Tidy.{
  IsTidyTable, add_next_hop-IsTidyTable, remove_next_hop-IsTidyTable,
  remove_routes_from_peer-IsTidyTable,
}
use metalbond_rs.Wire.{Prost}
use metalbond_rs.Codec.{GeneratedMessage}
use metalbond_rs.State.{peer_tx_buffer_size, route_update_buffer_size}
use metalbond_rs.State.Actions.{
  World, Exit, lock_read, drop_read, lock_write, drop_write, send_route_update, ◌>>=◌,
}
use metalbond_rs.Peer.{
  send_message, trigger_shutdown, put_state, set_remote_server, change_remote_subs, take_routes,
  drop_subscriber,
}
use metalbond_rs.Peer.Handlers.{add_subscriber, remove_subscriber, record_route, forget_route}
use metalbond_rs.Peer.Keeps.{Keeps}
use metalbond_rs.Peer.Stable.{Stable}
use metalbond_rs.Common.{
  ◌≤◌, Bool, true, false, not, ◌||◌, [], ◌∷◌, length, length-append, ltb, leb, if◌then◌else◌, ◌≡◌,
  refl, arith, nat_eq, some,
}

module _ {Net : Type 0} where
  -- A world that one of two outcomes leaves, with the test that chose.
  pub if_rule :
      {A : Type 0} (P : World Net → Type 0) (b : Bool) (x y : Exit A × World Net)
      → (b ≡ true → P x.1)
      → (b ≡ false → P y.1)
      → P (if b then x else y).1
  if_rule P true x y hx hy = hx refl
  if_rule P false x y hx hy = hy refl

module _ {Net : Type 0} ⦃i : Ipnet Net⦄ ⦃prost : Prost⦄ where
  abbrev pub IsSound : World Net → Type 0
  IsSound w =
      IsTidyTable w.mb.route_table
      × IsTidyTable w.mb.my_announcements
      × (length w.peer.tx_queue ≤ peer_tx_buffer_size)
      × (length w.mb.route_updates ≤ route_update_buffer_size)

  send-IsSound : (m : GeneratedMessage) → Keeps IsSound (send_message m)
  unfolding send_message
  send-IsSound m = record {
    at = λ w h.
        if_rule IsSound (not w.peer.tx_open) _ _ (λ _. h)
          λ _.
            if_rule IsSound (leb peer_tx_buffer_size (length w.peer.tx_queue)) _ _ (λ _. h)
              λ room. (h.0, h.1, ground (arith, length-append w.peer.tx_queue (m ∷ [])), h.3);
  }

  announce-IsSound : (u : InternalUpdate Net) → Keeps IsSound (send_route_update u)
  unfolding send_route_update
  announce-IsSound u = record {
    at = λ w h.
        if_rule IsSound (not w.mb.route_updates_open) _ _ (λ _. h)
          λ _.
            if_rule IsSound (leb route_update_buffer_size (length w.mb.route_updates)) _ _ (λ _. h)
              λ room. (h.0, h.1, h.2, ground (arith, length-append w.mb.route_updates (u ∷ [])));
  }

  read-IsSound : Keeps IsSound lock_read
  unfolding lock_read
  read-IsSound = record { at = λ w h. if_rule IsSound w.writer _ _ (λ _. h) (λ _. h) }

  write-IsSound : Keeps IsSound lock_write
  unfolding lock_write
  write-IsSound = record {
    at = λ w h. if_rule IsSound (w.writer || ltb 0 w.readers) _ _ (λ _. h) (λ _. h);
  }

  -- Any message may be sent and any state entered.
  pub IsSound-stable : Stable IsSound (λ m. Unit {0}) (λ s. Unit {0})
  unfolding put_state trigger_shutdown set_remote_server change_remote_subs drop_read drop_write
      take_routes drop_subscriber add_subscriber remove_subscriber record_route forget_route ◌>>=◌
  IsSound-stable = record {
    send = λ m _. send-IsSound m;
    put = λ s _. record { at = λ w h. h };
    trigger = record { at = λ w h. h };
    remote_server = λ b. record { at = λ w h. h };
    remote_subs = λ f. record { at = λ w h. h };
    read = read-IsSound;
    end_read = record { at = λ w h. h };
    write = write-IsSound;
    end_write = record { at = λ w h. h };
    announce = announce-IsSound;
    take = λ a. record {
      at = λ w h. (remove_routes_from_peer-IsTidyTable w.mb.route_table a h.0, h.1, h.2, h.3);
    };
    drop = λ a v. record { at = λ w h. h };
    join = λ a v. record { at = λ w h. h };
    part = λ a v. record { at = λ w h. h };
    learned = λ a v d n. record {
      at = λ w h. (add_next_hop-IsTidyTable w.mb.route_table v d n (some a) h.0, h.1, h.2, h.3);
    };
    forgot = λ a v d n. record {
      at = λ w h. (remove_next_hop-IsTidyTable w.mb.route_table v d n (some a) h.0, h.1, h.2, h.3);
    };
  }
