-- ===== src/Peer/Arrival.antt =====
-- `set_state` of peer.rs on the way into the established state: what is queued for the peer.
use metalbond_rs.Types.{Vni, Ipnet, add, established, connection_state_eq}
use metalbond_rs.HashMap.{contains}
use metalbond_rs.RouteTable.{Removed, removed_eq, get_local_announcements, next_hop_exists}
use metalbond_rs.RouteTable.Tidy.{IsTidyTable}
use metalbond_rs.Peer.Greetings.{contains-announced}
use metalbond_rs.Wire.{Prost}
use metalbond_rs.Codec.{GeneratedMessage, subscribe, update}
use metalbond_rs.State.{peer_tx_buffer_size}
use metalbond_rs.State.Actions.{done, World, M, Done, pure, ◌>>=◌, ◌>>◌, reading, for_each}
use metalbond_rs.Peer.{
  announcements_of, send_message, send_subscribe, update_message, send_update, initial_subscribe,
  initial_announcements, on_established, put_state, set_state,
}
use metalbond_rs.State.Runs.{bind_done, then_done, read_unlocked, or_else_done}
use metalbond_rs.Common.{
  ℕ, ◌+◌, ◌≤◌, none, true, false, List, [], ◌∷◌, ◌++◌, map, append-nil, append_assoc, length,
  length-append, length-map, leb, ◌==◌, ==_self, ◌≡◌, refl, sym, ap, ◌∙◌, arith,
}

abbrev pub subscribe_message : Vni → GeneratedMessage
subscribe_message vni = subscribe (record { vni = vni })

module _ {Net : Type 0} where
  -- The world with more messages queued for the peer.
  abbrev pub with_messages : World Net → List GeneratedMessage → World Net
  with_messages w ms = record w { peer = record (w.peer) { tx_queue = w.peer.tx_queue ++ ms } }

  abbrev pub HasRoom : World Net → ℕ → Type 0
  HasRoom w n = (w.peer.tx_open ≡ true) × (length w.peer.tx_queue + n ≤ peer_tx_buffer_size)

  queue_with_room :
      (m : GeneratedMessage) (w : World Net)
      → HasRoom w 1
      → send_message m w ≡ (done tt, with_messages w (m ∷ []))
  unfolding send_message
  queue_with_room m w h =
      let free : leb peer_tx_buffer_size (length w.peer.tx_queue) ≡ false = ground (arith, h.1) in
      rw (h.0, free) refl

  -- An action for each element that queues one message for it.
  queue_all :
      {A : Type 0} (body : A → M Net Done) (f : A → GeneratedMessage)
      → ((a : A) (w : World Net) → HasRoom w 1 → body a w ≡ (done tt, with_messages w (f a ∷ [])))
      → (xs : List A) (w : World Net) → HasRoom w (length xs)
      → for_each body xs w ≡ (done tt, with_messages w (map f xs))
  unfolding for_each pure
  queue_all body f one [] w h =
      ap (λ ms. (done tt, record w { peer = record (w.peer) { tx_queue = ms } }))
        (sym (append-nil _))
  queue_all body f one (x ∷ xs) w h =
      then_done (body x) _ w _ (one x w (h.0, omega (arith, h.1)))
      ∙ queue_all body f one xs (with_messages w (f x ∷ []))
          (h.0, rw (length-append w.peer.tx_queue (f x ∷ [])) omega (arith, h.1))
      ∙ ap (λ ms. (done tt, record w { peer = record (w.peer) { tx_queue = ms } }))
          (append_assoc w.peer.tx_queue (f x ∷ []) (map f xs))

module _ {Net : Type 0} ⦃i : Ipnet Net⦄ ⦃prost : Prost⦄ where
  abbrev pub announce_message : Removed Net → GeneratedMessage
  announce_message r = update (update_message add r.vni r.destination r.next_hop)

  abbrev pub local_routes : World Net → List (Removed Net)
  local_routes w = announcements_of (get_local_announcements w.mb.my_announcements)

  -- The messages that greet an established peer.
  abbrev pub greetings : World Net → List GeneratedMessage
  greetings w = map subscribe_message w.mb.my_subscriptions ++ map announce_message (local_routes w)

  subscribe_with_room :
      (vni : Vni) (w : World Net)
      → HasRoom w 1
      → initial_subscribe vni w ≡ (done tt, with_messages w (subscribe_message vni ∷ []))
  unfolding initial_subscribe send_subscribe
  subscribe_with_room vni w h = or_else_done _ _ w _ (queue_with_room (subscribe_message vni) w h)

  announce_with_room :
      (rs : List (Removed Net)) (w : World Net)
      → HasRoom w (length rs)
      → initial_announcements rs w ≡ (done tt, with_messages w (map announce_message rs))
  unfolding initial_announcements send_update
  announce_with_room rs w h =
      or_else_done _ _ w _
        (queue_all _ announce_message (λ r v k. queue_with_room (announce_message r) v k) rs w h)

  on_established-result :
      (w : World Net)
      → w.writer ≡ false
      → HasRoom w (length w.mb.my_subscriptions + length (local_routes w))
      → on_established w ≡ (done tt, with_messages w (greetings w))
  unfolding on_established
  on_established-result w unlocked room =
      let subscribed : World Net = with_messages w (map subscribe_message w.mb.my_subscriptions) in
      bind_done (reading (λ mb. mb.my_subscriptions)) _ w.mb.my_subscriptions w w
        (read_unlocked _ w unlocked)
      ∙ then_done (for_each initial_subscribe w.mb.my_subscriptions) _ w subscribed (
          queue_all initial_subscribe subscribe_message subscribe_with_room w.mb.my_subscriptions w
            (room.0, omega (arith, room.1)))
      ∙ bind_done (reading (λ mb. get_local_announcements mb.my_announcements)) _ _ subscribed
          subscribed (read_unlocked _ subscribed unlocked)
      ∙ announce_with_room (local_routes w) subscribed (
        room.0,
        rw
            (
              length-append w.peer.tx_queue (map subscribe_message w.mb.my_subscriptions),
              length-map subscribe_message w.mb.my_subscriptions,
            )
            omega (arith, room.1),
      )
      ∙ ap (λ ms. (done tt, record w { peer = record (w.peer) { tx_queue = ms } }))
          (append_assoc w.peer.tx_queue _ _)

  -- A peer that becomes established from another state, while the task holds no write lock, its channel
  -- is open and has room and the table of this instance's announcements is tidy, is queued a SUBSCRIBE
  -- for each VNI of `my_subscriptions` and then an ADD for each of `local_routes`, behind what the channel
  -- held, and no shutdown is triggered; and `local_routes` are exactly the routes that this instance
  -- announces.
  pub set_state-established :
      (w : World Net)
      → (w.peer.state == established) ≡ false
      → w.writer ≡ false
      → HasRoom w (length w.mb.my_subscriptions + length (local_routes w))
      → IsTidyTable w.mb.my_announcements
      → (set_state established w ≡ (
        done tt,
        with_messages (record w { peer = record (w.peer) { state = established } }) (greetings w),
      ))
        × ((r : Removed Net)
            → contains r (local_routes w)
              ≡ next_hop_exists w.mb.my_announcements r.vni r.destination r.next_hop none)
  unfolding set_state put_state ◌>>◌ ◌>>=◌
  set_state-established w down unlocked room tidy =
      let up : (established == established) ≡ true = ==_self established in
      (
        rw (down, up) (on_established-result _ unlocked room),
        λ r. contains-announced w.mb.my_announcements r tidy,
      )
