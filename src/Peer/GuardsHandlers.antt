-- ===== src/Peer/GuardsHandlers.antt =====
-- The guards of the shared state's lock over the handlers of peer.rs.
use metalbond_rs.HashMap.{HashSet}
use metalbond_rs.Types.{
  Vni, SocketAddr, ConnectionDirection, ConnectionState, UpdateAction, Destination, NextHop, Ipnet,
}
use metalbond_rs.RouteTable.{Removed, RouteResult, ok, err}
use metalbond_rs.Wire.{Hello, Subscription, Update, Prost}
use metalbond_rs.Codec.{GeneratedMessage}
use metalbond_rs.State.Actions.{PeerError}
use metalbond_rs.Peer.Guards.{
  Moves, Returns, Moves-pure, Returns-bail, Moves-gets, Moves-change_peer, Moves-change, Moves-bind,
  Moves-then, take_read, give_read, take_write, give_write, hang, Returns-reading, Moves-send,
  Moves-when, Moves-for_each, Returns-or_else, Returns-on_fail,
}
use metalbond_rs.Peer.{
  Source, send_message, send_hello, send_keepalive, send_subscribe, send_update, trigger_shutdown,
  set_remote_server, change_remote_subs, put_state, initial_subscribe, initial_announcements,
  on_established, take_routes, drop_subscriber, drop_subscriptions, cleanup_peer_state, set_state,
}
use metalbond_rs.Peer.Handlers.{
  or_fail, hello_in_direction, process_hello, keepalive_in_direction, process_keepalive,
  add_subscriber, offer_route, process_subscribe, remove_subscriber, withdraw_route,
  process_unsubscribe, record_route, forget_route, after_removal, learn, apply_update,
  process_update,
}
use metalbond_rs.Common.{ℕ, Bool, true, false, Option, none, some, refl, arith}

module _ {Net : Type 0} where
  message-Returns : (m : GeneratedMessage) → Returns {Net = Net} (send_message m)
  unfolding send_message
  message-Returns m = record { at = λ w h k. ground (arith, h, k) }

  pub trigger-Returns : Returns {Net = Net} trigger_shutdown
  unfolding trigger_shutdown
  trigger-Returns = Moves-change_peer _

  or_fail-Returns : {A : Type 0} (e : PeerError) (o : Option A) → Returns {Net = Net} (or_fail e o)
  unfolding or_fail
  or_fail-Returns e none = Returns-bail e
  or_fail-Returns e (some a) = Moves-pure a

  pub hello-Returns : (b : Bool) → Returns {Net = Net} (send_hello b)
  unfolding send_hello
  hello-Returns b = Moves-bind _ _ (Moves-gets _) λ k. message-Returns _

  pub keepalive-Returns : Returns {Net = Net} send_keepalive
  unfolding send_keepalive
  keepalive-Returns = message-Returns _

  change_subs-Moves :
      {r : ℕ} {b : Bool} (f : HashSet Vni → HashSet Vni)
      → Moves {Net = Net} r b r b (change_remote_subs f)
  unfolding change_remote_subs
  change_subs-Moves f = Moves-change_peer _

module _ {Net : Type 0} ⦃i : Ipnet Net⦄ ⦃prost : Prost⦄ where
  update-Returns :
      (a : UpdateAction) (vni : Vni) (dest : Destination Net) (nh : NextHop)
      → Returns (send_update a vni dest nh)
  unfolding send_update
  update-Returns a vni dest nh = message-Returns _

  established-Returns : Returns {Net = Net} on_established
  unfolding on_established initial_subscribe initial_announcements send_subscribe
  established-Returns = Moves-bind _ _ (Returns-reading _) λ subs.
      Moves-then _ _
        (Moves-for_each _ subs λ vni. Returns-or_else _ _ (message-Returns _) trigger-Returns)
        (Moves-bind _ _ (Returns-reading _) λ routes.
          Returns-or_else _ _
            (Moves-for_each _ _ λ r. update-Returns UpdateAction.add r.vni r.destination r.next_hop)
            trigger-Returns)

  drop_subscriptions-Moves :
      (addr : SocketAddr) (subs : HashSet Vni)
      → Moves {Net = Net} 1 false 1 false (drop_subscriptions addr subs)
  unfolding drop_subscriptions drop_subscriber
  drop_subscriptions-Moves addr subs = Moves-when _ _ _ (Moves-pure tt) (
      Moves-then {r' = 1} {b' = true} _ _ hang (
        Moves-then _ _ (Moves-for_each _ subs λ vni. Moves-change _)
          (Moves-then _ _ (change_subs-Moves _) give_write)))

  cleanup-Returns : Returns {Net = Net} cleanup_peer_state
  unfolding cleanup_peer_state take_routes
  cleanup-Returns = Moves-then _ _ take_read (
      Moves-bind _ _ (Moves-gets _) λ addr. Moves-bind _ _ (Moves-change _) λ routes.
        Moves-then _ _ (Moves-for_each _ routes λ r. Moves-send _ refl) (
          Moves-bind _ _ (Moves-gets _)
            λ subs. Moves-then _ _ (drop_subscriptions-Moves addr subs) give_read))

  pub state-Returns : (new_state : ConnectionState) → Returns {Net = Net} (set_state new_state)
  unfolding set_state put_state
  state-Returns new_state = Moves-bind _ _ (Moves-gets _) λ old_state.
      Moves-when _ _ _ (Moves-pure tt) (
        Moves-then _ _ (Moves-change_peer _)
          (Moves-when _ _ _ established-Returns (Moves-when _ _ _ cleanup-Returns (Moves-pure tt))))

  hello_direction-Returns :
      (d : ConnectionDirection) (s : ConnectionState) → Returns {Net = Net} (hello_in_direction d s)
  unfolding hello_in_direction
  hello_direction-Returns ConnectionDirection.incoming s =
      Moves-when _ _ _ (Moves-then _ _ (hello-Returns true) (state-Returns _)) (Moves-pure tt)
  hello_direction-Returns ConnectionDirection.outgoing s =
      Moves-when _ _ _ (state-Returns _) (Moves-pure tt)

  pub process_hello-Returns : (h : Hello) → Returns {Net = Net} (process_hello h)
  unfolding process_hello set_remote_server
  process_hello-Returns h = Moves-when _ _ _ (Returns-bail _) (
      Moves-then _ _ (Moves-change_peer _) (
        Moves-bind _ _ (Moves-gets _)
          λ s. Moves-bind _ _ (Moves-gets _) λ d. hello_direction-Returns d s))

  keepalive_direction-Returns :
      (d : ConnectionDirection) (s : ConnectionState)
      → Returns {Net = Net} (keepalive_in_direction d s)
  unfolding keepalive_in_direction
  keepalive_direction-Returns ConnectionDirection.incoming s =
      Moves-when _ _ _ (state-Returns _) (Moves-when _ _ _ keepalive-Returns (Returns-bail _))
  keepalive_direction-Returns ConnectionDirection.outgoing s =
      Moves-when _ _ _ (state-Returns _) (Moves-when _ _ _ (Moves-pure tt) (Returns-bail _))

  pub process_keepalive-Returns : Returns {Net = Net} process_keepalive
  unfolding process_keepalive
  process_keepalive-Returns =
      Moves-bind _ _ (Moves-gets _)
        λ s. Moves-bind _ _ (Moves-gets _) λ d. keepalive_direction-Returns d s

  offer-Returns :
      (addr : SocketAddr) (vni : Vni) (r : Source Net) → Returns (offer_route addr vni r)
  unfolding offer_route
  offer-Returns addr vni r =
      Moves-when _ _ _ (Returns-on_fail _ _ (update-Returns _ _ _ _) trigger-Returns)
        (Moves-pure tt)

  pub process_subscribe-Returns : (s : Subscription) → Returns {Net = Net} (process_subscribe s)
  unfolding process_subscribe add_subscriber
  process_subscribe-Returns s = Moves-bind _ _ (Moves-gets _) λ addr. Moves-then _ _ take_write (
      Moves-bind _ _ (Moves-change _) λ inserted. Moves-then _ _ give_write (
        Moves-then _ _ (change_subs-Moves _) (
          Moves-when _ _ _ (Moves-pure tt) (
            Moves-bind _ _ (Returns-reading _)
              λ routes. Moves-for_each _ _ (offer-Returns addr s.vni)))))

  after_removal-Moves :
      (addr : SocketAddr) (r : Removed Net) (result : RouteResult)
      → Moves 0 true 0 true (after_removal addr r result)
  unfolding after_removal
  after_removal-Moves addr r (ok n) = Moves-when _ _ _ (Moves-send _ refl) (Moves-pure tt)
  after_removal-Moves addr r (err e) = Moves-pure tt

  withdraw-Returns :
      (addr : SocketAddr) (vni : Vni) (r : Source Net) → Returns (withdraw_route addr vni r)
  unfolding withdraw_route forget_route
  withdraw-Returns addr vni r = Moves-when _ _ _ (Moves-pure tt) (
      Moves-then _ _ take_write (
        Moves-bind _ _ (Moves-change _)
          λ result. Moves-then _ _ (after_removal-Moves addr _ result) give_write))

  pub process_unsubscribe-Returns : (s : Subscription) → Returns {Net = Net} (process_unsubscribe s)
  unfolding process_unsubscribe remove_subscriber
  process_unsubscribe-Returns s = Moves-bind _ _ (Moves-gets _) λ addr. Moves-then _ _ take_write (
      Moves-bind _ _ (Moves-change _) λ removed. Moves-then _ _ give_write (
        Moves-then _ _ (change_subs-Moves _) (
          Moves-when _ _ _ (Moves-pure tt) (
            Moves-bind _ _ (Returns-reading _)
              λ routes. Moves-for_each _ _ (withdraw-Returns addr s.vni)))))

  learn-Moves :
      (addr : SocketAddr) (a : UpdateAction) (vni : Vni) (dest : Destination Net) (nh : NextHop)
      → Moves 0 true 0 true (learn addr a vni dest nh)
  unfolding learn record_route forget_route
  learn-Moves addr UpdateAction.add vni dest nh =
      Moves-bind _ _ (Moves-change _) λ added. Moves-when _ _ _ (Moves-send _ refl) (Moves-pure tt)
  learn-Moves addr UpdateAction.remove vni dest nh =
      Moves-bind _ _ (Moves-change _) λ result. after_removal-Moves addr _ result

  apply-Returns :
      (a : UpdateAction) (vni : Vni) (dest : Destination Net) (nh : NextHop)
      → Returns (apply_update a vni dest nh)
  unfolding apply_update
  apply-Returns a vni dest nh = Moves-bind _ _ (Returns-reading _) λ b.
      Moves-bind _ _ (Moves-gets _) λ d. Moves-bind _ _ (Moves-gets _) λ addr.
        Moves-when _ _ _ (Moves-pure tt)
          (Moves-then _ _ take_write (Moves-then _ _ (learn-Moves addr a vni dest nh) give_write))

  pub process_update-Returns : (u : Update) → Returns {Net = Net} (process_update u)
  unfolding process_update
  process_update-Returns u = Moves-bind _ _ (or_fail-Returns _ _) λ a.
      Moves-bind _ _ (or_fail-Returns _ _) λ pb_dest. Moves-bind _ _ (or_fail-Returns _ _) λ pb_nh.
        Moves-bind _ _ (or_fail-Returns _ _)
          λ dest. Moves-bind _ _ (or_fail-Returns _ _) λ nh. apply-Returns _ _ dest nh
