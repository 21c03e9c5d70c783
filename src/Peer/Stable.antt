-- ===== src/Peer/Stable.antt =====
-- A property of a peer's world that the basic actions keep is kept by every handler. `Sendable` are
-- the messages that may be put into the channel, `Settable` the states that may be entered.
use metalbond_rs.HashMap.{HashSet}
use metalbond_rs.Types.{
  Vni, SocketAddr, Destination, NextHop, Ipnet, InternalUpdate, ConnectionState,
  ConnectionDirection, UpdateAction, add, hello_sent, hello_received, established,
}
use metalbond_rs.RouteTable.{Removed, RouteResult, ok, err}
use metalbond_rs.Wire.{Hello, Subscription, Update, Prost}
use metalbond_rs.Codec.{GeneratedMessage, hello, keepalive, subscribe, update}
use metalbond_rs.State.{MetalBondState}
use metalbond_rs.State.Actions.{
  World, lock_read, drop_read, lock_write, drop_write, reading, send_route_update,
}
use metalbond_rs.Peer.{
  Source, send_message, send_hello, send_keepalive, send_subscribe, send_update, trigger_shutdown,
  put_state, set_remote_server, change_remote_subs, take_routes, drop_subscriber,
  drop_subscriptions, cleanup_peer_state, initial_subscribe, initial_announcements, on_established,
  set_state,
}
use metalbond_rs.Peer.Handlers.{
  add_subscriber, remove_subscriber, record_route, forget_route, process_hello, process_keepalive,
  process_subscribe, process_unsubscribe, process_update, hello_in_direction,
  keepalive_in_direction, offer_route, withdraw_route, after_removal, learn, apply_update,
}
use metalbond_rs.Peer.Keeps.{
  Keeps, keeps_reading, keeps_then, keeps_bind, keeps_gets, keeps_when, keeps_pure, keeps_for_each,
  keeps_or_else, keeps_bail, keeps_or_fail, keeps_on_fail,
}
use metalbond_rs.Common.{Bool, true}

module _ {Net : Type 0} ⦃i : Ipnet Net⦄ ⦃prost : Prost⦄ where
  pub record Stable (P : World Net → Type 0) (Sendable : GeneratedMessage → Type 0)
      (Settable : ConnectionState → Type 0) : Type 1 where
    pub send : (m : GeneratedMessage) → Sendable m → Keeps P (send_message m)
    pub put : (s : ConnectionState) → Settable s → Keeps P (put_state s)
    pub trigger : Keeps P trigger_shutdown
    pub remote_server : (b : Bool) → Keeps P (set_remote_server b)
    pub remote_subs : (f : HashSet Vni → HashSet Vni) → Keeps P (change_remote_subs f)
    pub read : Keeps P lock_read
    pub end_read : Keeps P drop_read
    pub write : Keeps P lock_write
    pub end_write : Keeps P drop_write
    pub announce : (u : InternalUpdate Net) → Keeps P (send_route_update u)
    pub take : (a : SocketAddr) → Keeps P (take_routes a)
    pub drop : (a : SocketAddr) (v : Vni) → Keeps P (drop_subscriber a v)
    pub join : (a : SocketAddr) (v : Vni) → Keeps P (add_subscriber a v)
    pub part : (a : SocketAddr) (v : Vni) → Keeps P (remove_subscriber a v)
    pub learned :
        (a : SocketAddr) (v : Vni) (d : Destination Net) (n : NextHop)
        → Keeps P (record_route a v d n)
    pub forgot :
        (a : SocketAddr) (v : Vni) (d : Destination Net) (n : NextHop)
        → Keeps P (forget_route a v d n)

  module _ {P : World Net → Type 0} {Sendable : GeneratedMessage → Type 0}
      {Settable : ConnectionState → Type 0} (st : Stable P Sendable Settable) where
    open st use {
      send, put, trigger, remote_server, remote_subs, read, end_read, write, end_write, announce,
      take, drop, join, part, learned, forgot,
    }

    look : {A : Type 0} (f : MetalBondState Net → A) → Keeps P (reading f)
    look f = keeps_reading f read end_read

    drop_keeps : (a : SocketAddr) (subs : HashSet Vni) → Keeps P (drop_subscriptions a subs)
    unfolding drop_subscriptions
    drop_keeps a subs = keeps_when _ _ _ (keeps_pure tt) (
        keeps_then _ _ write
          (keeps_then _ _ (keeps_for_each _ _ (drop a)) (keeps_then _ _ (remote_subs _) end_write)))

    pub cleanup_keeps : Keeps P cleanup_peer_state
    unfolding cleanup_peer_state
    cleanup_keeps = keeps_then _ _ read (
        keeps_bind _ _ (keeps_gets _) λ a. keeps_bind _ _ (take a) λ rs.
          keeps_then _ _ (keeps_for_each _ _ (λ r. announce _))
            (keeps_bind _ _ (keeps_gets _) λ subs. keeps_then _ _ (drop_keeps a subs) end_read))

    module _ (offer : (u : Update) → Sendable (update u))
        (request : (s : Subscription) → Sendable (subscribe s)) where
      send_update_keeps :
          (a : UpdateAction) (v : Vni) (d : Destination Net) (n : NextHop)
          → Keeps P (send_update a v d n)
      unfolding send_update
      send_update_keeps a v d n = send _ (offer _)

      established_keeps : Keeps P on_established
      unfolding on_established initial_subscribe initial_announcements send_subscribe
      established_keeps = keeps_bind _ _ (look _) λ subs.
          keeps_then _ _ (keeps_for_each _ _ (λ v. keeps_or_else _ _ (send _ (request _)) trigger))
            (keeps_bind _ _ (look _) λ m.
              keeps_or_else _ _
                (keeps_for_each _ _ (λ r. send_update_keeps add r.vni r.destination r.next_hop))
                trigger)

      pub set_state_keeps : (s : ConnectionState) → Settable s → Keeps P (set_state s)
      unfolding set_state
      set_state_keeps s may = keeps_bind _ _ (keeps_gets _) λ old.
          keeps_when _ _ _ (keeps_pure tt) (
            keeps_then _ _ (put s may)
              (keeps_when _ _ _ established_keeps (keeps_when _ _ _ cleanup_keeps (keeps_pure tt))))

      module _ (greet : (h : Hello) → Sendable (hello h)) (sent : Settable hello_sent)
          (received : Settable hello_received) where
        send_hello_keeps : (b : Bool) → Keeps P (send_hello b)
        unfolding send_hello
        send_hello_keeps b = keeps_bind _ _ (keeps_gets _) λ k. send _ (greet _)

        in_direction :
            (d : ConnectionDirection) (s : ConnectionState) → Keeps P (hello_in_direction d s)
        unfolding hello_in_direction
        in_direction ConnectionDirection.incoming s =
            keeps_when _ _ _
              (keeps_then _ _ (send_hello_keeps true) (set_state_keeps hello_sent sent))
              (keeps_pure tt)
        in_direction ConnectionDirection.outgoing s =
            keeps_when _ _ _ (set_state_keeps hello_received received) (keeps_pure tt)

        pub process_hello_keeps : (h : Hello) → Keeps P (process_hello h)
        unfolding process_hello
        process_hello_keeps h = keeps_when _ _ _ (keeps_bail _) (
            keeps_then _ _ (remote_server _) (
              keeps_bind _ _ (keeps_gets _)
                λ s. keeps_bind _ _ (keeps_gets _) λ d. in_direction d s))

      module _ (alive : Sendable keepalive) (est : Settable established) where
        in_direction_alive :
            (d : ConnectionDirection) (s : ConnectionState) → Keeps P (keepalive_in_direction d s)
        unfolding keepalive_in_direction send_keepalive
        in_direction_alive ConnectionDirection.incoming s =
            keeps_when _ _ _ (set_state_keeps established est)
              (keeps_when _ _ _ (send _ alive) (keeps_bail _))
        in_direction_alive ConnectionDirection.outgoing s =
            keeps_when _ _ _ (set_state_keeps established est)
              (keeps_when _ _ _ (keeps_pure tt) (keeps_bail _))

        pub process_keepalive_keeps : Keeps P process_keepalive
        unfolding process_keepalive
        process_keepalive_keeps =
            keeps_bind _ _ (keeps_gets _)
              λ s. keeps_bind _ _ (keeps_gets _) λ d. in_direction_alive d s

      offer_keeps : (a : SocketAddr) (v : Vni) (r : Source Net) → Keeps P (offer_route a v r)
      unfolding offer_route
      offer_keeps a v r =
          keeps_when _ _ _
            (keeps_on_fail _ _ (send_update_keeps add v r.destination r.next_hop) trigger)
            (keeps_pure tt)

      pub process_subscribe_keeps : (s : Subscription) → Keeps P (process_subscribe s)
      unfolding process_subscribe
      process_subscribe_keeps s = keeps_bind _ _ (keeps_gets _) λ a. keeps_then _ _ write (
          keeps_bind _ _ (join a s.vni) λ was_inserted. keeps_then _ _ end_write (
            keeps_then _ _ (remote_subs _) (
              keeps_when _ _ _ (keeps_pure tt)
                (keeps_bind _ _ (look _) λ m. keeps_for_each _ _ (offer_keeps a s.vni)))))

    after_removal_keeps :
        (a : SocketAddr) (r : Removed Net) (x : RouteResult) → Keeps P (after_removal a r x)
    unfolding after_removal
    after_removal_keeps a r (ok n) = keeps_when _ _ _ (announce _) (keeps_pure tt)
    after_removal_keeps a r (err e) = keeps_pure tt

    withdraw_keeps : (a : SocketAddr) (v : Vni) (r : Source Net) → Keeps P (withdraw_route a v r)
    unfolding withdraw_route
    withdraw_keeps a v r = keeps_when _ _ _ (keeps_pure tt) (
        keeps_then _ _ write (
          keeps_bind _ _ (forgot a v r.destination r.next_hop)
            λ x. keeps_then _ _ (after_removal_keeps a _ x) end_write))

    pub process_unsubscribe_keeps : (s : Subscription) → Keeps P (process_unsubscribe s)
    unfolding process_unsubscribe
    process_unsubscribe_keeps s = keeps_bind _ _ (keeps_gets _) λ a. keeps_then _ _ write (
        keeps_bind _ _ (part a s.vni) λ removed. keeps_then _ _ end_write (
          keeps_then _ _ (remote_subs _) (
            keeps_when _ _ _ (keeps_pure tt)
              (keeps_bind _ _ (look _) λ m. keeps_for_each _ _ (withdraw_keeps a s.vni)))))

    learn_keeps :
        (a : SocketAddr) (x : UpdateAction) (v : Vni) (d : Destination Net) (n : NextHop)
        → Keeps P (learn a x v d n)
    unfolding learn
    learn_keeps a UpdateAction.add v d n =
        keeps_bind _ _ (learned a v d n) λ added. keeps_when _ _ _ (announce _) (keeps_pure tt)
    learn_keeps a UpdateAction.remove v d n =
        keeps_bind _ _ (forgot a v d n) λ x. after_removal_keeps a _ x

    apply_update_keeps :
        (x : UpdateAction) (v : Vni) (d : Destination Net) (n : NextHop)
        → Keeps P (apply_update x v d n)
    unfolding apply_update
    apply_update_keeps x v d n = keeps_bind _ _ (look _) λ local.
        keeps_bind _ _ (keeps_gets _) λ dir. keeps_bind _ _ (keeps_gets _) λ a.
          keeps_when _ _ _ (keeps_pure tt)
            (keeps_then _ _ write (keeps_then _ _ (learn_keeps a x v d n) end_write))

    pub process_update_keeps : (u : Update) → Keeps P (process_update u)
    unfolding process_update
    process_update_keeps u = keeps_bind _ _ (keeps_or_fail _ _) λ x.
        keeps_bind _ _ (keeps_or_fail _ _) λ pd. keeps_bind _ _ (keeps_or_fail _ _) λ pn.
          keeps_bind _ _ (keeps_or_fail _ _)
            λ d. keeps_bind _ _ (keeps_or_fail _ _) λ n. apply_update_keeps _ u.vni d n
