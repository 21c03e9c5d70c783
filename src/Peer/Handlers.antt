-- ===== src/Peer/Handlers.antt =====
-- The handlers of peer.rs: `process_hello`, `process_keepalive`, `process_subscribe`,
-- `process_unsubscribe` and `process_update`.
use metalbond_rs.HashMap.{
  HashMap, HashSet, get, insert, remove, contains, set_insert, set_remove, erase, or_default,
}
use metalbond_rs.Types.{
  Vni, SocketAddr, Destination, NextHop, nat, UpdateAction, Ipnet, ConnectionDirection,
  ConnectionState, connecting, hello_sent, hello_received, established, socket_addr_eq, peer_key_eq,
  connection_state_eq, hop_type_eq,
}
use metalbond_rs.RouteTable.{
  RouteResult, ok, err, get_destinations_by_vni_with_peer, add_next_hop, remove_next_hop,
}
use metalbond_rs.Wire.{
  Hello, Subscription, Update, Prost, action_of_pb, destination_of_pb, next_hop_of_pb,
}
use metalbond_rs.State.Actions.{
  PeerError, invalid_keepalive_interval, keepalive_in_wrong_state, unknown_action,
  missing_destination, missing_next_hop, invalid_destination, invalid_next_hop, M, Done, pure, bail,
  ◌>>=◌, ◌>>◌, on_fail, gets, change, lock_write, drop_write, reading, send_route_update, for_each,
  when◌then◌else◌,
}
use metalbond_rs.Peer.{
  Source, sources_of, set_remote_server, change_remote_subs, send_hello, send_keepalive,
  send_update, trigger_shutdown, set_state, removal,
}
use metalbond_rs.RouteTable.{Removed}
use metalbond_rs.Common.{
  Bool, true, false, not, ◌&&◌, ◌||◌, Option, none, some, is_empty, nat_beq, ◌==◌, if◌then◌else◌,
  nat_eq,
}

-- `x.ok_or_else(|| e)?`
unfoldable pub or_fail : {Net A : Type 0} → PeerError → Option A → M Net A
unfolding bail pure
or_fail e none = bail e
or_fail e (some a) = pure a

-- The removal of a subscriber, and of a VNI that has none left.
unfoldable pub leave_subscribers :
    SocketAddr → Vni → HashMap Vni (HashSet SocketAddr) → HashMap Vni (HashSet SocketAddr) × Bool
unfolding get set_remove remove insert
leave_subscribers addr vni subscribers = elim (get vni subscribers) [
  | none ↦ (subscribers, false)
  | some peer_set ↦
      let (left, removed) = set_remove addr peer_set in
      (if is_empty left then remove vni subscribers else insert vni left subscribers, removed)
]

abbrev pub is_outgoing : ConnectionDirection → Bool
is_outgoing ConnectionDirection.incoming = false
is_outgoing ConnectionDirection.outgoing = true

module _ {Net : Type 0} ⦃i : Ipnet Net⦄ ⦃prost : Prost⦄ where
  unfoldable pub hello_in_direction : ConnectionDirection → ConnectionState → M Net Done
  hello_in_direction ConnectionDirection.incoming current_state =
      when current_state == connecting || current_state == hello_received
      then (send_hello true >> set_state hello_sent)
      else pure tt
  hello_in_direction ConnectionDirection.outgoing current_state =
      when current_state == hello_sent then set_state hello_received else pure tt

  unfoldable pub process_hello : Hello → M Net Done
  unfolding hello_in_direction
  process_hello hello =
      when nat_beq hello.keepalive_interval 0 then bail invalid_keepalive_interval else do
        set_remote_server hello.is_server
        current_state ← gets (λ p. p.state)
        direction ← gets (λ p. p.direction)
        hello_in_direction direction current_state

  unfoldable pub keepalive_in_direction : ConnectionDirection → ConnectionState → M Net Done
  keepalive_in_direction ConnectionDirection.incoming current_state =
      when current_state == hello_sent
      then set_state established
      else when current_state == established
      then send_keepalive
      else bail keepalive_in_wrong_state
  keepalive_in_direction ConnectionDirection.outgoing current_state =
      when current_state == hello_received
      then set_state established
      else when current_state == established
      then pure tt
      else bail keepalive_in_wrong_state

  unfoldable pub process_keepalive : M Net Done
  unfolding keepalive_in_direction
  process_keepalive = do
    current_state ← gets (λ p. p.state)
    direction ← gets (λ p. p.direction)
    keepalive_in_direction direction current_state

  -- `subscribers.entry(vni).or_default().insert(addr)`
  unfoldable pub add_subscriber : SocketAddr → Vni → M Net Bool
  add_subscriber addr vni = change λ mb.
      let (peer_set, was_inserted) = set_insert addr (or_default vni mb.subscribers) in
      (record mb { subscribers = insert vni peer_set mb.subscribers }, was_inserted)

  -- The body of the loop over the routes of the VNI. No source makes a loop between servers: the
  -- closure that looks for one returns false.
  unfoldable pub offer_route : SocketAddr → Vni → Source Net → M Net Done
  offer_route addr vni r =
      when not (r.next_hop.hop_type == nat && contains (some addr) r.sources)
      then on_fail (send_update UpdateAction.add vni r.destination r.next_hop) trigger_shutdown
      else pure tt

  unfoldable pub process_subscribe : Subscription → M Net Done
  unfolding offer_route
  process_subscribe sub = do
    addr ← gets (λ p. p.remote_addr)
    lock_write
    was_inserted ← add_subscriber addr sub.vni
    drop_write
    change_remote_subs (λ s. (set_insert sub.vni s).0)
    when not was_inserted then pure tt else do
      routes_to_send ← reading (λ mb. get_destinations_by_vni_with_peer mb.route_table sub.vni)
      for_each (offer_route addr sub.vni) (sources_of routes_to_send)

  unfoldable pub remove_subscriber : SocketAddr → Vni → M Net Bool
  unfolding leave_subscribers
  remove_subscriber addr vni = change λ mb.
      let (m, removed) = leave_subscribers addr vni mb.subscribers in
      (record mb { subscribers = m }, removed)

  unfoldable pub record_route : SocketAddr → Vni → Destination Net → NextHop → M Net Bool
  record_route addr vni dest nh = change λ mb.
      let (t, added) = add_next_hop mb.route_table vni dest nh (some addr) in
      (record mb { route_table = t }, added)

  unfoldable pub forget_route : SocketAddr → Vni → Destination Net → NextHop → M Net RouteResult
  forget_route addr vni dest nh = change λ mb.
      let (t, result) = remove_next_hop mb.route_table vni dest nh (some addr) in
      (record mb { route_table = t }, result)

  unfoldable pub after_removal : SocketAddr → Removed Net → RouteResult → M Net Done
  after_removal addr r (ok remaining) =
      when nat_beq remaining 0 then send_route_update (removal addr r) else pure tt
  after_removal addr r (err e) = pure tt

  -- The body of the loop over the routes of the VNI.
  unfoldable pub withdraw_route : SocketAddr → Vni → Source Net → M Net Done
  unfolding after_removal
  withdraw_route addr vni r = when not (contains (some addr) r.sources) then pure tt else do
    lock_write
    result ← forget_route addr vni r.destination r.next_hop
    after_removal addr (record { vni = vni; destination = r.destination; next_hop = r.next_hop })
        result
    drop_write

  unfoldable pub process_unsubscribe : Subscription → M Net Done
  unfolding withdraw_route
  process_unsubscribe unsub = do
    addr ← gets (λ p. p.remote_addr)
    lock_write
    removed ← remove_subscriber addr unsub.vni
    drop_write
    change_remote_subs (erase unsub.vni)
    when not removed then pure tt else do
      routes_to_remove ← reading (λ mb. get_destinations_by_vni_with_peer mb.route_table unsub.vni)
      for_each (withdraw_route addr unsub.vni) (sources_of routes_to_remove)

  -- The route table part of `process_update` under the write lock, and the update that it sends.
  unfoldable pub learn : SocketAddr → UpdateAction → Vni → Destination Net → NextHop → M Net Done
  learn addr UpdateAction.add vni dest nh = do
    added ← record_route addr vni dest nh
    when added
        then send_route_update (record {
          action = UpdateAction.add;
          vni = vni;
          destination = dest;
          next_hop = nh;
          source_peer = some addr;
        })
        else pure tt
  learn addr UpdateAction.remove vni dest nh = do
    result ← forget_route addr vni dest nh
    after_removal addr (record { vni = vni; destination = dest; next_hop = nh }) result

  unfoldable pub apply_update : UpdateAction → Vni → Destination Net → NextHop → M Net Done
  unfolding learn after_removal
  apply_update action vni dest nh = do
    is_subscribed_locally ← reading (λ mb. contains vni mb.my_subscriptions)
    direction ← gets (λ p. p.direction)
    addr ← gets (λ p. p.remote_addr)
    when not is_subscribed_locally && is_outgoing direction
        then pure tt
        else do lock_write; learn addr action vni dest nh; drop_write

  unfoldable pub process_update : Update → M Net Done
  process_update update = do
    action ← or_fail unknown_action (prost.action_of_number update.action)
    pb_dest ← or_fail missing_destination update.destination
    pb_nh ← or_fail missing_next_hop update.next_hop
    dest ← or_fail invalid_destination (destination_of_pb pb_dest)
    nh ← or_fail invalid_next_hop (next_hop_of_pb pb_nh)
    apply_update (action_of_pb action) update.vni dest nh
