-- ===== src/Peer.antt =====
-- peer.rs: what a peer sends and its changes of state; the handlers of the messages that it
-- receives stand in `Handlers`, its task in `Session`. Logging is left out. A loop over nested maps
-- is a loop over the list of their entries.
pub mod Handlers
pub mod Session
pub mod Keeps
pub mod Guards
pub mod GuardsHandlers
pub mod GuardsSession
pub mod Stable
pub mod Sound
pub mod SoundSession
pub mod Quiet
pub mod Handshake
pub mod Cleanup
pub mod Timers
pub mod Greetings
pub mod Arrival
pub mod Learned
pub mod Subscribers
pub mod Leaving
use metalbond_rs.HashMap.{
  HashMap, HashSet, get, insert, remove, contains, set_insert, set_remove, erase, or_default,
}
use metalbond_rs.Types.{
  Vni, SocketAddr, PeerKey, Destination, NextHop, NextHopType, nat, UpdateAction, add, Ipnet,
  InternalUpdate, ConnectionState, connecting, hello_sent, hello_received, established, closed,
  incoming, outgoing, as_secs, socket_addr_eq, peer_key_eq, connection_state_eq, hop_type_eq,
}
use metalbond_rs.RouteTable
use metalbond_rs.RouteTable.{
  RouteTable, Removed, ok, err, get_local_announcements, get_destinations_by_vni_with_peer,
  add_next_hop, remove_next_hop, remove_routes_from_peer,
}
use metalbond_rs.Wire.{
  Hello, Subscription, Update, Prost, action_of_pb, pb_of_action, destination_of_pb,
  pb_of_destination, next_hop_of_pb, pb_of_next_hop,
}
use metalbond_rs.Codec.{GeneratedMessage, hello, keepalive, subscribe, unsubscribe, update}
use metalbond_rs.State.{Peer, MetalBondState, peer_tx_buffer_size}
use metalbond_rs.State.Actions.{
  PeerError, tx_full, tx_closed, invalid_keepalive_interval, keepalive_in_wrong_state,
  unknown_action, missing_destination, missing_next_hop, invalid_destination, invalid_next_hop,
  done, fail, waits, deadlock, Exit, World, M, Done, pure, bail, ◌>>=◌, ◌>>◌, or_else, gets,
  change_peer, view, change, lock_read, drop_read, lock_write, drop_write, reading,
  send_route_update, for_each, when◌then◌else◌,
}
use metalbond_rs.Common.{
  ℕ, ◌%◌, ◌^◌, Bool, true, false, not, ◌&&◌, ◌||◌, Option, none, some, List, [], ◌∷◌, ◌++◌, map,
  length, is_empty, leb, nat_beq, ◌==◌, if◌then◌else◌, nat_eq,
}

-- The entries of `HashMap<Vni, HashMap<Destination, Vec<NextHop>>>`.
hops_of : {Net : Type 0} → Vni → Destination Net → List NextHop → List (Removed Net)
hops_of vni dest [] = []
hops_of vni dest (nh ∷ nhs) =
    record { vni = vni; destination = dest; next_hop = nh } ∷ hops_of vni dest nhs

destinations_of :
    {Net : Type 0} → Vni → HashMap (Destination Net) (List NextHop) → List (Removed Net)
unfolding hops_of
destinations_of vni [] = []
destinations_of vni ((dest, nhs) ∷ m) = hops_of vni dest nhs ++ destinations_of vni m

unfoldable pub announcements_of :
    {Net : Type 0} → HashMap Vni (HashMap (Destination Net) (List NextHop)) → List (Removed Net)
unfolding destinations_of
announcements_of [] = []
announcements_of ((vni, m) ∷ ms) = destinations_of vni m ++ announcements_of ms

-- An entry of `HashMap<Destination, HashMap<NextHop, Vec<PeerKey>>>`.
pub record Source (Net : Type 0) : Type 0 where
  pub destination : Destination Net
  pub next_hop : NextHop
  pub sources : List PeerKey

hops_with_peers :
    {Net : Type 0} → Destination Net → HashMap NextHop (List PeerKey) → List (Source Net)
hops_with_peers dest [] = []
hops_with_peers dest ((nh, sources) ∷ m) =
    record { destination = dest; next_hop = nh; sources = sources } ∷ hops_with_peers dest m

pub sources_of :
    {Net : Type 0} → HashMap (Destination Net) (HashMap NextHop (List PeerKey)) → List (Source Net)
unfolding hops_with_peers
sources_of [] = []
sources_of ((dest, m) ∷ ms) = hops_with_peers dest m ++ sources_of ms

-- `if let Some(peer_set) = subscribers.get_mut(vni) { peer_set.remove(addr); }`
unfoldable pub erase_subscriber :
    SocketAddr → Vni → HashMap Vni (HashSet SocketAddr) → HashMap Vni (HashSet SocketAddr)
unfolding get insert erase
erase_subscriber addr vni subscribers = elim (get vni subscribers) [
  | none ↦ subscribers
  | some peer_set ↦ insert vni (erase addr peer_set) subscribers
]

module _ {Net : Type 0} where
  -- `try_send` on the channel to the peer.
  unfoldable pub send_message : GeneratedMessage → M Net Done
  send_message msg w =
      if not w.peer.tx_open
      then (fail tx_closed, w)
      else if leb peer_tx_buffer_size (length w.peer.tx_queue)
      then (fail tx_full, w)
      else (done tt, record w { peer = record (w.peer) { tx_queue = w.peer.tx_queue ++ msg ∷ [] } })

  unfoldable pub send_hello : Bool → M Net Done
  send_hello is_server = do
    interval ← gets (λ p. as_secs p.config.keepalive_interval % 2 ^ 32)
    send_message (hello (record { keepalive_interval = interval; is_server = is_server }))

  unfoldable pub send_keepalive : M Net Done
  send_keepalive = send_message keepalive

  unfoldable pub send_subscribe : Vni → M Net Done
  send_subscribe vni = send_message (subscribe (record { vni = vni }))

  unfoldable pub send_unsubscribe : Vni → M Net Done
  send_unsubscribe vni = send_message (unsubscribe (record { vni = vni }))

  unfoldable pub trigger_shutdown : M Net Done
  trigger_shutdown = change_peer (λ p. record p { shutdown_permit = true })

  unfoldable pub set_remote_server : Bool → M Net Done
  set_remote_server is_server = change_peer (λ p. record p { is_remote_server = is_server })

  unfoldable pub change_remote_subs : (HashSet Vni → HashSet Vni) → M Net Done
  change_remote_subs f =
      change_peer (λ p. record p { subscribed_vnis_remote = f p.subscribed_vnis_remote })

  unfoldable pub put_state : ConnectionState → M Net Done
  put_state new_state = change_peer (λ p. record p { state = new_state })

module _ {Net : Type 0} ⦃i : Ipnet Net⦄ ⦃prost : Prost⦄ where
  -- The message of `send_update`.
  abbrev pub update_message : UpdateAction → Vni → Destination Net → NextHop → Update
  update_message action vni dest nh = record {
    action = prost.action_number (pb_of_action action);
    vni = vni;
    destination = some (pb_of_destination dest);
    next_hop = some (pb_of_next_hop nh);
  }

  unfoldable pub send_update : UpdateAction → Vni → Destination Net → NextHop → M Net Done
  send_update action vni dest nh = send_message (update (update_message action vni dest nh))

  -- The body of the first loop of `set_state`.
  unfoldable pub initial_subscribe : Vni → M Net Done
  initial_subscribe vni = or_else (send_subscribe vni) trigger_shutdown

  -- The second loop of `set_state`: the first error ends it and triggers the shutdown.
  unfoldable pub initial_announcements : List (Removed Net) → M Net Done
  initial_announcements rs =
      or_else (for_each (λ r. send_update add r.vni r.destination r.next_hop) rs) trigger_shutdown

  unfoldable pub on_established : M Net Done
  on_established = do
    local_subs ← reading (λ mb. mb.my_subscriptions)
    for_each initial_subscribe local_subs
    local_announcements ← reading (λ mb. get_local_announcements mb.my_announcements)
    initial_announcements (announcements_of local_announcements)

  -- The removal that `cleanup_peer_state` and `process_unsubscribe` distribute.
  abbrev pub removal : SocketAddr → Removed Net → InternalUpdate Net
  removal addr r = record {
    action = UpdateAction.remove;
    vni = r.vni;
    destination = r.destination;
    next_hop = r.next_hop;
    source_peer = some addr;
  }

  unfoldable pub take_routes : SocketAddr → M Net (List (Removed Net))
  take_routes addr = change λ mb.
      let (t, removed) = remove_routes_from_peer mb.route_table addr in
      (record mb { route_table = t }, removed)

  unfoldable pub drop_subscriber : SocketAddr → Vni → M Net Done
  unfolding erase_subscriber
  drop_subscriber addr vni =
      change λ mb. (record mb { subscribers = erase_subscriber addr vni mb.subscribers }, tt)

  unfoldable pub drop_subscriptions : SocketAddr → HashSet Vni → M Net Done
  drop_subscriptions addr remote_subs = when is_empty remote_subs then pure tt else do
    lock_write
    for_each (drop_subscriber addr) remote_subs
    change_remote_subs (λ _. [])
    drop_write

  -- The read guard `mb_state` lives to the end of the function.
  unfoldable pub cleanup_peer_state : M Net Done
  cleanup_peer_state = do
    lock_read
    addr ← gets (λ p. p.remote_addr)
    removed_routes ← take_routes addr
    for_each (λ r. send_route_update (removal addr r)) removed_routes
    remote_subs ← gets (λ p. p.subscribed_vnis_remote)
    drop_subscriptions addr remote_subs
    drop_read

  unfoldable pub set_state : ConnectionState → M Net Done
  set_state new_state = do
    old_state ← gets (λ p. p.state)
    when old_state == new_state then pure tt else do
      put_state new_state
      when new_state == established && not (old_state == established)
          then on_established
          else when not (new_state == established) && old_state == established
          then cleanup_peer_state
          else pure tt
