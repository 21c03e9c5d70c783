-- ===== src/Examples/Tasks.antt =====
-- The laws of the task of a connection at concrete tasks.
use mathlib.Core.Bool.{decide}
use metalbond_rs.Types.{
  socket_addr_eq, UpdateAction, ConnectionDirection, hello_received, established, closed,
  connection_state_eq, connection_state_discrete, destination_discrete, ip_addr_discrete,
  next_hop_discrete, hop_type_discrete, peer_key_discrete, socket_addr_discrete, default_config,
}
use metalbond_rs.HashMap.{or_default, contains}
use metalbond_rs.RouteTable.{
  get_local_announcements, remove_routes_from_peer, Removed, removed_eq, add_next_hop,
  next_hop_exists,
}
use metalbond_rs.Wire.{pb_of_action}
use metalbond_rs.Codec.{GeneratedMessage, subscribe}
use metalbond_rs.State.{new_peer, new_state, route_update_buffer_size, peer_tx_buffer_size}
use metalbond_rs.State.Actions.{done, deadlock, World, reading, ◌>>=◌, ◌>>◌}
use metalbond_rs.Peer.{
  announcements_of, send_hello, send_message, put_state, set_state, cleanup_peer_state,
  update_message,
}
use metalbond_rs.Peer.Handlers.{process_subscribe, process_unsubscribe, process_update}
use metalbond_rs.Peer.Session.{
  Session, start, open_connection, say_hello, after_hello, frame, outbound, timeout, interval_tick,
  is_enabled, reset, step, fresh,
}
use metalbond_rs.Peer.Sound.{IsSound}
use metalbond_rs.Peer.SoundSession.{LeavesSound, step-IsSound}
use metalbond_rs.Peer.GuardsSession.{IsReleased, step-IsReleased}
use metalbond_rs.Peer.Handshake.{Link, Move, begin, Reach, never_established}
use metalbond_rs.Peer.Cleanup.{
  taken, routes_gone, AreRoutesGone, cleanup_peer_state-result, reset-deadlock,
}
use metalbond_rs.Peer.Subscribers.{contains-process_subscribe}
use metalbond_rs.Peer.Leaving.{contains-process_unsubscribe}
use metalbond_rs.Peer.Timers.{rounds, rounds-timeout}
use metalbond_rs.Peer.Arrival.{local_routes, with_messages, greetings, set_state-established}
use metalbond_rs.Peer.Learned.{IsReadable, learned, process_update-add}
use metalbond_rs.Examples.Fixtures.{
  Prefix, prefixes, bytes, alice, bob, subnet, gateway, table, table-IsTidyTable, client_state,
  server_state, at_client, at_server, action_of, number_of, prefix_discrete,
}
use metalbond_rs.Examples.Frames.{subnet-Rebuilds, gateway-IsNextHop}
use metalbond_rs.Common.{
  nat_beq, not, ◌&&◌, ◌||◌, ◌+◌, ◌≤◌, ℕ_discrete, some, none, true, false, [], ◌∷◌, length, ◌==◌,
  ==_false, ◌≡◌, refl, arith, nat_eq,
}

abbrev opening : Link Prefix
opening = record {
  connecting_side = begin default_config bob ConnectionDirection.outgoing client_state;
  listening_side = begin default_config alice ConnectionDirection.incoming server_state;
  connecting_read = 0;
  listening_read = 0;
}

abbrev served : Link Prefix
served = record opening { connecting_side = (step (outbound true) false opening.connecting_side).1 }

says_hello : is_enabled (outbound true) opening.connecting_side ≡ true
unfolding is_enabled start fresh open_connection say_hello send_hello send_message set_state
    put_state reading after_hello ◌>>=◌ ◌>>◌ new_state new_peer remove_routes_from_peer add_next_hop
    destination_discrete prefix_discrete ip_addr_discrete next_hop_discrete hop_type_discrete
    peer_key_discrete socket_addr_discrete connection_state_discrete ℕ_discrete decide
says_hello = refl

served-Reach : Reach served
served-Reach =
    Reach.connecting_moves served.connecting_side 0
      (Reach.opened default_config default_config bob alice client_state server_state)
      (Move.round (outbound true) false opening.connecting_side 0 says_hello refl)

never_established_example :
    ((served.connecting_side.world.peer.state == established) ≡ false)
    × ((served.listening_side.world.peer.state == established) ≡ false)
never_established_example = never_established served served-Reach

-- The server's task once Alice is established and subscribed.
abbrev busy : World Prefix
busy = record at_server {
  peer = record (at_server.peer) { state = established; subscribed_vnis_remote = 7 ∷ [] };
}

fits : length busy.mb.route_updates + length (taken busy) ≤ route_update_buffer_size
unfolding new_state new_peer remove_routes_from_peer add_next_hop destination_discrete
    prefix_discrete ip_addr_discrete next_hop_discrete hop_type_discrete peer_key_discrete
    socket_addr_discrete connection_state_discrete ℕ_discrete decide
fits = omega arith

reset-deadlock_example : reset busy ≡ (
  deadlock,
  record (routes_gone (record busy { peer = record (busy.peer) { state = closed } })) {
    readers = 0 + 1;
  },
)
unfolding new_state new_peer
reset-deadlock_example = reset-deadlock busy refl refl refl fits refl

cleanup_peer_state-result_example :
    ((cleanup_peer_state busy).0 ≡ deadlock) × AreRoutesGone busy (cleanup_peer_state busy).1
unfolding new_state new_peer
cleanup_peer_state-result_example = cleanup_peer_state-result busy refl refl fits table-IsTidyTable

at_server-IsSound : IsSound at_server
unfolding new_state new_peer
at_server-IsSound = (table-IsTidyTable, (tt, tt), omega arith, omega arith)

step-IsSound_example :
    LeavesSound (step (frame (subscribe (record { vni = 8 }))) true (fresh at_server))
unfolding fresh
step-IsSound_example =
    step-IsSound (frame (subscribe (record { vni = 8 }))) true (fresh at_server) at_server-IsSound

step-IsReleased_example :
    IsReleased (step (frame (subscribe (record { vni = 8 }))) true (fresh at_server))
unfolding fresh
step-IsReleased_example =
    step-IsReleased (frame (subscribe (record { vni = 8 }))) true (fresh at_server) (refl, refl)

abbrev ticking : Session Prefix
ticking = record {
  world = at_client;
  interval_on = true;
  timeout_armed = true;
  finished = false;
  sent = [];
}

rounds-timeout_example :
    is_enabled timeout (
      rounds
        ((interval_tick, true)
          ∷ (frame GeneratedMessage.keepalive, false)
          ∷ (outbound true, true)
          ∷ [])
        ticking)
    ≡ false
rounds-timeout_example =
    rounds-timeout interval_tick
      ((frame GeneratedMessage.keepalive, false) ∷ (outbound true, true) ∷ []) ticking refl

-- A client with an announcement, and a peer about to be established.
abbrev greeted : World Prefix
greeted = record at_client {
  peer = record (at_client.peer) { state = hello_received };
  mb = record (at_client.mb) { my_announcements = table };
}

one_greeting : length (local_routes greeted) ≡ 1
unfolding get_local_announcements announcements_of add_next_hop destination_discrete prefix_discrete
    ip_addr_discrete next_hop_discrete hop_type_discrete peer_key_discrete socket_addr_discrete
    ℕ_discrete decide
one_greeting = refl

has_room :
    length greeted.peer.tx_queue
      + (length greeted.mb.my_subscriptions + length (local_routes greeted))
    ≤ peer_tx_buffer_size
unfolding new_state new_peer
has_room = omega (arith, one_greeting)

set_state-established_example :
    (set_state established greeted ≡ (
      done tt,
      with_messages
          (record greeted { peer = record (greeted.peer) { state = established } })
          (greetings greeted),
    ))
    × ((r : Removed Prefix)
        → contains r (local_routes greeted)
          ≡ next_hop_exists table r.vni r.destination r.next_hop none)
unfolding new_state new_peer
set_state-established_example =
    set_state-established greeted (==_false hello_received established (λ p. cc)) refl
      (refl, has_room) table-IsTidyTable

reads_action :
    (action : UpdateAction)
    → action_of (number_of (pb_of_action action)) ≡ some (pb_of_action action)
unfolding pb_of_action
reads_action UpdateAction.add = refl
reads_action UpdateAction.remove = refl

pub route-IsReadable : (action : UpdateAction) → IsReadable action subnet gateway
route-IsReadable action = record {
  prefix = subnet-Rebuilds;
  hop = gateway-IsNextHop;
  hop_number = refl;
  action_numbers = reads_action action;
}

process_update-add_example :
    process_update (update_message UpdateAction.add 7 subnet gateway) at_client
    ≡ (done tt, learned 7 subnet gateway at_client)
unfolding new_state new_peer contains
process_update-add_example =
    process_update-add 7 subnet gateway at_client (route-IsReadable UpdateAction.add) refl refl refl
      (omega arith) refl

contains-process_subscribe_example :
    (contains alice
        (or_default 8 (process_subscribe (record { vni = 8 }) at_server).1.mb.subscribers)
      ≡ ((nat_beq 8 8 && at_server.peer.remote_addr == alice)
          || contains alice (or_default 8 at_server.mb.subscribers)))
    × (contains 8 (process_subscribe (record { vni = 8 }) at_server).1.peer.subscribed_vnis_remote
        ≡ (nat_beq 8 8 || contains 8 at_server.peer.subscribed_vnis_remote))
contains-process_subscribe_example =
    contains-process_subscribe (record { vni = 8 }) at_server 8 alice refl refl

contains-process_unsubscribe_example :
    (contains alice (or_default 7 (process_unsubscribe (record { vni = 7 }) busy).1.mb.subscribers)
      ≡ (not (nat_beq 7 7 && busy.peer.remote_addr == alice)
          && contains alice (or_default 7 busy.mb.subscribers)))
    × (contains 7 (process_unsubscribe (record { vni = 7 }) busy).1.peer.subscribed_vnis_remote
        ≡ (not (nat_beq 7 7) && contains 7 busy.peer.subscribed_vnis_remote))
contains-process_unsubscribe_example =
    contains-process_unsubscribe (record { vni = 7 }) busy 7 alice refl refl
