-- ===== src/Examples/Wholes.antt =====
-- Sequences of operations, of frames and of steps, and a route on its way through an instance.
use metalbond_rs.Examples.Fixtures.{
  Prefix, prefixes, prefix_discrete, bytes, alice, bob, subnet, host, gateway,
}
use metalbond_rs.Examples.Instances.{server, server-IsPeerMap, no_twice}
use metalbond_rs.Examples.Tasks.{route-IsReadable}
use metalbond_rs.HashMap.{get, contains}
use metalbond_rs.Types.{
  UpdateAction, peer_key_eq, socket_addr_eq, destination_discrete, ip_addr_discrete,
  next_hop_discrete, hop_type_discrete, peer_key_discrete, socket_addr_discrete,
}
use metalbond_rs.RouteTable.{empty, next_hop_exists, add_next_hop}
use metalbond_rs.RouteTable.Refinement.{
  Operation, add, remove, exists, leave, answers, specified, answers-empty,
}
use metalbond_rs.Codec.{GeneratedMessage}
use metalbond_rs.State.{new_peer, new_state}
use metalbond_rs.Peer.{update_message}
use metalbond_rs.MetalBond.Choice.{is_subscriber, is_barred}
use metalbond_rs.MetalBond.Delivery.{accepts}
use metalbond_rs.MetalBond.Relay.{handle_update, next_update, next_update-handle_update}
use metalbond_rs.MetalBond.Shutdown.{
  waiting, busy, ended, Instance, after_notify, take_listener, here, step, running,
  joining_listener, complete, for_writer, shutdown_never_completes,
}
use mathlib.Core.Bool.{decide}
use metalbond_rs.Common.{
  false, not, ◌&&◌, some, none, List, [], ◌∷◌, ◌++◌, if◌then◌else◌, ℕ_discrete, ◌≡◌, ◌≢◌, refl,
  nat_eq, inr,
}

abbrev day : List (Operation Prefix)
day =
    add 7 subnet gateway (some alice)
    ∷ add 7 subnet gateway none
    ∷ remove 8 host gateway (some bob)
    ∷ leave alice
    ∷ exists 7 subnet gateway none
    ∷ []

answers-empty_example : answers day empty ≡ specified day (λ _ _ _ _. false)
answers-empty_example = answers-empty day

-- A server whose distributor handles an update when the signal comes.
abbrev at_work : Instance
at_work = record {
  listener = waiting;
  manager = waiting;
  distributor = busy;
  phase = running;
  room = for_writer;
}

abbrev stuck : Instance
stuck = record {
  listener = ended;
  manager = ended;
  distributor = busy;
  phase = joining_listener;
  room = for_writer;
}

shutdown_never_completes_example : joining_listener ≢ complete
shutdown_never_completes_example = shutdown_never_completes at_work stuck (inr refl) (
    step (after_notify at_work) stuck stuck (take_listener (after_notify at_work) refl tt)
      (here stuck))

next_update-handle_update_example :
    ((next_update (handle_update 1 (update_message UpdateAction.add 7 subnet gateway) server)).heap
      0).tx_queue
    ≡ (server.heap 0).tx_queue
      ++ (if is_subscriber 0 (alice ∷ bob ∷ []) server
            && (not (is_barred (some bob) gateway.hop_type 0 server) && accepts (server.heap 0))
          then GeneratedMessage.update (update_message UpdateAction.add 7 subnet gateway) ∷ []
          else [])
unfolding new_state new_peer contains get next_hop_exists decide add_next_hop destination_discrete
    prefix_discrete ip_addr_discrete ℕ_discrete next_hop_discrete hop_type_discrete
    peer_key_discrete socket_addr_discrete
next_update-handle_update_example =
    next_update-handle_update 7 subnet gateway 1 0 (alice ∷ bob ∷ []) server
      (route-IsReadable UpdateAction.add) refl refl refl refl refl server-IsPeerMap no_twice
