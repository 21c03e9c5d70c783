-- ===== src/MetalBond.antt =====
-- The operations of `MetalBond` in metalbond.rs, which the program calls beside the tasks of its
-- connections. Each holds the write lock of the shared state until it sends to peers, and is one step
-- with the sends that follow. Addresses are given parsed. The operating system's client is the list of
-- the calls made of it, and what it answers to `clear_routes_for_vni`.
pub mod Distributor
pub mod Choice
pub mod Delivery
pub mod Operations
pub mod Removal
pub mod Connections
pub mod Shutdown
pub mod Relay
pub mod Installs
pub mod Server
use metalbond_rs.HashMap.{
  HashMap, HashSet, get, contains_key, insert, remove, values, contains, set_insert, set_remove,
}
use metalbond_rs.Types.{
  Vni, SocketAddr, Ipnet, Destination, NextHop, UpdateAction, InternalUpdate, ConnectionState,
  connecting, established, socket_addr_eq, connection_state_eq,
}
use metalbond_rs.RouteTable.{
  Removed, RouteResult, ok, err, add_next_hop, remove_next_hop, next_hop_exists,
  remove_routes_from_peer,
}
use metalbond_rs.Wire.{Prost}
use metalbond_rs.State.{Peer, MetalBondState, route_update_buffer_size}
use metalbond_rs.State.Actions.{M, Done, World}
use metalbond_rs.Peer.{removal, send_subscribe, send_unsubscribe, trigger_shutdown}
use metalbond_rs.Common.{
  ℕ, zero, suc, drop, ◌+◌, Bool, true, false, not, ◌||◌, Option, none, some, List, [], ◌∷◌, ◌++◌,
  map, length, leb, nat_beq, ◌==◌, if◌then◌else◌, nat_eq,
}

pub data MetalBondError : Type 0 where
  server_mode client_mode bind_failed already_added peer_not_found : MetalBondError
  distribution_closed client_failed : MetalBondError

-- How an operation ends; `blocked` is a send on the full channel of route updates, under the write lock.
pub data Outcome (A : Type 0) : Type 0 where
  success : A → Outcome A
  failure : MetalBondError → Outcome A
  blocked : Outcome A

-- The calls of the trait `Client`.
pub data ClientCall (Net : Type 0) : Type 0 where
  add_route remove_route : Vni → Destination Net → NextHop → ClientCall Net
  clear_routes_for_vni : Vni → ClientCall Net

-- The shared state with every `Arc<Peer>`, by its number.
pub record Node (Net : Type 0) : Type 0 where
  pub mb : MetalBondState Net
  pub heap : ℕ → Peer
  pub client_calls : List (ClientCall Net)

abbrev pub put_peer : ℕ → Peer → (ℕ → Peer) → ℕ → Peer
put_peer k p heap j = if nat_beq j k then p else heap j

-- The turn of the distributor as the next send counts it; a turn is had once.
abbrev pub later : Option ℕ → Option ℕ
later (some (suc turn)) = some turn
later turn = none

-- The established ones among peers.
unfoldable pub connected : (ℕ → Peer) → List ℕ → List ℕ
connected heap [] = []
connected heap (k ∷ ks) =
    let rest = connected heap ks in if (heap k).state == established then k ∷ rest else rest

module _ {Net : Type 0} where
  -- An action of a peer that changes nothing but the peer, and whose error is only logged.
  unfoldable pub on_peer : M Net Done → ℕ → Node Net → Node Net
  on_peer m k n =
      let w : World Net = record { peer = n.heap k; mb = n.mb; readers = 0; writer = false } in
      record n { heap = put_peer k (m w).1.peer n.heap }

  unfoldable pub on_peers : M Net Done → List ℕ → Node Net → Node Net
  unfolding on_peer
  on_peers m [] n = n
  on_peers m (k ∷ ks) n = on_peers m ks (on_peer m k n)

  -- `route_update_tx.send(update).await`, with its error.
  unfoldable pub queue_update :
      InternalUpdate Net → MetalBondState Net → Outcome Done × MetalBondState Net
  queue_update update mb =
      if not mb.route_updates_open
      then (failure distribution_closed, mb)
      else if leb route_update_buffer_size (length mb.route_updates)
      then (blocked, mb)
      else (success tt, record mb { route_updates = mb.route_updates ++ update ∷ [] })

  -- The distributor takes the oldest update, if it is its turn. It needs no lock for this, but it
  -- needs one for what it does next, so while another task holds the write lock it has one turn at most.
  unfoldable pub receive : Option ℕ → MetalBondState Net → MetalBondState Net
  receive (some zero) mb = record mb { route_updates = drop 1 mb.route_updates }
  receive turn mb = mb

  -- The loop of `remove_peer`, which only logs an error. `turn` is the number of the send before or
  -- during whose wait the distributor has its turn.
  unfoldable pub queue_updates :
      Option ℕ → List (InternalUpdate Net) → MetalBondState Net → Outcome Done × MetalBondState Net
  unfolding queue_update receive
  queue_updates turn [] mb = (success tt, mb)
  queue_updates turn (u ∷ us) mb =
      let (outcome, mb') = queue_update u (receive turn mb) in
      elim outcome [
        | success _ ↦ queue_updates (later turn) us mb'
        | failure e ↦ queue_updates (later turn) us mb'
        | blocked ↦ (blocked, mb')
      ]

  unfoldable pub add_peer : SocketAddr → ℕ → Node Net → Outcome Done × Node Net
  unfolding insert
  add_peer server_addr handle n =
      if n.mb.is_server
      then (failure server_mode, n)
      else if contains_key server_addr n.mb.peers || contains_key server_addr n.mb.peer_tasks
      then (failure already_added, n)
      else (
        success tt,
        record n { mb = record (n.mb) { peer_tasks = insert server_addr handle n.mb.peer_tasks } },
      )

  unfoldable pub get_peer_state : SocketAddr → Node Net → Outcome ConnectionState
  unfolding get
  get_peer_state addr n = elim (get addr n.mb.peers) [
    | some k ↦ success (n.heap k).state
    | none ↦
        if contains_key addr n.mb.peer_tasks then success connecting else failure peer_not_found
  ]

  unfoldable pub subscribe : (Vni → Bool) → Vni → Node Net → Outcome Done × Node Net
  unfolding set_insert on_peers connected
  subscribe clears vni n =
      if n.mb.is_server
      then (failure server_mode, n)
      else let (subscriptions, inserted) = set_insert vni n.mb.my_subscriptions in
        if not inserted then (success tt, n) else (
          if clears vni then success tt else failure client_failed,
          on_peers (send_subscribe vni) (connected n.heap (values n.mb.peers)) (record n {
            mb = record (n.mb) { my_subscriptions = subscriptions };
            client_calls = n.client_calls ++ clear_routes_for_vni vni ∷ [];
          }),
        )

  unfoldable pub unsubscribe : (Vni → Bool) → Vni → Node Net → Outcome Done × Node Net
  unfolding set_remove on_peers connected
  unsubscribe clears vni n =
      if n.mb.is_server
      then (failure server_mode, n)
      else let (subscriptions, removed) = set_remove vni n.mb.my_subscriptions in
        if not removed then (success tt, n) else (
          if clears vni then success tt else failure client_failed,
          on_peers (send_unsubscribe vni) (connected n.heap (values n.mb.peers)) (record n {
            mb = record (n.mb) { my_subscriptions = subscriptions };
            client_calls = n.client_calls ++ clear_routes_for_vni vni ∷ [];
          }),
        )

module _ {Net : Type 0} ⦃i : Ipnet Net⦄ ⦃prost : Prost⦄ where
  unfoldable pub is_route_announced : Vni → Destination Net → NextHop → Node Net → Bool
  is_route_announced vni dest nh n = next_hop_exists n.mb.my_announcements vni dest nh none

  abbrev pub local_update : UpdateAction → Vni → Destination Net → NextHop → InternalUpdate Net
  local_update action vni dest nh = record {
    action = action;
    vni = vni;
    destination = dest;
    next_hop = nh;
    source_peer = none;
  }

  unfoldable pub announce_route :
      Vni → Destination Net → NextHop → Node Net → Outcome Done × Node Net
  unfolding queue_update
  announce_route vni dest nh n =
      let mb = record (n.mb) {
        my_announcements = (add_next_hop n.mb.my_announcements vni dest nh none).0;
      } in
      let (outcome, mb') = queue_update (local_update UpdateAction.add vni dest nh) mb in
      (outcome, record n { mb = mb' })

  -- The match of `withdraw_route` on what the removal returned.
  unfoldable pub after_withdrawal :
      InternalUpdate Net → RouteResult → MetalBondState Net → Outcome Done × MetalBondState Net
  unfolding queue_update
  after_withdrawal update (err e) mb = (success tt, mb)
  after_withdrawal update (ok remaining) mb =
      if nat_beq remaining 0 then queue_update update mb else (success tt, mb)

  unfoldable pub withdraw_route :
      Vni → Destination Net → NextHop → Node Net → Outcome Done × Node Net
  unfolding after_withdrawal
  withdraw_route vni dest nh n =
      let (t, result) = remove_next_hop n.mb.my_announcements vni dest nh none in
      let (outcome, mb) =
        after_withdrawal (local_update UpdateAction.remove vni dest nh) result
          (record (n.mb) { my_announcements = t }) in
      (outcome, record n { mb = mb })

  -- `if let Some(peer) = state.peers.get(&addr) { peer.trigger_shutdown(); }`
  unfoldable pub stop_peer : Option ℕ → Node Net → Node Net
  unfolding on_peer
  stop_peer none n = n
  stop_peer (some k) n = on_peer trigger_shutdown k n

  unfoldable pub remove_peer : Option ℕ → SocketAddr → Node Net → Outcome Done × Node Net
  unfolding remove get stop_peer queue_updates
  remove_peer turn addr n =
      let stopped =
        stop_peer (get addr n.mb.peers)
          (record n { mb = record (n.mb) { peer_tasks = remove addr n.mb.peer_tasks } }) in
      let (t, removed_routes) = remove_routes_from_peer stopped.mb.route_table addr in
      let (outcome, mb) =
        queue_updates turn (map (removal addr) removed_routes)
          (record (stopped.mb) { route_table = t }) in
      (outcome, record stopped { mb = mb })
