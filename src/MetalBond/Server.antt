-- ===== src/MetalBond/Server.antt =====
-- The server's side of metalbond.rs: `start_server`, what the task of an accepted connection does with
-- the shared state, `get_subscribed_vnis`, and what `shutdown` does with the peers.
use metalbond_rs.HashMap.{get, insert, remove, values}
use metalbond_rs.HashMap.Laws.{get-insert, get-remove}
use metalbond_rs.Types.{Vni, SocketAddr, ConnectionDirection, socket_addr_eq}
use metalbond_rs.State.{new_peer}
use metalbond_rs.State.Actions.{Done}
use metalbond_rs.Peer.{trigger_shutdown}
use metalbond_rs.MetalBond.{
  client_mode, bind_failed, Outcome, success, failure, Node, put_peer, on_peers,
}
use metalbond_rs.Common.{
  ℕ, Bool, not, ==_iff, some, List, [], nat_beq_iff, if◌then◌else◌, ◌≡◌, arith,
}

module _ {Net : Type 0} where
  -- `start_server` up to the spawn of the listener; `bound` says whether the address can be bound.
  unfoldable pub start_server : Bool → Node Net → Outcome Done
  start_server bound n =
      if not n.mb.is_server
      then failure client_mode
      else if bound
      then success tt
      else failure bind_failed

  -- The task of an accepted connection makes the peer and adds it, before `handle_peer`.
  unfoldable pub accept : SocketAddr → ℕ → Node Net → Node Net
  unfolding insert new_peer
  accept remote_addr k n = record n {
    mb = record (n.mb) { peers = insert remote_addr k n.mb.peers };
    heap = put_peer k (new_peer n.mb.config remote_addr ConnectionDirection.incoming) n.heap;
  }

  -- The same task behind `handle_peer`.
  unfoldable pub release : SocketAddr → Node Net → Node Net
  unfolding remove
  release remote_addr n = record n { mb = record (n.mb) { peers = remove remote_addr n.mb.peers } }

  unfoldable pub get_subscribed_vnis : Node Net → List Vni
  get_subscribed_vnis n = n.mb.my_subscriptions

  -- `shutdown` between the joins: the handles of the peer tasks are drained, for their abortion, and
  -- every connected peer gets the shutdown signal.
  unfoldable pub close_peers : Node Net → List ℕ × Node Net
  unfolding on_peers
  close_peers n = (
    values n.mb.peer_tasks,
    on_peers trigger_shutdown (values n.mb.peers)
        (record n { mb = record (n.mb) { peer_tasks = [] } }),
  )

  -- Every peer of the map has the address that it stands under.
  abbrev pub IsPeerMap : Node Net → Type 0
  IsPeerMap n =
      (addr : SocketAddr) (k : ℕ) → get addr n.mb.peers ≡ some k → (n.heap k).remote_addr ≡ addr

  -- A new connection keeps the map of peers in order, if the number of its peer is new.
  pub accept-IsPeerMap :
      (remote_addr : SocketAddr) (k : ℕ) (n : Node Net)
      → ((addr : SocketAddr) → ¬ (get addr n.mb.peers ≡ some k))
      → IsPeerMap n
      → IsPeerMap (accept remote_addr k n)
  unfolding accept new_peer
  accept-IsPeerMap remote_addr k n fresh h addr j found = ground (
    arith,
    found,
    get-insert addr remote_addr k n.mb.peers,
    ==_iff remote_addr addr,
    h addr j,
    nat_beq_iff j k,
    fresh addr,
  )

  -- The end of a connection keeps the map of peers in order.
  pub release-IsPeerMap :
      (remote_addr : SocketAddr) (n : Node Net) → IsPeerMap n → IsPeerMap (release remote_addr n)
  unfolding release
  release-IsPeerMap remote_addr n h addr k found =
      ground (arith, found, get-remove addr remote_addr n.mb.peers, h addr k)
