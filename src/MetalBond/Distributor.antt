-- ===== src/MetalBond/Distributor.antt =====
-- `route_distributor_task` of metalbond.rs: what it does with one update.
use metalbond_rs.HashMap.{HashMap, HashSet, get}
use metalbond_rs.Types.{
  SocketAddr, Ipnet, PeerKey, nat, UpdateAction, InternalUpdate, socket_addr_eq, peer_key_eq,
  hop_type_eq,
}
use metalbond_rs.Wire.{Prost}
use metalbond_rs.Peer.{send_update}
use metalbond_rs.MetalBond.{ClientCall, add_route, remove_route, Node, on_peer}
use metalbond_rs.Common.{
  ℕ, Bool, false, ◌&&◌, ◌||◌, Option, none, some, List, [], ◌∷◌, ◌++◌, ◌==◌, if◌then◌else◌, nat_eq,
}

-- `subscribers.iter().filter_map(|addr| peers.get(addr))`
unfoldable pub peers_to_notify : HashMap SocketAddr ℕ → HashSet SocketAddr → List ℕ
unfolding get
peers_to_notify peers [] = []
peers_to_notify peers (addr ∷ addrs) =
    let rest = peers_to_notify peers addrs in
    elim (get addr peers) [ none ↦ rest | some k ↦ k ∷ rest ]

module _ {Net : Type 0} ⦃i : Ipnet Net⦄ ⦃prost : Prost⦄ where
  unfoldable pub server_at : Option ℕ → Node Net → Bool
  server_at none n = false
  server_at (some k) n = (n.heap k).is_remote_server

  unfoldable pub source_is_server : PeerKey → Node Net → Bool
  unfolding server_at get
  source_is_server none n = n.mb.is_server
  source_is_server (some src_addr) n = server_at (get src_addr n.mb.peers) n

  -- The two reasons for which the loop skips a peer.
  unfoldable pub is_skipped : InternalUpdate Net → ℕ → Node Net → Bool
  unfolding source_is_server
  is_skipped u k n =
      (some (n.heap k).remote_addr == u.source_peer && u.next_hop.hop_type == nat)
      || (source_is_server u.source_peer n && (n.heap k).is_remote_server)

  -- The body of the loop.
  unfoldable pub notify : InternalUpdate Net → ℕ → Node Net → Node Net
  unfolding is_skipped on_peer
  notify u k n =
      if is_skipped u k n
      then n
      else on_peer (send_update u.action u.vni u.destination u.next_hop) k n

  unfoldable pub notify_all : InternalUpdate Net → List ℕ → Node Net → Node Net
  unfolding notify
  notify_all u [] n = n
  notify_all u (k ∷ ks) n = notify_all u ks (notify u k n)

  unfoldable pub client_call : UpdateAction → InternalUpdate Net → ClientCall Net
  client_call UpdateAction.add u = add_route u.vni u.destination u.next_hop
  client_call UpdateAction.remove u = remove_route u.vni u.destination u.next_hop

  -- One round of the loop. An error of the client is only logged.
  unfoldable pub distribute : InternalUpdate Net → Node Net → Node Net
  unfolding get peers_to_notify notify_all client_call
  distribute u n =
      let told = record n { client_calls = n.client_calls ++ client_call u.action u ∷ [] } in
      elim (get u.vni n.mb.subscribers) [
        | none ↦ told
        | some addrs ↦ notify_all u (peers_to_notify n.mb.peers addrs) told
      ]
