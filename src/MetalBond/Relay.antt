-- ===== src/MetalBond/Relay.antt =====
-- The way of a route through an instance: the handler of peer.rs that reads the ADD of one peer, the
-- channel of route updates, and the distributor of metalbond.rs that passes it on.
use metalbond_rs.HashMap.{HashSet, get}
use metalbond_rs.HashMap.Sets.{IsNodup}
use metalbond_rs.Types.{
  Vni, SocketAddr, Ipnet, Destination, NextHop, UpdateAction, InternalUpdate, hop_type_eq,
  socket_addr_eq, peer_key_eq,
}
use metalbond_rs.RouteTable.{RouteTable, add_next_hop, next_hop_exists}
use metalbond_rs.RouteTable.Updates.{add_next_hop-new}
use metalbond_rs.Wire.{Prost, Update}
use metalbond_rs.Codec.{GeneratedMessage}
use metalbond_rs.State.{Peer, route_update_buffer_size}
use metalbond_rs.State.Actions.{World}
use metalbond_rs.Peer.{update_message}
use metalbond_rs.Peer.Handlers.{process_update}
use metalbond_rs.Peer.Learned.{IsReadable, is_wanted, process_update-add}
use metalbond_rs.MetalBond.{Node, put_peer}
use metalbond_rs.MetalBond.Distributor.{distribute}
use metalbond_rs.MetalBond.Server.{IsPeerMap}
use metalbond_rs.MetalBond.Choice.{is_subscriber, is_barred}
use metalbond_rs.MetalBond.Delivery.{accepts, distribute-tx_queue}
use metalbond_rs.Common.{
  ℕ, ◌+◌, ◌≤◌, length, Bool, true, false, not, ◌&&◌, some, List, [], ◌∷◌, ◌++◌, nat_beq,
  nat_beq_iff, if◌then◌else◌, nat_eq, ◌≡◌, refl, sym, ap, ◌∙◌, arith, Bool-cases, inl, inr,
}

put_same : (k : ℕ) (heap : ℕ → Peer) → put_peer k (heap k) heap ≡ heap
put_same k heap = λ j x. same x j
  where
    same : (x : ℕ) → put_peer k (heap k) heap x ≡ heap x
    same x = elim (Bool-cases (nat_beq x k)) [
      | inl e ↦ rw (e) (ap heap (sym ((nat_beq_iff x k).0 e)))
      | inr e ↦ rw (e) refl
    ]

module _ {Net : Type 0} where
  -- The world of a peer's task that holds no lock.
  abbrev pub world_of : ℕ → Node Net → World Net
  world_of k n = record { peer = n.heap k; mb = n.mb; readers = 0; writer = false }

module _ {Net : Type 0} ⦃i : Ipnet Net⦄ ⦃prost : Prost⦄ where
  -- The task of peer `k` handles an UPDATE.
  unfoldable pub handle_update : ℕ → Update → Node Net → Node Net
  handle_update k msg n =
      let w = (process_update msg (world_of k n)).1 in
      record n { mb = w.mb; heap = put_peer k w.peer n.heap }

  -- The distributor takes the oldest update of the channel.
  unfoldable pub next_update : Node Net → Node Net
  next_update n = elim n.mb.route_updates [
    | [] ↦ n
    | u ∷ us ↦ distribute u (record n { mb = record (n.mb) { route_updates = us } })
  ]

  -- The update that the handler queues for a new route.
  abbrev pub learned_update : Vni → Destination Net → NextHop → SocketAddr → InternalUpdate Net
  learned_update vni dest nh addr = record {
    action = UpdateAction.add;
    vni = vni;
    destination = dest;
    next_hop = nh;
    source_peer = some addr;
  }

  -- The instance with another table and other updates in the channel.
  abbrev with_table : RouteTable Net → List (InternalUpdate Net) → Node Net → Node Net
  with_table t us n = record n { mb = record (n.mb) { route_table = t; route_updates = us } }

  handle_update-new :
      (vni : Vni) (dest : Destination Net) (nh : NextHop) (k : ℕ) (n : Node Net)
      → IsReadable UpdateAction.add dest nh
      → is_wanted vni (world_of k n) ≡ true
      → n.mb.route_updates ≡ []
      → n.mb.route_updates_open ≡ true
      → next_hop_exists n.mb.route_table vni dest nh (some (n.heap k).remote_addr) ≡ false
      → handle_update k (update_message UpdateAction.add vni dest nh) n
        ≡ with_table
            (add_next_hop n.mb.route_table vni dest nh (some (n.heap k).remote_addr)).0
            (learned_update vni dest nh (n.heap k).remote_addr ∷ [])
            n
  unfolding handle_update
  handle_update-new vni dest nh k n readable wanted quiet alive new =
      let addr : SocketAddr = (n.heap k).remote_addr in
      let added : Bool = (add_next_hop n.mb.route_table vni dest nh (some addr)).1 in
      let t : RouteTable Net = (add_next_hop n.mb.route_table vni dest nh (some addr)).0 in
      let u : InternalUpdate Net = learned_update vni dest nh addr in
      let is_new : added ≡ true =
        add_next_hop-new n.mb.route_table vni dest nh (some addr) ∙ ap not new in
      let room : length n.mb.route_updates + 1 ≤ route_update_buffer_size =
        rw (quiet) (omega arith) in
      let node : List (InternalUpdate Net) → (ℕ → Peer) → Node Net =
        λ us heap. record (with_table t us n) { heap = heap } in
      ap (λ r. record n { mb = r.1.mb; heap = put_peer k r.1.peer n.heap })
        (process_update-add vni dest nh (world_of k n) readable refl refl alive room wanted)
      ∙ ap (λ us. node (us ++ (if added then u ∷ [] else [])) (put_peer k (n.heap k) n.heap)) quiet
      ∙ ap (λ b. node (if b then u ∷ [] else []) (put_peer k (n.heap k) n.heap)) is_new
      ∙ ap (node (u ∷ [])) (put_same k n.heap)

  -- The ADD of a route reaches the other subscribers: peer `k` writes it, this instance has not got it
  -- from this peer yet, wants the VNI and has no other update in its channel, which is open; the message
  -- is readable, every peer of the map has the address that it stands under, and no address is
  -- subscribed twice. Then the handler and the next round of the distributor queue the same message,
  -- once, for every peer that stands in the map under an address that is subscribed to the VNI, is not
  -- barred from the update and whose channel takes a message, and queue nothing for any other peer.
  -- Barred are, of a route of a server, the peers that are servers, and, of a NAT route, peer `k`.
  pub next_update-handle_update :
      (vni : Vni) (dest : Destination Net) (nh : NextHop) (k j : ℕ) (addrs : HashSet SocketAddr)
      (n : Node Net)
      → IsReadable UpdateAction.add dest nh
      → is_wanted vni (world_of k n) ≡ true
      → n.mb.route_updates ≡ []
      → n.mb.route_updates_open ≡ true
      → next_hop_exists n.mb.route_table vni dest nh (some (n.heap k).remote_addr) ≡ false
      → get vni n.mb.subscribers ≡ some addrs
      → IsPeerMap n
      → IsNodup addrs
      → let msg = update_message UpdateAction.add vni dest nh in
        ((next_update (handle_update k msg n)).heap j).tx_queue
        ≡ (n.heap j).tx_queue
          ++ (if is_subscriber j addrs n
                && (not (is_barred (some (n.heap k).remote_addr) nh.hop_type j n)
                    && accepts (n.heap j))
              then GeneratedMessage.update msg ∷ []
              else [])
  unfolding next_update
  next_update-handle_update vni dest nh k j addrs n readable wanted quiet alive new subscribed own
        distinct =
      let addr : SocketAddr = (n.heap k).remote_addr in
      let t : RouteTable Net = (add_next_hop n.mb.route_table vni dest nh (some addr)).0 in
      let u : InternalUpdate Net = learned_update vni dest nh addr in
      ap (λ m. ((next_update m).heap j).tx_queue)
        (handle_update-new vni dest nh k n readable wanted quiet alive new)
      ∙ distribute-tx_queue u addrs j (with_table t [] n) subscribed own distinct
