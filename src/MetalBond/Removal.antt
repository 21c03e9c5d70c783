-- ===== src/MetalBond/Removal.antt =====
-- `remove_peer` of metalbond.rs: the routes after it, and the channel that it fills.
use metalbond_rs.HashMap.{get, remove}
use metalbond_rs.Types.{
  Vni, SocketAddr, PeerKey, Ipnet, Destination, NextHop, InternalUpdate, peer_key_eq,
  socket_addr_eq,
}
use metalbond_rs.RouteTable.{Removed, next_hop_exists, remove_routes_from_peer}
use metalbond_rs.RouteTable.Tidy.{IsTidyTable}
use metalbond_rs.RouteTable.Departure.{next_hop_exists-remove_routes_from_peer}
use metalbond_rs.Wire.{Prost}
use metalbond_rs.State.{MetalBondState, route_update_buffer_size}
use metalbond_rs.State.Actions.{Done}
use metalbond_rs.Peer.{removal}
use metalbond_rs.MetalBond.{
  Outcome, success, failure, blocked, Node, on_peer, queue_update, receive, later, queue_updates,
  stop_peer, remove_peer,
}
use metalbond_rs.Common.{
  ℕ, zero, suc, drop, ◌+◌, ◌≤◌, ◌<◌, true, false, not, ◌&&◌, Option, none, some, List, [], ◌∷◌,
  ◌++◌, map, length, length-append, length-map, leb, ◌==◌, ◌≡◌, refl, ap, ◌∙◌, arith, nat_eq,
  Bool-cases, inl, inr,
}
use metalbond_rs.MetalBond.Operations.{queue_update_keeps}

-- The updates that the distributor can still take.
abbrev turns : Option ℕ → ℕ
turns none = 0
turns (some n) = 1

turns_at_most_one : (turn : Option ℕ) → turns turn ≤ 1
turns_at_most_one none = omega arith
turns_at_most_one (some n) = omega arith

module _ {Net : Type 0} where
  receive_keeps :
      (turn : Option ℕ) (mb : MetalBondState Net)
      → ((receive turn mb).route_table ≡ mb.route_table)
        × ((receive turn mb).route_updates_open ≡ mb.route_updates_open)
  unfolding receive
  receive_keeps none mb = (refl, refl)
  receive_keeps (some zero) mb = (refl, refl)
  receive_keeps (some (suc n)) mb = (refl, refl)

  queue_updates_keeps :
      (turn : Option ℕ) (us : List (InternalUpdate Net)) (mb : MetalBondState Net)
      → (queue_updates turn us mb).1.route_table ≡ mb.route_table
  unfolding queue_updates
  queue_updates_keeps turn [] mb = refl
  queue_updates_keeps turn (u ∷ us) mb =
      let sent : Outcome Done × MetalBondState Net = queue_update u (receive turn mb) in
      let kept : sent.1.route_table ≡ mb.route_table =
        (queue_update_keeps u (receive turn mb)).1 ∙ (receive_keeps turn mb).0 in
      elim (queue_update u (receive turn mb)).0
        as (λ x.
          (elim x as (λ _. Outcome Done × MetalBondState Net) [
            | success _ ↦ queue_updates (later turn) us (queue_update u (receive turn mb)).1
            | failure e ↦ queue_updates (later turn) us (queue_update u (receive turn mb)).1
            | blocked ↦ (blocked, (queue_update u (receive turn mb)).1)
          ]).1.route_table
          ≡ mb.route_table) [
            | success _ ↦ queue_updates_keeps (later turn) us sent.1 ∙ kept
            | failure e ↦ queue_updates_keeps (later turn) us sent.1 ∙ kept
            | blocked ↦ kept
          ]

module _ {Net : Type 0} ⦃i : Ipnet Net⦄ ⦃prost : Prost⦄ where
  length-drop_one :
      (xs : List (InternalUpdate Net))
      → (length (drop 1 xs) ≤ length xs) × (length xs + 0 ≤ length (drop 1 xs) + 1)
  length-drop_one [] = (omega arith, omega arith)
  length-drop_one (x ∷ xs) = (omega arith, omega arith)

  stop_peer_keeps : (o : Option ℕ) (n : Node Net) → (stop_peer o n).mb ≡ n.mb
  unfolding stop_peer on_peer
  stop_peer_keeps none n = refl
  stop_peer_keeps (some k) n = refl

  abbrev unmanaged : SocketAddr → Node Net → Node Net
  unmanaged addr n = record n { mb = record (n.mb) { peer_tasks = remove addr n.mb.peer_tasks } }

  -- The node once the management task of a peer is aborted and its shutdown triggered.
  abbrev stopped : SocketAddr → Node Net → Node Net
  stopped addr n = stop_peer (get addr n.mb.peers) (unmanaged addr n)

  -- After `remove_peer` of an instance whose table is tidy, even if it blocks and whenever the
  -- distributor has its turn, exactly the routes of the other peers are in the table.
  pub next_hop_exists-remove_peer :
      (turn : Option ℕ) (addr : SocketAddr) (n : Node Net) (vni : Vni) (dest : Destination Net)
      (nh : NextHop) (p : PeerKey)
      → IsTidyTable n.mb.route_table
      → next_hop_exists (remove_peer turn addr n).1.mb.route_table vni dest nh p
        ≡ (not (some addr == p) && next_hop_exists n.mb.route_table vni dest nh p)
  unfolding remove_peer
  next_hop_exists-remove_peer turn addr n vni dest nh p tidy =
      ap (λ t. next_hop_exists t vni dest nh p)
        (queue_updates_keeps turn
            (map (removal addr) (remove_routes_from_peer (stopped addr n).mb.route_table addr).1)
            (record ((stopped addr n).mb) {
              route_table = (remove_routes_from_peer (stopped addr n).mb.route_table addr).0;
            })
          ∙ ap (λ mb. (remove_routes_from_peer mb.route_table addr).0)
              (stop_peer_keeps (get addr n.mb.peers) (unmanaged addr n)))
      ∙ next_hop_exists-remove_routes_from_peer n.mb.route_table addr vni dest nh p tidy

  abbrev go_on :
      Option ℕ
      → List (InternalUpdate Net)
      → Outcome Done × MetalBondState Net
      → Outcome Done × MetalBondState Net
  go_on turn us r = elim r.0 [
    | success _ ↦ queue_updates turn us r.1
    | failure e ↦ queue_updates turn us r.1
    | blocked ↦ (blocked, r.1)
  ]

  queue_update_full :
      (u : InternalUpdate Net) (mb : MetalBondState Net)
      → mb.route_updates_open ≡ true
      → leb route_update_buffer_size (length mb.route_updates) ≡ true
      → queue_update u mb ≡ (blocked, mb)
  unfolding queue_update
  queue_update_full u mb alive full = rw (alive, full) refl

  queue_update_free :
      (u : InternalUpdate Net) (mb : MetalBondState Net)
      → mb.route_updates_open ≡ true
      → leb route_update_buffer_size (length mb.route_updates) ≡ false
      → queue_update u mb ≡ (success tt, record mb { route_updates = mb.route_updates ++ u ∷ [] })
  unfolding queue_update
  queue_update_free u mb alive free = rw (alive, free) refl

  -- A turn takes one update at most.
  length-receive :
      (turn : Option ℕ) (mb : MetalBondState Net)
      → (length (receive turn mb).route_updates ≤ length mb.route_updates)
        × (length mb.route_updates + turns (later turn)
            ≤ length (receive turn mb).route_updates + turns turn)
  unfolding receive
  length-receive none mb = (omega arith, omega arith)
  length-receive (some zero) mb = length-drop_one mb.route_updates
  length-receive (some (suc n)) mb = (omega arith, omega arith)

  queue_updates-blocked :
      (turn : Option ℕ) (us : List (InternalUpdate Net)) (mb : MetalBondState Net)
      → mb.route_updates_open ≡ true
      → length mb.route_updates ≤ route_update_buffer_size
      → route_update_buffer_size + turns turn < length mb.route_updates + length us
      → (queue_updates turn us mb).0 ≡ blocked
  unfolding queue_updates
  queue_updates-blocked turn [] mb alive fits many = absurd (omega arith)
  queue_updates-blocked turn (u ∷ us) mb alive fits many =
      let now : MetalBondState Net = receive turn mb in
      let still : now.route_updates_open ≡ true = (receive_keeps turn mb).1 ∙ alive in
      let (shorter, one_less) = length-receive turn mb in
      elim (Bool-cases (leb route_update_buffer_size (length now.route_updates))) [
        | inl full ↦ ap (λ r. (go_on (later turn) us r).0) (queue_update_full u now still full)
        | inr free ↦
            let next : MetalBondState Net = record now {
              route_updates = now.route_updates ++ u ∷ [];
            } in
            let longer : length next.route_updates ≡ length now.route_updates + 1 =
              length-append now.route_updates (u ∷ []) in
            ap (λ r. (go_on (later turn) us r).0) (queue_update_free u now still free)
            ∙ queue_updates-blocked (later turn) us next still (ground (arith, longer, free))
                (omega (arith, longer, one_less, many))
      ]

  -- While the channel of route updates is open and within its bound, `remove_peer` of a peer whose
  -- routes, with the updates that wait, are two or more than the channel has room for never ends,
  -- whenever the distributor has its turn: it holds the write lock of the shared state, and the
  -- distributor waits for this lock with the one update that it has taken.
  pub remove_peer-blocked :
      (turn : Option ℕ) (addr : SocketAddr) (n : Node Net)
      → n.mb.route_updates_open ≡ true
      → length n.mb.route_updates ≤ route_update_buffer_size
      → route_update_buffer_size + 1
        < length n.mb.route_updates + length (remove_routes_from_peer n.mb.route_table addr).1
      → (remove_peer turn addr n).0 ≡ blocked
  unfolding remove_peer
  remove_peer-blocked turn addr n alive fits many =
      let same : (stopped addr n).mb ≡ (unmanaged addr n).mb =
        stop_peer_keeps (get addr n.mb.peers) (unmanaged addr n) in
      let routes : List (Removed Net) = (remove_routes_from_peer n.mb.route_table addr).1 in
      rw (same) (
        queue_updates-blocked turn (map (removal addr) routes)
          (record ((unmanaged addr n).mb) {
            route_table = (remove_routes_from_peer n.mb.route_table addr).0;
          })
          alive fits
          (rw (length-map (removal addr) routes) omega (arith, many, turns_at_most_one turn)))
