-- ===== src/Peer/Learned.antt =====
-- `process_update` of peer.rs on the message that `send_update` of the other side writes.
use metalbond_rs.HashMap.{contains}
use metalbond_rs.Types.{Vni, SocketAddr, Ipnet, Destination, NextHop, UpdateAction, InternalUpdate}
use metalbond_rs.RouteTable.{add_next_hop}
use metalbond_rs.Wire.{
  Prost, pb_of_action, pb_of_destination, destination_of_pb, pb_of_next_hop, next_hop_of_pb,
}
use metalbond_rs.Wire.RoundTrip.{
  Rebuilds, IsNextHop, action_of_pb-pb_of_action, destination_of_pb-pb_of_destination,
  next_hop_of_pb-pb_of_next_hop,
}
use metalbond_rs.State.{route_update_buffer_size}
use metalbond_rs.State.Actions.{
  PeerError, unknown_action, missing_destination, missing_next_hop, invalid_destination,
  invalid_next_hop, done, World, pure, ◌>>◌, gets, change, when◌then◌else◌, lock_write, drop_write,
  reading, send_route_update,
}
use metalbond_rs.State.Runs.{bind_done, then_done, read_unlocked}
use metalbond_rs.Peer.{update_message}
use metalbond_rs.Peer.Handlers.{
  or_fail, is_outgoing, record_route, learn, apply_update, process_update,
}
use metalbond_rs.Peer.Cleanup.{with_updates, send_with_room}
use metalbond_rs.Common.{
  ◌+◌, ◌≤◌, Bool, true, false, not, ◌&&◌, ◌||◌, Option, some, [], ◌∷◌, append-nil, length, ltb,
  if◌then◌else◌, ◌≡◌, refl, sym, ap, ◌∙◌, arith, nat_eq,
}

module _ {Net : Type 0} ⦃i : Ipnet Net⦄ ⦃prost : Prost⦄ where
  -- What the message needs to be read back: the prefix and the next hop are those of the source's types,
  -- and prost reads the numbers that it writes for the action and for the type of the next hop.
  pub record IsReadable (action : UpdateAction) (dest : Destination Net) (nh : NextHop)
      : Type 0 where
    pub prefix : Rebuilds dest.prefix
    pub hop : IsNextHop nh
    pub hop_number : prost.hop_type_of_number (prost.hop_type_number nh.hop_type) ≡ some nh.hop_type
    pub action_numbers :
        prost.action_of_number (prost.action_number (pb_of_action action))
        ≡ some (pb_of_action action)

  got :
      {A : Type 0} (e : PeerError) (o : Option A) (a : A) (w : World Net)
      → o ≡ some a
      → or_fail e o w ≡ (done a, w)
  unfolding or_fail pure
  got e o a w h = rw (h) refl

  process_update-message :
      (action : UpdateAction) (vni : Vni) (dest : Destination Net) (nh : NextHop) (w : World Net)
      → IsReadable action dest nh
      → process_update (update_message action vni dest nh) w ≡ apply_update action vni dest nh w
  unfolding process_update
  process_update-message action vni dest nh w r =
      bind_done
        (or_fail unknown_action
          (prost.action_of_number (prost.action_number (pb_of_action action))))
        _ (pb_of_action action) w w (got _ _ _ w r.action_numbers)
      ∙ bind_done (or_fail missing_destination (some (pb_of_destination dest))) _ _ w w
          (got _ _ _ w refl)
      ∙ bind_done (or_fail missing_next_hop (some (pb_of_next_hop nh))) _ _ w w (got _ _ _ w refl)
      ∙ bind_done (or_fail invalid_destination (destination_of_pb (pb_of_destination dest))) _ dest
          w w (got _ _ _ w (destination_of_pb-pb_of_destination dest r.prefix))
      ∙ bind_done (or_fail invalid_next_hop (next_hop_of_pb (pb_of_next_hop nh))) _ nh w w
          (got _ _ _ w (next_hop_of_pb-pb_of_next_hop nh r.hop r.hop_number))
      ∙ ap (λ a. apply_update a vni dest nh w) (action_of_pb-pb_of_action action)

  -- Whether an update is for a VNI that the instance takes from this peer.
  abbrev pub is_wanted : Vni → World Net → Bool
  is_wanted vni w = contains vni w.mb.my_subscriptions || not (is_outgoing w.peer.direction)

  -- The world that has learned a route of the peer.
  abbrev pub learned : Vni → Destination Net → NextHop → World Net → World Net
  learned vni dest nh w =
      let (t, added) = add_next_hop w.mb.route_table vni dest nh (some w.peer.remote_addr) in
      with_updates (record w { mb = record (w.mb) { route_table = t } })
        (if added
          then record {
            action = UpdateAction.add;
            vni = vni;
            destination = dest;
            next_hop = nh;
            source_peer = some w.peer.remote_addr;
          }
            ∷ []
          else [])

  apply_update-unwanted :
      (action : UpdateAction) (vni : Vni) (dest : Destination Net) (nh : NextHop) (w : World Net)
      → w.writer ≡ false
      → is_wanted vni w ≡ false
      → apply_update action vni dest nh w ≡ (done tt, w)
  unfolding apply_update gets when◌then◌else◌ pure
  apply_update-unwanted action vni dest nh w unlocked no_one =
      let skipped : (not (contains vni w.mb.my_subscriptions) && is_outgoing w.peer.direction)
          ≡ true =
        ground (arith, no_one) in
      bind_done (reading (λ mb. contains vni mb.my_subscriptions)) _ _ w w
        (read_unlocked _ w unlocked)
      ∙ bind_done (gets (λ p. p.direction)) _ _ w w refl
      ∙ bind_done (gets (λ p. p.remote_addr)) _ _ w w refl
      ∙ rw (skipped) refl

  announce_if :
      (b : Bool) (u : InternalUpdate Net) (w : World Net)
      → w.mb.route_updates_open ≡ true
      → length w.mb.route_updates + 1 ≤ route_update_buffer_size
      → (when b then send_route_update u else pure tt) w
        ≡ (done tt, with_updates w (if b then u ∷ [] else []))
  unfolding when◌then◌else◌ pure
  announce_if true u w alive room = send_with_room u w alive room
  announce_if false u w alive room =
      ap (λ us. (done tt, record w { mb = record (w.mb) { route_updates = us } }))
        (sym (append-nil _))

  apply_update-add :
      (vni : Vni) (dest : Destination Net) (nh : NextHop) (w : World Net)
      → w.writer ≡ false
      → w.readers ≡ 0
      → w.mb.route_updates_open ≡ true
      → length w.mb.route_updates + 1 ≤ route_update_buffer_size
      → is_wanted vni w ≡ true
      → apply_update UpdateAction.add vni dest nh w ≡ (done tt, learned vni dest nh w)
  unfolding apply_update gets when◌then◌else◌ learn record_route change lock_write drop_write
  apply_update-add vni dest nh w unlocked unread alive room wanted =
      let skipped : (not (contains vni w.mb.my_subscriptions) && is_outgoing w.peer.direction)
          ≡ false =
        ground (arith, wanted) in
      let free : (w.writer || ltb 0 w.readers) ≡ false = ground (arith, unlocked, unread) in
      let addr : SocketAddr = w.peer.remote_addr in
      let locked : World Net = record w { writer = true } in
      let stored : World Net = record locked {
        mb = record (w.mb) {
          route_table = (add_next_hop w.mb.route_table vni dest nh (some addr)).0;
        };
      } in
      let added : Bool = (add_next_hop w.mb.route_table vni dest nh (some addr)).1 in
      let u : InternalUpdate Net = record {
        action = UpdateAction.add;
        vni = vni;
        destination = dest;
        next_hop = nh;
        source_peer = some addr;
      } in
      let learns : learn addr UpdateAction.add vni dest nh locked
          ≡ (done tt, with_updates stored (if added then u ∷ [] else [])) =
        bind_done (record_route addr vni dest nh) _ added locked stored refl
        ∙ announce_if added u stored alive room in
      bind_done (reading (λ mb. contains vni mb.my_subscriptions)) _ _ w w
        (read_unlocked _ w unlocked)
      ∙ bind_done (gets (λ p. p.direction)) _ _ w w refl
      ∙ bind_done (gets (λ p. p.remote_addr)) _ _ w w refl
      ∙ ap
          (λ b.
            (if b
                then pure tt
                else (lock_write >> (learn addr UpdateAction.add vni dest nh >> drop_write)))
              w)
          skipped
      ∙ then_done lock_write _ w locked (rw (free) refl)
      ∙ then_done (learn addr UpdateAction.add vni dest nh) drop_write locked _ learns
      ∙ ap (λ b. (done tt, record (learned vni dest nh w) { writer = b })) (sym unlocked)

  -- The ADD that another instance of this code writes for a route is read as that route: where the
  -- message is readable, the VNI is wanted (the instance has subscribed to it, or the peer connected to
  -- it), the task holds no lock and the channel of route updates is open and has room, the handler
  -- succeeds, the table gets the next hop with this peer as a source, and an update goes to the
  -- distributor exactly if `add_next_hop` says that this peer is new for the next hop.
  pub process_update-add :
      (vni : Vni) (dest : Destination Net) (nh : NextHop) (w : World Net)
      → IsReadable UpdateAction.add dest nh
      → w.writer ≡ false
      → w.readers ≡ 0
      → w.mb.route_updates_open ≡ true
      → length w.mb.route_updates + 1 ≤ route_update_buffer_size
      → is_wanted vni w ≡ true
      → process_update (update_message UpdateAction.add vni dest nh) w
        ≡ (done tt, learned vni dest nh w)
  process_update-add vni dest nh w r unlocked unread alive room wanted =
      process_update-message UpdateAction.add vni dest nh w r
      ∙ apply_update-add vni dest nh w unlocked unread alive room wanted

  -- A readable message of a VNI that is not wanted changes nothing, whatever its action, where the task
  -- holds no write lock.
  pub process_update-unwanted :
      (action : UpdateAction) (vni : Vni) (dest : Destination Net) (nh : NextHop) (w : World Net)
      → IsReadable action dest nh
      → w.writer ≡ false
      → is_wanted vni w ≡ false
      → process_update (update_message action vni dest nh) w ≡ (done tt, w)
  process_update-unwanted action vni dest nh w r unlocked no_one =
      process_update-message action vni dest nh w r
      ∙ apply_update-unwanted action vni dest nh w unlocked no_one
