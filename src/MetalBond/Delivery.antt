-- ===== src/MetalBond/Delivery.antt =====
-- What a round of `route_distributor_task` of metalbond.rs queues for each peer.
use metalbond_rs.HashMap.{HashSet, get, contains}
use metalbond_rs.HashMap.Sets.{IsNodup}
use metalbond_rs.Types.{
  SocketAddr, Ipnet, PeerKey, nat, InternalUpdate, socket_addr_eq, peer_key_eq, hop_type_eq,
}
use metalbond_rs.Wire.{Prost}
use metalbond_rs.Codec.{GeneratedMessage, update}
use metalbond_rs.State.{Peer, peer_tx_buffer_size}
use metalbond_rs.Peer.{update_message, send_message, send_update}
use metalbond_rs.MetalBond.Server.{IsPeerMap}
use metalbond_rs.MetalBond.{ClientCall, Node, on_peer}
use metalbond_rs.Common.{
  ℕ, Bool, false, not, ◌&&◌, ◌||◌, Option, none, some, List, [], ◌∷◌, ◌++◌, append-nil, length, leb,
  nat_beq, nat_beq_iff, ◌==◌, ==_self, if◌then◌else◌, ◌≡◌, refl, sym, ap, subst, ◌∙◌, arith, nat_eq,
  Bool-cases, inl, inr,
}
use metalbond_rs.MetalBond.Choice.{
  is_subscriber, is_barred, contains-peers_to_notify, IsNodup-peers_to_notify, is_skipped-is_barred,
}
use metalbond_rs.MetalBond.Distributor.{
  peers_to_notify, server_at, source_is_server, is_skipped, notify, notify_all, client_call,
  distribute,
}

-- A message that the channel of the peer takes.
abbrev pub accepts : Peer → Bool
accepts p = p.tx_open && not (leb peer_tx_buffer_size (length p.tx_queue))

module _ {Net : Type 0} ⦃i : Ipnet Net⦄ ⦃prost : Prost⦄ where
  abbrev pub message_of : InternalUpdate Net → GeneratedMessage
  message_of u = update (update_message u.action u.vni u.destination u.next_hop)

  abbrev pub delivered : Bool → InternalUpdate Net → List GeneratedMessage
  delivered b u = if b then message_of u ∷ [] else []

  notify_other :
      (u : InternalUpdate Net) (j k : ℕ) (n : Node Net)
      → nat_beq k j ≡ false
      → (notify u j n).heap k ≡ n.heap k
  unfolding notify on_peer
  notify_other u j k n h = elim (Bool-cases (is_skipped u j n)) [
    | inl skip ↦ rw (skip) refl
    | inr keep ↦ rw (keep, h) refl
  ]

  notify_same :
      (u : InternalUpdate Net) (k : ℕ) (n : Node Net)
      → ((notify u k n).heap k).tx_queue
        ≡ (n.heap k).tx_queue ++ delivered (not (is_skipped u k n) && accepts (n.heap k)) u
  unfolding notify on_peer send_update send_message
  notify_same u k n = ground (arith, append-nil (n.heap k).tx_queue, ==_self k)

  pub notify_mb : (u : InternalUpdate Net) (j : ℕ) (n : Node Net) → (notify u j n).mb ≡ n.mb
  unfolding notify on_peer
  notify_mb u j n = ground arith

  notify_role :
      (u : InternalUpdate Net) (j k : ℕ) (n : Node Net)
      → (((notify u j n).heap k).is_remote_server ≡ (n.heap k).is_remote_server)
        × (((notify u j n).heap k).remote_addr ≡ (n.heap k).remote_addr)
  unfolding notify on_peer send_update send_message
  notify_role u j k n = ground (arith, nat_beq_iff k j)

  notify-source_is_server :
      (p : PeerKey) (u : InternalUpdate Net) (j : ℕ) (n : Node Net)
      → source_is_server p (notify u j n) ≡ source_is_server p n
  unfolding source_is_server server_at notify
  notify-source_is_server none u j n = ap (λ mb. mb.is_server) (notify_mb u j n)
  notify-source_is_server (some addr) u j n =
      rw (notify_mb u j n) (same_server (get addr n.mb.peers))
    where
      same_server : (o : Option ℕ) → server_at o (notify u j n) ≡ server_at o n
      same_server none = refl
      same_server (some k) = (notify_role u j k n).0

  notify-is_skipped :
      (u : InternalUpdate Net) (j k : ℕ) (n : Node Net)
      → is_skipped u k (notify u j n) ≡ is_skipped u k n
  unfolding is_skipped
  notify-is_skipped u j k n =
      rw
        (
          (notify_role u j k n).0,
          (notify_role u j k n).1,
          notify-source_is_server u.source_peer u j n,
        )
        refl

  notify_all-tx_queue :
      (u : InternalUpdate Net) (ks : List ℕ) (k : ℕ) (n : Node Net)
      → IsNodup ks
      → ((notify_all u ks n).heap k).tx_queue
        ≡ (n.heap k).tx_queue
          ++ delivered (contains k ks && (not (is_skipped u k n) && accepts (n.heap k))) u
  unfolding notify_all contains
  notify_all-tx_queue u [] k n d = sym (append-nil _)
  notify_all-tx_queue u (j ∷ ks) k n d = elim (Bool-cases (nat_beq j k)) [
    | inl same ↦
        let e : k ≡ j = sym ((nat_beq_iff j k).0 same) in
        let last : contains k ks ≡ false = subst (λ x. contains x ks ≡ false) (sym e) d.0 in
        let first : ((notify u j n).heap k).tx_queue
            ≡ (n.heap k).tx_queue ++ delivered (not (is_skipped u k n) && accepts (n.heap k)) u =
          subst
            (λ x.
              ((notify u x n).heap k).tx_queue
              ≡ (n.heap k).tx_queue ++ delivered (not (is_skipped u k n) && accepts (n.heap k)) u)
            e (notify_same u k n) in
        notify_all-tx_queue u ks k (notify u j n) d.1
        ∙ ap
            (λ b.
              ((notify u j n).heap k).tx_queue
              ++ delivered
                  (b && (not (is_skipped u k (notify u j n)) && accepts ((notify u j n).heap k))) u)
            last
        ∙ append-nil ((notify u j n).heap k).tx_queue
        ∙ first
        ∙ ap
            (λ b.
              (n.heap k).tx_queue
              ++ delivered ((b || contains k ks) && (not (is_skipped u k n) && accepts (n.heap k)))
                  u)
            (sym same)
    | inr other ↦
        let apart : nat_beq k j ≡ false = ground (arith, nat_beq_iff j k, nat_beq_iff k j) in
        notify_all-tx_queue u ks k (notify u j n) d.1
        ∙ ap
            (λ b.
              ((notify u j n).heap k).tx_queue
              ++ delivered (contains k ks && (not b && accepts ((notify u j n).heap k))) u)
            (notify-is_skipped u j k n)
        ∙ ap
            (λ p.
              p.tx_queue ++ delivered (contains k ks && (not (is_skipped u k n) && accepts p)) u)
            (notify_other u j k n apart)
        ∙ ap
            (λ b.
              (n.heap k).tx_queue
              ++ delivered ((b || contains k ks) && (not (is_skipped u k n) && accepts (n.heap k)))
                  u)
            (sym other)
  ]

  told-is_skipped :
      (u : InternalUpdate Net) (k : ℕ) (cs : List (ClientCall Net)) (n : Node Net)
      → is_skipped u k (record n { client_calls = cs }) ≡ is_skipped u k n
  unfolding is_skipped source_is_server server_at
  told-is_skipped u k cs n =
      ap
        (λ b.
          (some (n.heap k).remote_addr == u.source_peer && u.next_hop.hop_type == nat)
          || (b && (n.heap k).is_remote_server))
        (same_source u.source_peer)
    where
      same_server : (o : Option ℕ) → server_at o (record n { client_calls = cs }) ≡ server_at o n
      same_server none = refl
      same_server (some j) = refl

      same_source :
          (p : PeerKey) → source_is_server p (record n { client_calls = cs }) ≡ source_is_server p n
      same_source none = refl
      same_source (some addr) = same_server (get addr n.mb.peers)

  -- One update of a VNI with subscribers, one round of the distributor: where every peer of the map has
  -- the address that it stands under and no address is subscribed twice, the update is queued once for
  -- every peer that stands in the map under a subscribed address, is not barred from the update and whose
  -- channel takes a message, and nothing is queued for any other peer. Barred are, from a server, the
  -- peers that are servers, and, of a NAT route, its source.
  pub distribute-tx_queue :
      (u : InternalUpdate Net) (addrs : HashSet SocketAddr) (k : ℕ) (n : Node Net)
      → get u.vni n.mb.subscribers ≡ some addrs
      → IsPeerMap n
      → IsNodup addrs
      → ((distribute u n).heap k).tx_queue
        ≡ (n.heap k).tx_queue
          ++ delivered
              (is_subscriber k addrs n
                && (not (is_barred u.source_peer u.next_hop.hop_type k n) && accepts (n.heap k)))
              u
  unfolding distribute
  distribute-tx_queue u addrs k n some_subscribers own d =
      let calls : List (ClientCall Net) = n.client_calls ++ client_call u.action u ∷ [] in
      let told : Node Net = record n { client_calls = calls } in
      let chosen : List ℕ = peers_to_notify n.mb.peers addrs in
      let start : distribute u n ≡ notify_all u chosen told =
        rw (some_subscribers, distribute) refl in
      let queue : Bool → Bool → List GeneratedMessage =
        λ b c. (n.heap k).tx_queue ++ delivered (b && (not c && accepts (n.heap k))) u in
      ap (λ m. (m.heap k).tx_queue) start
      ∙ notify_all-tx_queue u chosen k told (IsNodup-peers_to_notify addrs n own d)
      ∙ ap (queue (contains k chosen)) (told-is_skipped u k calls n ∙ is_skipped-is_barred u k n)
      ∙ ap (λ b. queue b (is_barred u.source_peer u.next_hop.hop_type k n))
          (contains-peers_to_notify k addrs n own)
