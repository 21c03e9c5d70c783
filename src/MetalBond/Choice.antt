-- ===== src/MetalBond/Choice.antt =====
-- Which peers `route_distributor_task` of metalbond.rs tells of an update: `peers_to_notify` and
-- `is_skipped` against what they stand for.
use metalbond_rs.HashMap.{HashSet, get, contains}
use metalbond_rs.HashMap.Sets.{IsNodup}
use metalbond_rs.Types.{
  SocketAddr, Ipnet, PeerKey, nat, NextHopType, InternalUpdate, socket_addr_eq, peer_key_eq,
  hop_type_eq,
}
use metalbond_rs.Wire.{Prost}
use metalbond_rs.State.{Peer}
use metalbond_rs.MetalBond.{Node}
use metalbond_rs.MetalBond.Server.{IsPeerMap}
use metalbond_rs.MetalBond.Distributor.{peers_to_notify, server_at, source_is_server, is_skipped}
use metalbond_rs.Common.{
  ℕ, Bool, false, ◌&&◌, ◌||◌, Option, none, some, [], ◌∷◌, nat_beq, nat_beq_iff, ◌==◌, ==_iff,
  ==_false, ◌≡◌, refl, sym, ap, ◌∙◌, arith, nat_eq, Option-cases, inl, inr,
}

-- Whether an address leads to the peer with the number `k`.
abbrev pub leads_to : ℕ → Option ℕ → Bool
leads_to k none = false
leads_to k (some j) = nat_beq j k

abbrev pub is_server_at : (ℕ → Peer) → Option ℕ → Bool
is_server_at heap none = false
is_server_at heap (some j) = (heap j).is_remote_server

module _ {Net : Type 0} where
  -- The peer stands in the map of peers under its own address, which is among the subscribed ones.
  abbrev pub is_subscriber : ℕ → HashSet SocketAddr → Node Net → Bool
  is_subscriber k addrs n =
      let addr = (n.heap k).remote_addr in contains addr addrs && leads_to k (get addr n.mb.peers)

  -- The updates that a peer must not get: from a server to a server, and a NAT route back to its
  -- announcer.
  abbrev pub is_barred : PeerKey → NextHopType → ℕ → Node Net → Bool
  is_barred none hop_type k n = n.mb.is_server && (n.heap k).is_remote_server
  is_barred (some addr) hop_type k n =
      (addr == (n.heap k).remote_addr && hop_type == nat)
      || (is_server_at n.heap (get addr n.mb.peers) && (n.heap k).is_remote_server)

  -- The numbers of the peers to notify are those of the subscribers that are connected.
  pub contains-peers_to_notify :
      (k : ℕ) (addrs : HashSet SocketAddr) (n : Node Net)
      → IsPeerMap n
      → contains k (peers_to_notify n.mb.peers addrs) ≡ is_subscriber k addrs n
  unfolding peers_to_notify contains
  contains-peers_to_notify k [] n h = refl
  contains-peers_to_notify k (addr ∷ addrs) n h =
      let own : SocketAddr = (n.heap k).remote_addr in
      let before = contains-peers_to_notify k addrs n h in
      elim (Option-cases (get addr n.mb.peers)) [
        | inl e ↦
            let gone : addr ≡ own → leads_to k (get own n.mb.peers) ≡ false =
              λ q. ap (leads_to k) (ap (λ a. get a n.mb.peers) (sym q) ∙ e) in
            rw (e, peers_to_notify) (ground (arith, before, ==_iff addr own, gone))
        | inr (j, e) ↦
            let found : addr ≡ own → leads_to k (get own n.mb.peers) ≡ nat_beq j k =
              λ q. ap (leads_to k) (ap (λ a. get a n.mb.peers) (sym q) ∙ e) in
            let here : j ≡ k → addr ≡ own = λ q. sym (h addr k (e ∙ ap some q)) in
            rw (e, peers_to_notify)
              (ground (arith, before, ==_iff addr own, found, here, nat_beq_iff j k))
      ]

  pub IsNodup-peers_to_notify :
      (addrs : HashSet SocketAddr) (n : Node Net)
      → IsPeerMap n
      → IsNodup addrs
      → IsNodup (peers_to_notify n.mb.peers addrs)
  unfolding peers_to_notify
  IsNodup-peers_to_notify [] n h d = tt
  IsNodup-peers_to_notify (addr ∷ addrs) n h d = elim (Option-cases (get addr n.mb.peers)) [
    | inl e ↦ rw (e, peers_to_notify) (IsNodup-peers_to_notify addrs n h d.1)
    | inr (j, e) ↦
        rw (e, peers_to_notify)
          (
            contains-peers_to_notify j addrs n h
                ∙ ap (λ b. b && leads_to j (get (n.heap j).remote_addr n.mb.peers))
                    (ap (λ a. contains a addrs) (h addr j e) ∙ d.0),
            IsNodup-peers_to_notify addrs n h d.1,
          )
  ]

module _ {Net : Type 0} ⦃i : Ipnet Net⦄ ⦃prost : Prost⦄ where
  pub is_skipped-is_barred :
      (u : InternalUpdate Net) (k : ℕ) (n : Node Net)
      → is_skipped u k n ≡ is_barred u.source_peer u.next_hop.hop_type k n
  unfolding is_skipped source_is_server server_at
  is_skipped-is_barred u k n = by_source u.source_peer u.next_hop.hop_type
    where
      by_server : (o : Option ℕ) → server_at o n ≡ is_server_at n.heap o
      by_server none = refl
      by_server (some j) = refl

      by_source :
          (p : PeerKey) (t : NextHopType)
          → ((some (n.heap k).remote_addr == p && t == nat)
              || (source_is_server p n && (n.heap k).is_remote_server))
            ≡ is_barred p t k n
      by_source none t =
          let a : PeerKey = some (n.heap k).remote_addr in
          let b : PeerKey = none in
          let never : (a == b) ≡ false = ==_false a b (λ e. cc) in ground (arith, never)
      by_source (some addr) t =
          let a : PeerKey = some (n.heap k).remote_addr in
          let b : PeerKey = some addr in
          ground
            (arith, ==_iff a b, ==_iff addr (n.heap k).remote_addr, by_server (get addr n.mb.peers))
