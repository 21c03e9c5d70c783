-- ===== src/Netlink/Clearing.antt =====
-- What the clearing of netlink.rs deletes, for a kernel that lists and deletes its routes.
use metalbond_rs.Netlink.Kernels.{
  Kernel, IsCleared, IsCleared-then, send-IsCleared, same-IsCleared, then_ok,
}
use metalbond_rs.Netlink.Leftovers.{is_leftover, is_leftover_in, is_metalbond_route-is_leftover}
use metalbond_rs.Netlink.Requests.{AddressFamily, RouteMessage, Rtnetlink, send, pure}
use metalbond_rs.Netlink.{
  NetlinkClient, NetlinkClientConfig, is_metalbond_route, clear_routes, clear_metalbond_routes,
  clear_tables, new_client, clear_routes_for_vni,
}
use metalbond_rs.HashMap.{HashMap, contains, get}
use metalbond_rs.HashMap.Sets.{IsNodup}
use metalbond_rs.Types.{Vni, IpVersion}
use metalbond_rs.Common.{
  ℕ, Bool, true, false, not, ◌&&◌, ◌||◌, ◌==◌, ==_iff, ==_self, PartialEq, List, [], ◌∷◌, map, ok,
  ℤ, is_positive, as_unsigned, ◌≡◌, ◌≢◌, refl, sym, subst, ◌∙◌, arith, Bool-cases, inl, inr, nat_eq,
  some,
}

inet_not_inet6 : AddressFamily.inet ≢ AddressFamily.inet6
inet_not_inet6 e = cc

module _ {Other : Type 0} ⦃e : PartialEq (RouteMessage Other)⦄ where
  equal_matches :
      (t link : ℕ) (r s : RouteMessage Other) (b : Bool)
      → is_metalbond_route t link r ≡ b
      → (r == s) ≡ true
      → is_metalbond_route t link s ≡ b
  equal_matches t link r s b matches h =
      subst (λ q. is_metalbond_route t link q ≡ b) ((==_iff r s).0 h) matches

  -- Of routes that stand once each, the deletion of the first leaves the others.
  still_there :
      (r q : RouteMessage Other) (rs before after : List (RouteMessage Other))
      → contains r rs ≡ false
      → contains q rs ≡ true
      → contains q before ≡ true
      → contains q after ≡ (not (r == q) && contains q before)
      → contains q after ≡ true
  still_there r q rs before after once h here kept = ground (arith, apart, ==_iff r q)
    where
      apart : r ≡ q → false ≡ true
      apart p = sym once ∙ subst (λ x. contains x rs ≡ true) (sym p) h

module _ {Other K : Type 0} ⦃e : PartialEq (RouteMessage Other)⦄ {handle : Rtnetlink Other K}
    (kernel : Kernel handle) where
  clear_routes-IsCleared :
      (t link : ℕ) (v : IpVersion) (rs : List (RouteMessage Other)) (k : K)
      → IsNodup rs
      → ((r : RouteMessage Other) → contains r rs ≡ true → contains r (kernel.routes v k) ≡ true)
      → IsCleared kernel
          (λ s. is_metalbond_route t link s && contains s rs)
          k
          (clear_routes handle t link (map ok rs) k)
  unfolding clear_routes contains pure
  clear_routes-IsCleared t link v [] k nodup present = (refl, λ w s. ground arith)
  clear_routes-IsCleared t link v (r ∷ rs) k nodup present =
      elim (Bool-cases (is_metalbond_route t link r)) [
        | inl matches ↦ rw (matches) (
            let here : contains r (kernel.routes v k) ≡ true = present r (rw (==_self r) refl) in
            let sent = send-IsCleared kernel v k r here in
            same-IsCleared kernel (λ s. r == s || is_metalbond_route t link s && contains s rs) _ k
              _ (λ w s _. ground (arith, equal_matches t link r s true matches))
              (IsCleared-then kernel (λ s. r == s)
                (λ s. is_metalbond_route t link s && contains s rs) (send (handle.del r))
                (clear_routes handle t link (map ok rs)) k sent
                (clear_routes-IsCleared t link v rs (send (handle.del r) k).1 nodup.1 (λ q h.
                  still_there r q rs (kernel.routes v k) _ nodup.0 h (present q (ground (arith, h)))
                    (sent.1 v q)))))
        | inr other ↦ rw (other) (
            same-IsCleared kernel (λ s. is_metalbond_route t link s && contains s rs) _ k _
              (λ w s _. ground (arith, equal_matches t link r s false other))
              (clear_routes-IsCleared t link v rs k nodup.1 (λ q h. present q (ground (arith, h)))))
      ]

  not_both :
      (k : K) (r : RouteMessage Other)
      → contains r (kernel.routes IpVersion.v6 k) ≡ true
      → contains r (kernel.routes IpVersion.v4 k) ≡ false
  not_both k r h = elim (Bool-cases (contains r (kernel.routes IpVersion.v4 k))) [
    | inl t ↦ absurd (
        inet_not_inet6
          (sym (kernel.routes_family IpVersion.v4 k r t) ∙ kernel.routes_family IpVersion.v6 k r h))
    | inr f ↦ f
  ]

  either_version :
      (w : IpVersion) (k : K) (s : RouteMessage Other)
      → contains s (kernel.routes w k) ≡ true
      → (contains s (kernel.routes IpVersion.v4 k) || contains s (kernel.routes IpVersion.v6 k))
        ≡ true
  either_version IpVersion.v4 k s h = ground (arith, h)
  either_version IpVersion.v6 k s h = ground (arith, h)

  -- `clear_metalbond_routes` deletes the routes of the table and the interface that MetalBond
  -- installed, and no other.
  clear_metalbond_routes-IsCleared :
      (t link : ℕ) (k : K)
      → IsCleared kernel (is_metalbond_route t link) k (clear_metalbond_routes handle t link k)
  unfolding clear_metalbond_routes
  clear_metalbond_routes-IsCleared t link k =
      rw (kernel.dump_routes IpVersion.v4 k, kernel.dump_routes IpVersion.v6 k)
        (let listed = λ (v : IpVersion). kernel.routes v k in
          let loop = λ (v : IpVersion). clear_routes handle t link (map ok (listed v)) in
          let after = (loop IpVersion.v4 k).1 in
          let first =
            clear_routes-IsCleared t link IpVersion.v4 (listed IpVersion.v4) k
              (kernel.routes_nodup IpVersion.v4 k) (λ r h. h) in
          let second =
            clear_routes-IsCleared t link IpVersion.v6 (listed IpVersion.v6) after
              (kernel.routes_nodup IpVersion.v6 k)
              (λ r h. first.1 IpVersion.v6 r ∙ rw (not_both k r h, h) (ground arith)) in
          same-IsCleared kernel _ (is_metalbond_route t link) k _
            (λ w s h. ground (arith, either_version w k s h))
            (IsCleared-then kernel _ _ (loop IpVersion.v4) (loop IpVersion.v6) k first second))

  clear_leftovers-IsCleared :
      (t link : ℕ) (k : K)
      → IsCleared kernel (is_leftover t link) k (clear_metalbond_routes handle t link k)
  clear_leftovers-IsCleared t link k =
      same-IsCleared kernel (is_metalbond_route t link) (is_leftover t link) k _
        (λ w s _. is_metalbond_route-is_leftover t link s)
        (clear_metalbond_routes-IsCleared t link k)

  clear_tables-IsCleared :
      (link : ℕ) (tables : HashMap Vni ℤ) (k : K)
      → IsCleared kernel (is_leftover_in link tables) k (clear_tables handle link tables k)
  unfolding clear_tables pure
  clear_tables-IsCleared link [] k = (refl, λ w s. refl)
  clear_tables-IsCleared link ((vni, table_id) ∷ rest) k =
      elim (Bool-cases (is_positive table_id)) [
        | inl t ↦ rw (t) (
            IsCleared-then kernel _ _ (clear_metalbond_routes handle (as_unsigned 32 table_id) link)
              (clear_tables handle link rest) k
              (clear_leftovers-IsCleared (as_unsigned 32 table_id) link k)
              (clear_tables-IsCleared link rest _))
        | inr f ↦ rw (f) (clear_tables-IsCleared link rest k)
      ]

  -- For a kernel whose dumps list each of its routes once and without an error, and which deletes a
  -- route that it has, without an error, and no other: when the link is found, the start of a client
  -- succeeds and deletes, of all routes of the kernel, exactly those whose first output interface is
  -- this link, whose protocol number is 254 and which lie in a table that the configuration maps a VNI
  -- to by a positive number (modulo 2 ^ 8).
  pub new_client-IsCleared :
      (config : NetlinkClientConfig) (tun_index : ℕ) (k : K)
      → handle.link_index config.link_name k ≡ ok (some tun_index)
      → (new_client handle config k ≡ (
        ok (record { handle = handle; config = config; tun_index = tun_index }),
        (new_client handle config k).1,
      ))
        × ((w : IpVersion) (s : RouteMessage Other)
            → contains s (kernel.routes w (new_client handle config k).1) ≡ (
                not (is_leftover_in tun_index config.vni_table_map s)
                && contains s (kernel.routes w k)))
  unfolding new_client pure
  new_client-IsCleared config tun_index k found =
      rw (found, new_client)
        (let client : NetlinkClient Other K = record {
          handle = handle;
          config = config;
          tun_index = tun_index;
        } in
          let cleared = clear_tables-IsCleared tun_index config.vni_table_map k in
          rw
            (then_ok (clear_tables handle tun_index config.vni_table_map) (pure client) k tt
              cleared.0)
            (refl, cleared.1))

  clear_mapped :
      (client : NetlinkClient Other K) (vni : Vni) (table_id : ℤ) (k : K)
      → get vni client.config.vni_table_map ≡ some table_id
      → is_positive table_id ≡ true
      → clear_routes_for_vni client vni k
        ≡ clear_metalbond_routes client.handle (as_unsigned 32 table_id) client.tun_index k
  unfolding clear_routes_for_vni
  clear_mapped client vni table_id k mapped positive =
      rw (mapped, clear_routes_for_vni) (rw (positive) refl)

  -- `clear_routes_for_vni` succeeds for a VNI with a positive table and deletes exactly the routes of
  -- this table (modulo 2 ^ 8) and of the client's link that carry MetalBond's protocol number.
  pub clear_routes_for_vni-IsCleared :
      (config : NetlinkClientConfig) (tun_index : ℕ) (vni : Vni) (table_id : ℤ) (k : K)
      → get vni config.vni_table_map ≡ some table_id
      → is_positive table_id ≡ true
      → IsCleared kernel (is_leftover (as_unsigned 32 table_id) tun_index) k (
          clear_routes_for_vni
            (record { handle = handle; config = config; tun_index = tun_index })
            vni
            k)
  clear_routes_for_vni-IsCleared config tun_index vni table_id k mapped positive =
      subst (IsCleared kernel (is_leftover (as_unsigned 32 table_id) tun_index) k)
        (sym (clear_mapped _ vni table_id k mapped positive))
        (clear_leftovers-IsCleared (as_unsigned 32 table_id) tun_index k)
