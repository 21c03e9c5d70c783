-- ===== src/Http/Ords.antt =====
-- The two implementations of `Ord` in http_server.rs are total orders that agree with equality.
use metalbond_rs.Http.{addr_cmp, destination_cmp, next_hop_cmp}
use metalbond_rs.Types.{IpAddr, Ipnet, Destination, NextHop, NextHopType}
use metalbond_rs.Wire.{Prost}
use metalbond_rs.Common.{
  ℕ, List, Ordering, compare, IsOrder, compare-IsOrder, pair_cmp, pair_cmp-IsOrder, list_cmp,
  list_cmp-IsOrder, key-IsOrder, ◌≡◌, refl, ap,
}

-- The key of an address: its version's number and its octets.
abbrev addr_key : IpAddr → ℕ × List ℕ
addr_key (IpAddr.v4 octets) = (4, octets)
addr_key (IpAddr.v6 octets) = (6, octets)

addr_key_apart : (a b : IpAddr) → addr_key a ≡ addr_key b → a ≡ b
addr_key_apart (IpAddr.v4 a) (IpAddr.v4 b) e = ap (λ k. IpAddr.v4 k.1) e
addr_key_apart (IpAddr.v6 a) (IpAddr.v6 b) e = ap (λ k. IpAddr.v6 k.1) e
addr_key_apart (IpAddr.v4 a) (IpAddr.v6 b) e = absurd (cc)
addr_key_apart (IpAddr.v6 a) (IpAddr.v4 b) e = absurd (cc)

addr_cmp_by_key :
    (a b : IpAddr) → addr_cmp a b ≡ pair_cmp compare (list_cmp compare) (addr_key a) (addr_key b)
addr_cmp_by_key (IpAddr.v4 a) (IpAddr.v4 b) = refl
addr_cmp_by_key (IpAddr.v4 a) (IpAddr.v6 b) = refl
addr_cmp_by_key (IpAddr.v6 a) (IpAddr.v4 b) = refl
addr_cmp_by_key (IpAddr.v6 a) (IpAddr.v6 b) = refl

same-IsOrder :
    {A : Type 0} (f g : A → A → Ordering) → ((x y : A) → f x y ≡ g x y) → IsOrder g → IsOrder f
same-IsOrder f g same h = record {
  eq_iff = λ x y. rw (same x y) (h.eq_iff x y);
  flip = λ x y. rw (same x y, same y x) (h.flip x y);
  trans = λ x y z. rw (same x y, same y z, same x z) (h.trans x y z);
}

addr_cmp-IsOrder : IsOrder addr_cmp
addr_cmp-IsOrder =
    same-IsOrder addr_cmp (λ x y. pair_cmp compare (list_cmp compare) (addr_key x) (addr_key y))
      addr_cmp_by_key
      (key-IsOrder addr_key (pair_cmp compare (list_cmp compare)) addr_key_apart (
        pair_cmp-IsOrder compare (list_cmp compare) compare-IsOrder
          (list_cmp-IsOrder compare-IsOrder)))

module _ {Net : Type 0} ⦃i : Ipnet Net⦄ where
  abbrev destination_key : Destination Net → IpAddr × ℕ
  destination_key dest = (i.addr dest.prefix, i.prefix_len dest.prefix)

  -- If an address and a length determine a prefix of ipnet, `Ord` of `Destination` is a total order
  -- that agrees with equality.
  pub destination_cmp-IsOrder :
      ((p q : Net) → i.addr p ≡ i.addr q → i.prefix_len p ≡ i.prefix_len q → p ≡ q)
      → IsOrder (destination_cmp {Net = Net})
  unfolding destination_cmp
  destination_cmp-IsOrder determined =
      key-IsOrder destination_key (pair_cmp addr_cmp compare)
        (λ x y e.
          ap (λ p. record { prefix = p })
            (determined x.prefix y.prefix (ap (λ k. k.0) e) (ap (λ k. k.1) e)))
        (pair_cmp-IsOrder addr_cmp compare addr_cmp-IsOrder compare-IsOrder)

module _ ⦃prost : Prost⦄ where
  abbrev next_hop_key : NextHop → (((IpAddr × ℕ) × ℕ) × ℕ) × ℕ
  next_hop_key nh = (
    (
      ((nh.target_address, nh.target_vni), prost.hop_type_number nh.hop_type),
      nh.nat_port_range_from,
    ),
    nh.nat_port_range_to,
  )

  abbrev key_cmp : (((IpAddr × ℕ) × ℕ) × ℕ) × ℕ → (((IpAddr × ℕ) × ℕ) × ℕ) × ℕ → Ordering
  key_cmp = pair_cmp (pair_cmp (pair_cmp (pair_cmp addr_cmp compare) compare) compare) compare

  key_cmp-IsOrder : IsOrder key_cmp
  key_cmp-IsOrder =
      pair_cmp-IsOrder _ compare
        (pair_cmp-IsOrder _ compare
          (pair_cmp-IsOrder _ compare
            (pair_cmp-IsOrder addr_cmp compare addr_cmp-IsOrder compare-IsOrder) compare-IsOrder)
          compare-IsOrder)
        compare-IsOrder

  same_hop : (x y : NextHop) → next_hop_key x ≡ next_hop_key y → x.hop_type ≡ y.hop_type → x ≡ y
  same_hop x y e t = λ j. record {
    target_address = ap (λ k. k.0.0.0.0) e j;
    target_vni = ap (λ k. k.0.0.0.1) e j;
    hop_type = t j;
    nat_port_range_from = ap (λ k. k.0.1) e j;
    nat_port_range_to = ap (λ k. k.1) e j;
  }

  -- If the generated enumeration has different numbers for its variants, `Ord` of `NextHop` is a total
  -- order that agrees with equality.
  pub next_hop_cmp-IsOrder :
      ((t u : NextHopType) → prost.hop_type_number t ≡ prost.hop_type_number u → t ≡ u)
      → IsOrder next_hop_cmp
  unfolding next_hop_cmp
  next_hop_cmp-IsOrder determined =
      key-IsOrder next_hop_key key_cmp
        (λ x y e. same_hop x y e (determined x.hop_type y.hop_type (ap (λ k. k.0.0.1) e)))
        key_cmp-IsOrder
