-- ===== src/Netlink/Leftovers.antt =====
-- The routes that an earlier run of MetalBond left in the kernel, told by their header and attributes
-- and not by the test of netlink.rs, and that the test finds exactly these.
use metalbond_rs.Netlink.Requests.{RouteMessage, RouteAttribute}
use metalbond_rs.Netlink.{is_metalbond_route, output_interface, output_interface_of, leaves_by}
use metalbond_rs.HashMap.{HashMap}
use metalbond_rs.Types.{Vni}
use metalbond_rs.Common.{
  ℕ, ◌%◌, ◌^◌, Bool, false, ◌&&◌, ◌||◌, List, [], ◌∷◌, ℤ, is_positive, as_unsigned, nat_beq, ◌≡◌,
  refl, arith,
}

-- Whether the first output interface among the attributes is the link.
abbrev pub leaves_through : {Other : Type 0} → ℕ → List (RouteAttribute Other) → Bool
leaves_through link [] = false
leaves_through link (RouteAttribute.oif index ∷ attributes) = nat_beq index link
leaves_through link (RouteAttribute.destination a ∷ attributes) = leaves_through link attributes
leaves_through link (RouteAttribute.gateway a ∷ attributes) = leaves_through link attributes
leaves_through link (RouteAttribute.other o ∷ attributes) = leaves_through link attributes

-- Whether the route has the protocol number 254, lies in the table, and leaves by the link.
abbrev pub is_leftover : {Other : Type 0} → ℕ → ℕ → RouteMessage Other → Bool
is_leftover table link s =
    nat_beq s.header.protocol 254
    && (nat_beq s.header.table (table % 2 ^ 8) && leaves_through link s.attributes)

-- Whether it is one in a table that a VNI is mapped to by a positive number.
abbrev pub is_leftover_in : {Other : Type 0} → ℕ → HashMap Vni ℤ → RouteMessage Other → Bool
is_leftover_in link [] s = false
is_leftover_in link ((vni, table_id) ∷ tables) s =
    (is_positive table_id && is_leftover (as_unsigned 32 table_id) link s)
    || is_leftover_in link tables s

module _ {Other : Type 0} where
  leaves_by-leaves_through :
      (link : ℕ) (xs : List (RouteAttribute Other))
      → leaves_by link (output_interface_of xs) ≡ leaves_through link xs
  unfolding output_interface_of
  leaves_by-leaves_through link [] = refl
  leaves_by-leaves_through link (RouteAttribute.oif index ∷ xs) = refl
  leaves_by-leaves_through link (RouteAttribute.destination a ∷ xs) =
      leaves_by-leaves_through link xs
  leaves_by-leaves_through link (RouteAttribute.gateway a ∷ xs) = leaves_by-leaves_through link xs
  leaves_by-leaves_through link (RouteAttribute.other o ∷ xs) = leaves_by-leaves_through link xs

  pub is_metalbond_route-is_leftover :
      (table link : ℕ) (s : RouteMessage Other)
      → is_metalbond_route table link s ≡ is_leftover table link s
  unfolding is_metalbond_route output_interface
  is_metalbond_route-is_leftover table link s =
      ground (arith, leaves_by-leaves_through link s.attributes)
