-- ===== src/Examples/Kernels.antt =====
-- A kernel for netlink.rs with two routes that can be deleted.
use metalbond_rs.Netlink.Requests.{
  RtError, RouteMessage, RouteAttribute, AddressFamily, RouteScope, RouteType, Rtnetlink,
}
use metalbond_rs.Netlink.{NetlinkClientConfig, family_of, new_client}
use metalbond_rs.Netlink.Kernels.{Kernel}
use metalbond_rs.Netlink.Clearing.{new_client-IsCleared}
use metalbond_rs.Netlink.Leftovers.{is_leftover_in}
use metalbond_rs.HashMap.{contains}
use metalbond_rs.HashMap.Sets.{IsNodup}
use metalbond_rs.Types.{IpVersion, ip_addr_discrete}
use mathlib.Core.Bool.{decide}
use metalbond_rs.Common.{
  ℕ, Bool, true, false, not, ◌&&◌, ◌==◌, ==_iff, ==_self, PartialEq, of_discrete, ℕ_discrete, some,
  List, [], ◌∷◌, ◌++◌, map, Result, ok, err, pos, negsuc, ◌≡◌, sym, subst, ◌∙◌, ap, ◌⊎◌, inl, inr,
  Bool-cases, refl, arith, if◌then◌else◌, nat_eq,
}

unfoldable pub message_discrete : Discrete (RouteMessage (Unit {0}))
message_discrete = hlevel (ℕ_discrete, ip_addr_discrete)

instance abbrev pub message_eq : PartialEq (RouteMessage (Unit {0}))
message_eq = of_discrete message_discrete

abbrev pub Message : Type 0
Message = RouteMessage (Unit {0})

-- A route of table 7 by interface 9, with a protocol number.
abbrev message : ℕ → Message
message protocol = record {
  header = record {
    address_family = AddressFamily.inet;
    destination_prefix_length = 24;
    table = 7;
    protocol = protocol;
    scope = RouteScope.universe;
    kind = RouteType.unicast;
  };
  attributes = RouteAttribute.oif 9 ∷ [];
}

abbrev pub blank : Message
blank = record {
  header = record {
    address_family = AddressFamily.unspecified;
    destination_prefix_length = 0;
    table = 0;
    protocol = 0;
    scope = RouteScope.universe;
    kind = RouteType.other 0;
  };
  attributes = [];
}

-- A route of MetalBond and one of the administrator, each there or not.
abbrev present : Bool → Message → List Message
present b m = if b then m ∷ [] else []

abbrev two_routes : IpVersion → Bool × Bool → List Message
two_routes IpVersion.v4 (a, b) = present a (message 254) ++ present b (message 4)
two_routes IpVersion.v6 (a, b) = []

abbrev delete : Message → Bool × Bool → Result RtError (Unit {0}) × (Bool × Bool)
delete m (a, b) =
    if m == message 254
    then (ok tt, (false, b))
    else if m == message 4
    then (ok tt, (a, false))
    else (err (RtError.netlink_error (some (negsuc 1))), (a, b))

abbrev small_kernel : Rtnetlink (Unit {0}) (Bool × Bool)
small_kernel = record {
  default_message = blank;
  link_index = λ name k. ok (some 9);
  dump = λ v k. map ok (two_routes v k);
  add = λ m k. (err RtError.bad_request, k);
  del = delete;
}

apart : (message 4 == message 254) ≡ false
unfolding message_discrete ip_addr_discrete ℕ_discrete decide
apart = refl

two_routes-IsNodup : (v : IpVersion) (k : Bool × Bool) → IsNodup (two_routes v k)
unfolding contains
two_routes-IsNodup IpVersion.v4 (true, true) = (ground (arith, apart), (refl, tt))
two_routes-IsNodup IpVersion.v4 (true, false) = (refl, tt)
two_routes-IsNodup IpVersion.v4 (false, true) = (refl, tt)
two_routes-IsNodup IpVersion.v4 (false, false) = tt
two_routes-IsNodup IpVersion.v6 (a, b) = tt

-- A listed message is one of the two that are there.
two_routes_cases :
    (v : IpVersion) (a b : Bool) (r : Message)
    → contains r (two_routes v (a, b)) ≡ true
    → (v ≡ IpVersion.v4) × (((a ≡ true) × (message 254 ≡ r)) ⊎ ((b ≡ true) × (message 4 ≡ r)))
unfolding contains
two_routes_cases IpVersion.v4 true true r h = elim (Bool-cases (message 254 == r)) [
  | inl t ↦ (refl, inl (refl, (==_iff (message 254) r).0 t))
  | inr f ↦ (refl, inr (refl, (==_iff (message 4) r).0 (ground (arith, h, f))))
]
two_routes_cases IpVersion.v4 true false r h =
    (refl, inl (refl, (==_iff (message 254) r).0 (ground (arith, h))))
two_routes_cases IpVersion.v4 false true r h =
    (refl, inr (refl, (==_iff (message 4) r).0 (ground (arith, h))))
two_routes_cases IpVersion.v4 false false r h = absurd (cc)
two_routes_cases IpVersion.v6 a b r h = absurd (cc)

-- What the deletion of `r` must give for the laws of `Kernel`.
abbrev IsDeletion : Message → Bool × Bool → Type 0
IsDeletion r k =
    ((delete r k).0 ≡ ok tt)
    × ((w : IpVersion) (s : Message)
        → contains s (two_routes w (delete r k).1) ≡ (not (r == s) && contains s (two_routes w k)))

not_equal : (s : Message) → (message 254 == s) ≡ true → (message 4 == s) ≡ false
not_equal s h = subst (λ m. (message 4 == m) ≡ false) ((==_iff (message 254) s).0 h) apart

first_left :
    (w : IpVersion) (b : Bool) (s : Message)
    → contains s (two_routes w (false, b))
      ≡ (not (message 254 == s) && contains s (two_routes w (true, b)))
unfolding contains
first_left IpVersion.v4 true s = ground (arith, not_equal s)
first_left IpVersion.v4 false s = ground arith
first_left IpVersion.v6 b s = ground arith

second_left :
    (w : IpVersion) (a : Bool) (s : Message)
    → contains s (two_routes w (a, false))
      ≡ (not (message 4 == s) && contains s (two_routes w (a, true)))
unfolding contains
second_left IpVersion.v4 true s = ground (arith, not_equal s)
second_left IpVersion.v4 false s = ground arith
second_left IpVersion.v6 a s = ground arith

first-IsDeletion : (b : Bool) → IsDeletion (message 254) (true, b)
unfolding contains
first-IsDeletion b = rw (==_self (message 254)) (refl, λ w s. first_left w b s)

second-IsDeletion : (a : Bool) → IsDeletion (message 4) (a, true)
unfolding contains
second-IsDeletion a = rw (apart) (rw (==_self (message 4)) (refl, λ w s. second_left w a s))

delete_lem :
    (v : IpVersion) (a b : Bool) (r : Message)
    → contains r (two_routes v (a, b)) ≡ true
    → IsDeletion r (a, b)
delete_lem v a b r h = elim (two_routes_cases v a b r h).1 [
  | inl (here, same) ↦
      subst (λ m. IsDeletion m (a, b)) same
        (subst (λ c. IsDeletion (message 254) (c, b)) (sym here) (first-IsDeletion b))
  | inr (here, same) ↦
      subst (λ m. IsDeletion m (a, b)) same
        (subst (λ c. IsDeletion (message 4) (a, c)) (sym here) (second-IsDeletion a))
]

inet :
    (v : IpVersion) (a b : Bool) (r : Message)
    → contains r (two_routes v (a, b)) ≡ true
    → r.header.address_family ≡ family_of v
inet v a b r h =
    let (version, which) = two_routes_cases v a b r h in
    elim which [
      | inl (here, same) ↦ ap (λ m. m.header.address_family) (sym same) ∙ ap family_of (sym version)
      | inr (here, same) ↦ ap (λ m. m.header.address_family) (sym same) ∙ ap family_of (sym version)
    ]

abbrev small_kernel_lem : Kernel small_kernel
small_kernel_lem = record {
  routes = two_routes;
  dump_routes = λ v k. refl;
  routes_nodup = two_routes-IsNodup;
  routes_family = λ v k. inet v k.0 k.1;
  del_result = λ v k r h. (delete_lem v k.0 k.1 r h).0;
  del_routes = λ v w k r s h. (delete_lem v k.0 k.1 r h).1 w s;
}

abbrev pub tun_config : NetlinkClientConfig
tun_config = record {
  vni_table_map = (100, pos 7) ∷ (200, negsuc 0) ∷ [];
  link_name = [];
  ipv4_only = false;
}

new_client-IsCleared_example :
    (new_client small_kernel tun_config (true, true) ≡ (
      ok (record { handle = small_kernel; config = tun_config; tun_index = 9 }),
      (new_client small_kernel tun_config (true, true)).1,
    ))
    × ((w : IpVersion) (s : Message)
        → contains s (two_routes w (new_client small_kernel tun_config (true, true)).1) ≡ (
            not (is_leftover_in 9 tun_config.vni_table_map s)
            && contains s (two_routes w (true, true))))
new_client-IsCleared_example = new_client-IsCleared small_kernel_lem tun_config 9 (true, true) refl

-- The route of MetalBond is gone, the other stays.
test_clear : (new_client small_kernel tun_config (true, true)).1 ≡ (false, true)
unfolding new_client decide message_discrete ℕ_discrete
test_clear = refl
