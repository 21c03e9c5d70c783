-- ===== src/Examples/Web.antt =====
-- The pages of http_server.rs at the concrete table.
use metalbond_rs.Examples.Fixtures.{
  Prefix, prefixes, bytes, subnet, gateway, table, table-IsTidyTable,
}
use metalbond_rs.Http.{ShowAddr, destination_cmp, get_route_data, show_u32}
use metalbond_rs.Http.Ords.{destination_cmp-IsOrder}
use metalbond_rs.Http.Pages.{contains-get_route_data}
use metalbond_rs.Http.Ascending.{IsOrdered, get_route_data-IsOrdered}
use metalbond_rs.Http.Serialize.{ShowNet, show_destination, serialize, contains-serialize, text_eq}
use metalbond_rs.HashMap.{contains, or_default}
use metalbond_rs.RouteTable.{add_next_hop}
use metalbond_rs.RouteTable.Routes.{announcers}
use metalbond_rs.Types.{
  IpAddr, NextHopType, standard, nat, loadbalancer_target, next_hop_eq, destination_eq,
}
use metalbond_rs.Common.{ℕ, List, ◌∷◌, arith, not, is_empty, [], IsOrder, ◌≡◌, refl, nat_eq}

instance abbrev octets : ShowAddr
octets = record { show = λ a. [] }

same_prefix : (p q : Prefix) → p.address ≡ q.address → p.length ≡ q.length → p ≡ q
same_prefix p q a n = λ j. record { address = a j; length = n j }

order : IsOrder (destination_cmp {Net = Prefix})
order = destination_cmp-IsOrder same_prefix

numbers_apart : (t u : NextHopType) → bytes.hop_type_number t ≡ bytes.hop_type_number u → t ≡ u
numbers_apart standard standard e = refl
numbers_apart standard nat e = absurd (cc)
numbers_apart standard loadbalancer_target e = absurd (cc)
numbers_apart nat standard e = absurd (cc)
numbers_apart nat nat e = refl
numbers_apart nat loadbalancer_target e = absurd (cc)
numbers_apart loadbalancer_target standard e = absurd (cc)
numbers_apart loadbalancer_target nat e = absurd (cc)
numbers_apart loadbalancer_target loadbalancer_target e = refl

-- The version, the length and the octets, each as one character.
abbrev written : IpAddr → ℕ → List ℕ
written (IpAddr.v4 octets) n = 4 ∷ n ∷ octets
written (IpAddr.v6 octets) n = 6 ∷ n ∷ octets

instance abbrev characters : ShowNet Prefix
characters = record { show = λ p. written p.address p.length }

written_apart : (a b : IpAddr) (m n : ℕ) → written a m ≡ written b n → (a ≡ b) × (m ≡ n)
written_apart (IpAddr.v4 a) (IpAddr.v4 b) m n e = (cc, cc)
written_apart (IpAddr.v4 a) (IpAddr.v6 b) m n e = absurd (cc)
written_apart (IpAddr.v6 a) (IpAddr.v4 b) m n e = absurd (cc)
written_apart (IpAddr.v6 a) (IpAddr.v6 b) m n e = (cc, cc)

apart : (p q : Prefix) → characters.show p ≡ characters.show q → p ≡ q
apart p q e =
    let (a, n) = written_apart p.address q.address p.length q.length e in same_prefix p q a n

contains-serialize_example :
    contains gateway (
      or_default
        (show_destination subnet)
        (or_default (show_u32 7) (serialize (get_route_data table))))
    ≡ not (is_empty (announcers table 7 subnet gateway))
unfolding add_next_hop
contains-serialize_example =
    contains-serialize apart order table 7 subnet gateway table-IsTidyTable
      (omega arith, (omega arith, tt)) (omega arith)

contains-get_route_data_example :
    contains gateway (or_default subnet (or_default 7 (get_route_data table)))
    ≡ not (is_empty (announcers table 7 subnet gateway))
contains-get_route_data_example =
    contains-get_route_data order table 7 subnet gateway table-IsTidyTable

get_route_data-IsOrdered_example : IsOrdered {Net = Prefix} (get_route_data table)
get_route_data-IsOrdered_example = get_route_data-IsOrdered order table
