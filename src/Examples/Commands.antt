-- ===== src/Examples/Commands.antt =====
-- Announcements and mappings as main.rs reads them, with readers that know two texts.
use metalbond_rs.Examples.Fixtures.{Prefix, prefixes, bytes, subnet, gateway}
use metalbond_rs.Examples.Instances.{client}
use metalbond_rs.Examples.Installs.{tun_client}
use metalbond_rs.Command.Readers.{Text, AddrText, codes, same_text}
use metalbond_rs.Command.Grammar.{IsAnnouncement}
use metalbond_rs.Command.Announcing.{join, IsPart, announces, read_announcement-join}
use metalbond_rs.Command.Programs.{ClientArgs, Meanwhile, set_up_client}
use metalbond_rs.Command.SetUps.{next_update-IsAside, set_up_client-result}
use metalbond_rs.Command.Tables.{route_request-vni_table_map}
use metalbond_rs.Command.{Announcement, read_announcement, read_mapping, vni_table_map, hop_of}
use metalbond_rs.Types.{nat, hop_type_discrete}
use metalbond_rs.Netlink.Requests.{invalid_table}
use metalbond_rs.Netlink.{route_request}
use metalbond_rs.MetalBond.{is_route_announced, announce_route, subscribe}
use metalbond_rs.HashMap.{get, contains}
use metalbond_rs.MetalBond.Relay.{next_update}
use metalbond_rs.MetalBond.Distributor.{distribute}
use mathlib.Core.Bool.{decide}
use metalbond_rs.Common.{
  ℕ, true, false, some, none, List, [], ◌∷◌, ok, err, ◌≡◌, ◌≢◌, ◌↔◌, refl, arith, if◌then◌else◌,
  nat_eq,
}

instance abbrev readers : AddrText Prefix
readers = record {
  socket_from_str = λ s. none;
  addr_from_str =
      λ s. if same_text s (codes "172.16.0.1") then some gateway.target_address else none;
  net_from_str = λ s. if same_text s (codes "192.168.1.0/24") then some subnet.prefix else none;
}

abbrev with_nat : Announcement Prefix
with_nat = record {
  vni = 7;
  destination = subnet;
  next_hop = hop_of gateway.target_address nat 1024 2048;
}

abbrev simple : Announcement Prefix
simple = record { vni = 7; destination = subnet; next_hop = gateway }

test_simple : read_announcement (codes "7#192.168.1.0/24#172.16.0.1") ≡ ok simple
unfolding read_announcement hop_type_discrete decide
test_simple = refl

test_nat : read_announcement (codes "7#192.168.1.0/24#172.16.0.1#NAT#1024#2048") ≡ ok with_nat
unfolding read_announcement hop_type_discrete decide
test_nat = refl

free_of : (s : Text) → contains b'#' s ≡ false → IsPart b'#' s
unfolding contains
free_of [] h = tt
free_of (c ∷ s) h = (ground (arith, h), free_of s (ground (arith, h)))

read_announcement-join_example :
    (read_announcement (join b'#' (codes "7" ∷ codes "192.168.1.0/24" ∷ codes "172.16.0.1" ∷ []))
      ≡ ok simple)
    ↔ IsAnnouncement (codes "7" ∷ codes "192.168.1.0/24" ∷ codes "172.16.0.1" ∷ []) simple
unfolding contains
read_announcement-join_example =
    read_announcement-join (codes "7") (codes "192.168.1.0/24" ∷ codes "172.16.0.1" ∷ []) simple (
      free_of (codes "7") refl,
      (free_of (codes "192.168.1.0/24") refl, (free_of (codes "172.16.0.1") refl, tt)),
    )

abbrev texts : List Text
texts = codes "7#192.168.1.0/24#172.16.0.1" ∷ codes "7#192.168.1.0/24#172.16.0.1#NAT#1024#2048" ∷ []

abbrev client_args : ClientArgs
client_args = record {
  server = (codes "[::1]:4711", 0) ∷ [];
  subscribe = 7 ∷ [];
  announce = texts;
  keepalive = some 3;
}

-- The distributor has a round before each operation.
abbrev meanwhile : Meanwhile Prefix
meanwhile = record {
  adding = λ k n. next_update n;
  subscribing = λ k n. next_update n;
  announcing = λ k n. next_update n;
}

set_up_client-result_example :
    (is_route_announced 7 subnet gateway
        (set_up_client meanwhile (λ v. true) client_args client.heap).1
      ≡ announces texts 7 subnet gateway)
    × (contains 7
          (set_up_client {Net = Prefix} meanwhile
            (λ v. true)
            client_args
            client.heap).1.mb.my_subscriptions
        ≡ contains {A = ℕ} 7 (7 ∷ []))
unfolding set_up_client read_announcement hop_type_discrete decide announce_route subscribe contains
    next_update distribute get
set_up_client-result_example =
    set_up_client-result meanwhile (λ v. true) client_args client.heap 7 subnet gateway
      (next_update-IsAside, next_update-IsAside, next_update-IsAside) refl

route_request-vni_table_map_example :
    route_request tun_client 100 subnet gateway ≢ err invalid_table
unfolding vni_table_map read_mapping
route_request-vni_table_map_example =
    route_request-vni_table_map tun_client (codes "100#7" ∷ []) 100 subnet gateway refl
