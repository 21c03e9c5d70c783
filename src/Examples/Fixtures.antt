-- ===== src/Examples/Fixtures.antt =====
-- Concrete parameters of the model, two peers, two routes and a table of them.
use metalbond_rs.Types.{
  IpAddr, SocketAddr, IpVersion, Ipnet, Destination, NextHop, NextHopType, standard, nat,
  loadbalancer_target, ip_addr_discrete, default_config, ConnectionDirection,
}
use metalbond_rs.RouteTable.{RouteTable, add_next_hop}
use metalbond_rs.RouteTable.Tidy.{IsTidyTable, add_next_hop-IsTidyTable}
use metalbond_rs.Wire.{Action, Hello, Subscription, PbIpVersion, ipv4, ipv6, Prost}
use metalbond_rs.State.{MetalBondState, new_peer, new_state}
use metalbond_rs.State.Actions.{World}
use metalbond_rs.Common.{
  ℕ, Bool, true, false, Option, none, some, List, [], ◌∷◌, leb, nat_beq, if◌then◌else◌, ℕ_discrete,
}

pub record Prefix : Type 0 where
  pub address : IpAddr
  pub length : ℕ

unfoldable pub prefix_discrete : Discrete Prefix
prefix_discrete = hlevel (ℕ_discrete, ip_addr_discrete)

abbrev version_of : IpAddr → IpVersion
version_of (IpAddr.v4 octets) = IpVersion.v4
version_of (IpAddr.v6 octets) = IpVersion.v6

instance abbrev pub prefixes : Ipnet Prefix
prefixes = record {
  discrete = prefix_discrete;
  new = λ a n. if leb n 32 then some (record { address = a; length = n }) else none;
  addr = λ p. p.address;
  prefix_len = λ p. p.length;
  variant = λ p. version_of p.address;
  network = λ p. p.address;
}

abbrev flag : Bool → ℕ
flag true = 1
flag false = 0

abbrev read_hello : List ℕ → Option Hello
read_hello (k ∷ b ∷ []) = some (record { keepalive_interval = k; is_server = nat_beq b 1 })
read_hello _ = none

abbrev read_subscription : List ℕ → Option Subscription
read_subscription (v ∷ []) = some (record { vni = v })
read_subscription _ = none

abbrev pub action_of : ℕ → Option Action
action_of n =
    if nat_beq n 0 then some Action.add else if nat_beq n 1 then some Action.remove else none

abbrev pub number_of : Action → ℕ
number_of Action.add = 0
number_of Action.remove = 1

abbrev hop_number : NextHopType → ℕ
hop_number standard = 0
hop_number nat = 1
hop_number loadbalancer_target = 2

abbrev hop_of : ℕ → Option NextHopType
hop_of n =
    if nat_beq n 0
    then some standard
    else if nat_beq n 1
    then some nat
    else if nat_beq n 2
    then some loadbalancer_target
    else none

abbrev version_number : PbIpVersion → ℕ
version_number ipv4 = 0
version_number ipv6 = 1

-- Bytes for the messages without an inner one.
instance abbrev pub bytes : Prost
bytes = record {
  encode_hello = λ h. h.keepalive_interval ∷ flag h.is_server ∷ [];
  decode_hello = read_hello;
  encode_subscription = λ s. s.vni ∷ [];
  decode_subscription = read_subscription;
  encode_update = λ u. u.action ∷ u.vni ∷ [];
  decode_update = λ xs. none;
  action_number = number_of;
  action_of_number = action_of;
  hop_type_number = hop_number;
  hop_type_of_number = hop_of;
  ip_version_number = version_number;
}

abbrev pub alice : SocketAddr
alice = SocketAddr.v4 (10 ∷ 0 ∷ 0 ∷ 1 ∷ []) 4711

abbrev pub bob : SocketAddr
bob = SocketAddr.v4 (10 ∷ 0 ∷ 0 ∷ 2 ∷ []) 4711

abbrev pub subnet : Destination Prefix
subnet = record { prefix = record { address = IpAddr.v4 (192 ∷ 168 ∷ 1 ∷ 0 ∷ []); length = 24 } }

abbrev pub host : Destination Prefix
host = record { prefix = record { address = IpAddr.v4 (192 ∷ 168 ∷ 1 ∷ 7 ∷ []); length = 32 } }

abbrev pub gateway : NextHop
gateway = record {
  target_address = IpAddr.v4 (172 ∷ 16 ∷ 0 ∷ 1 ∷ []);
  target_vni = 0;
  hop_type = standard;
  nat_port_range_from = 0;
  nat_port_range_to = 0;
}

-- Alice and this instance announce the subnet, and Bob the host.
abbrev pub of_alice : RouteTable Prefix
of_alice = (add_next_hop [] 7 subnet gateway (some alice)).0

abbrev pub shared : RouteTable Prefix
shared = (add_next_hop of_alice 7 subnet gateway none).0

abbrev pub table : RouteTable Prefix
table = (add_next_hop shared 8 host gateway (some bob)).0

pub empty-IsTidyTable : IsTidyTable {Net = Prefix} []
empty-IsTidyTable = (tt, tt)

pub table-IsTidyTable : IsTidyTable table
table-IsTidyTable = add_next_hop-IsTidyTable shared 8 host gateway (some bob) (
    add_next_hop-IsTidyTable of_alice 7 subnet gateway none
      (add_next_hop-IsTidyTable [] 7 subnet gateway (some alice) empty-IsTidyTable))

abbrev pub client_state : MetalBondState Prefix
client_state = new_state default_config false

abbrev pub server_state : MetalBondState Prefix
server_state = record (new_state {Net = Prefix} default_config true) { route_table = table }

abbrev pub at_client : World Prefix
at_client = record {
  peer = new_peer default_config bob ConnectionDirection.outgoing;
  mb = record client_state { my_subscriptions = 7 ∷ 8 ∷ [] };
  readers = 0;
  writer = false;
}

abbrev pub at_server : World Prefix
at_server = record {
  peer = new_peer default_config alice ConnectionDirection.incoming;
  mb = server_state;
  readers = 0;
  writer = false;
}
