-- ===== src/Types.antt =====
-- types.rs, and the enumerations that proto/metalbond.proto declares for it. A prefix is the
-- `IpNet` of the crate ipnet: a parameter `Net`, with the operations of `Ipnet`.
use metalbond_rs.Common.{ℕ, ◌*◌, ◌/◌, Option, List, PartialEq, of_discrete, ℕ_discrete}

abbrev pub Vni : Type 0
Vni = ℕ

-- std::net::IpAddr, by its octets: 4 of them, or 16.
pub data IpAddr : Type 0 where
  v4 : List ℕ → IpAddr
  v6 : List ℕ → IpAddr

-- std::net::SocketAddr, with the flow information and the scope of version 6.
pub data SocketAddr : Type 0 where
  v4 : List ℕ → ℕ → SocketAddr
  v6 : List ℕ → ℕ → ℕ → ℕ → SocketAddr

pub data IpVersion : Type 0 where
  v4 v6 : IpVersion

-- The prefixes of the crate ipnet: `IpNet::new`, `addr`, `prefix_len`, and the enum's variant.
pub record Ipnet (Net : Type 0) : Type 0 where
  pub discrete : Discrete Net
  pub new : IpAddr → ℕ → Option Net
  pub addr : Net → IpAddr
  pub prefix_len : Net → ℕ
  pub variant : Net → IpVersion
  pub network : Net → IpAddr

pub record Destination (Net : Type 0) : Type 0 where
  pub prefix : Net

unfoldable pub ip_version : {Net : Type 0} ⦃i : Ipnet Net⦄ → Destination Net → IpVersion
ip_version ⦃i⦄ dest = elim (i.variant dest.prefix) [
  | IpVersion.v4 ↦ IpVersion.v4
  | IpVersion.v6 ↦ IpVersion.v6
]

pub data NextHopType : Type 0 where
  standard nat loadbalancer_target : NextHopType

pub record NextHop : Type 0 where
  pub target_address : IpAddr
  pub target_vni : ℕ
  pub hop_type : NextHopType
  pub nat_port_range_from : ℕ
  pub nat_port_range_to : ℕ

pub data ConnectionDirection : Type 0 where
  incoming outgoing : ConnectionDirection

pub data ConnectionState : Type 0 where
  connecting hello_sent hello_received established retry closed : ConnectionState

pub data MessageType : Type 0 where
  hello keepalive subscribe unsubscribe update : MessageType

pub data UpdateAction : Type 0 where
  add remove : UpdateAction

-- A `Duration` in nanoseconds.
abbrev pub Duration : Type 0
Duration = ℕ

abbrev pub from_secs : ℕ → Duration
from_secs s = s * 1_000_000_000

abbrev pub as_secs : Duration → ℕ
as_secs d = d / 1_000_000_000

pub record Config : Type 0 where
  pub keepalive_interval : Duration
  pub retry_interval_min : Duration
  pub retry_interval_max : Duration

unfoldable pub default_config : Config
default_config = record {
  keepalive_interval = from_secs 5;
  retry_interval_min = from_secs 5;
  retry_interval_max = from_secs 10;
}

-- The peer that announced a route; `none` is this instance.
abbrev pub PeerKey : Type 0
PeerKey = Option SocketAddr

pub record InternalUpdate (Net : Type 0) : Type 0 where
  pub action : UpdateAction
  pub vni : Vni
  pub destination : Destination Net
  pub next_hop : NextHop
  pub source_peer : PeerKey

-- The derived `PartialEq` and `Eq`.
unfoldable pub ip_addr_discrete : Discrete IpAddr
ip_addr_discrete = hlevel ℕ_discrete

unfoldable pub socket_addr_discrete : Discrete SocketAddr
socket_addr_discrete = hlevel ℕ_discrete

unfoldable pub hop_type_discrete : Discrete NextHopType
hop_type_discrete = hlevel

unfoldable pub next_hop_discrete : Discrete NextHop
next_hop_discrete = hlevel (ℕ_discrete, ip_addr_discrete, hop_type_discrete)

unfoldable pub connection_state_discrete : Discrete ConnectionState
connection_state_discrete = hlevel

unfoldable pub peer_key_discrete : Discrete PeerKey
peer_key_discrete = hlevel socket_addr_discrete

unfoldable pub destination_discrete : {Net : Type 0} ⦃i : Ipnet Net⦄ → Discrete (Destination Net)
destination_discrete ⦃i⦄ = hlevel i.discrete

instance abbrev pub socket_addr_eq : PartialEq SocketAddr
socket_addr_eq = of_discrete socket_addr_discrete

instance abbrev pub hop_type_eq : PartialEq NextHopType
hop_type_eq = of_discrete hop_type_discrete

instance abbrev pub next_hop_eq : PartialEq NextHop
next_hop_eq = of_discrete next_hop_discrete

instance abbrev pub connection_state_eq : PartialEq ConnectionState
connection_state_eq = of_discrete connection_state_discrete

instance abbrev pub peer_key_eq : PartialEq PeerKey
peer_key_eq = of_discrete peer_key_discrete

instance abbrev pub destination_eq : {Net : Type 0} ⦃i : Ipnet Net⦄ → PartialEq (Destination Net)
destination_eq = of_discrete destination_discrete
