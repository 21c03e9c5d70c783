-- ===== src/Netlink/Requests.antt =====
-- The messages of netlink_packet_route and the requests of rtnetlink that netlink.rs uses: the
-- fields and variants that it reads or writes; `Other` stands for the rest of the crates' data.
use metalbond_rs.Types.{Vni, IpAddr, IpVersion}
use metalbond_rs.Common.{ℕ, Option, List, Result, ok, err, ℤ}

pub data AddressFamily : Type 0 where
  inet inet6 unspecified : AddressFamily

pub data RouteScope : Type 0 where
  universe : RouteScope
  other : ℕ → RouteScope

pub data RouteType : Type 0 where
  unicast : RouteType
  other : ℕ → RouteType

-- A `RouteProtocol` is its number.
pub record RouteHeader : Type 0 where
  pub address_family : AddressFamily
  pub destination_prefix_length : ℕ
  pub table : ℕ
  pub protocol : ℕ
  pub scope : RouteScope
  pub kind : RouteType

pub data RouteAttribute (Other : Type 0) : Type 0 where
  destination : IpAddr → RouteAttribute Other
  oif : ℕ → RouteAttribute Other
  gateway : IpAddr → RouteAttribute Other
  other : Other → RouteAttribute Other

pub record RouteMessage (Other : Type 0) : Type 0 where
  pub header : RouteHeader
  pub attributes : List (RouteAttribute Other)

-- `rtnetlink::Error`, with the code of a `NetlinkError`.
pub data RtError : Type 0 where
  netlink_error : Option ℤ → RtError
  unexpected_message bad_request namespace_error other : RtError

-- The errors of netlink.rs; `request_failed` is an error of rtnetlink that is passed on.
pub data NetlinkError : Type 0 where
  no_table : Vni → NetlinkError
  invalid_table no_device : NetlinkError
  request_failed : RtError → NetlinkError

-- `link_index` opens the connection and queries the link of a name; `dump` is the stream of
-- `route().get`, which ends at its first error for the code that reads it.
pub record Rtnetlink (Other K : Type 0) : Type 0 where
  pub default_message : RouteMessage Other
  pub link_index : List ℕ → K → Result RtError (Option ℕ)
  pub dump : IpVersion → K → List (Result RtError (RouteMessage Other))
  pub add : RouteMessage Other → K → Result RtError (Unit {0}) × K
  pub del : RouteMessage Other → K → Result RtError (Unit {0}) × K

abbrev pub Request : Type 0 → Type 0 → Type 0
Request K A = K → Result NetlinkError A × K

module _ {K : Type 0} where
  unfoldable pub pure : {A : Type 0} → A → Request K A
  pure a k = (ok a, k)

  unfoldable pub bail : {A : Type 0} → NetlinkError → Request K A
  bail e k = (err e, k)

  abbrev pub pass_on : {A : Type 0} → Result RtError A × K → Result NetlinkError A × K
  pass_on (ok a, after) = (ok a, after)
  pass_on (err e, after) = (err (request_failed e), after)

  -- A request whose error is passed on.
  unfoldable pub send : {A : Type 0} → (K → Result RtError A × K) → Request K A
  send request k = pass_on (request k)

  infixl 5 ◌>>=◌ ◌>>◌
  unfoldable pub ◌>>=◌ : {A B : Type 0} → Request K A → (A → Request K B) → Request K B
  ◌>>=◌ m f k =
      let (result, after) = m k in elim result [ ok a ↦ f a after | err e ↦ (err e, after) ]

  unfoldable pub ◌>>◌ : {A B : Type 0} → Request K A → Request K B → Request K B
  unfolding ◌>>=◌
  m >> n = m >>= (λ _. n)
