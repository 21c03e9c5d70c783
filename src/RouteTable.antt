-- ===== src/RouteTable.antt =====
-- routetable.rs: VNI -> destination -> next hop -> the set of peers that announced it. An operation
-- that takes the write lock is a function from the table to the table it leaves; every operation
-- holds one lock from its start to its end, so it is one step of the table.
pub mod Routes
pub mod Updates
pub mod Tidy
pub mod Departure
pub mod Views
pub mod Refinement
use metalbond_rs.HashMap.{
  HashMap, HashSet, get, insert, contains, keys, set_insert, set_remove, or_default, put_or_drop,
}
use metalbond_rs.HashMap.Sweep.{sweep}
use metalbond_rs.HashMap.Collect.{collect, collect_some}
use metalbond_rs.Types.{
  Vni, Destination, NextHop, PeerKey, SocketAddr, Ipnet, destination_discrete, next_hop_discrete,
  next_hop_eq, peer_key_eq, destination_eq,
}
use metalbond_rs.Common.{
  ℕ, Bool, true, false, if◌then◌else◌, Option, none, some, List, [], ◌∷◌, length, nat_eq, PartialEq,
  of_discrete, ℕ_discrete,
}

abbrev pub PeerSet : Type 0
PeerSet = HashSet PeerKey

abbrev pub NextHops : Type 0
NextHops = HashMap NextHop PeerSet

abbrev pub Destinations : Type 0 → Type 0
Destinations Net = HashMap (Destination Net) NextHops

abbrev pub RouteTable : Type 0 → Type 0
RouteTable Net = HashMap Vni (Destinations Net)

-- What `remove_routes_from_peer` reports: `(Vni, Destination, NextHop)`.
pub record Removed (Net : Type 0) : Type 0 where
  pub vni : Vni
  pub destination : Destination Net
  pub next_hop : NextHop

unfoldable pub removed_discrete : {Net : Type 0} ⦃i : Ipnet Net⦄ → Discrete (Removed Net)
removed_discrete = hlevel (ℕ_discrete, destination_discrete, next_hop_discrete)

instance abbrev pub removed_eq : {Net : Type 0} ⦃i : Ipnet Net⦄ → PartialEq (Removed Net)
removed_eq = of_discrete removed_discrete

pub data RouteError : Type 0 where
  vni_not_found destination_not_found next_hop_not_found peer_not_found : RouteError

pub data RouteResult : Type 0 where
  ok : ℕ → RouteResult
  err : RouteError → RouteResult

-- The next hops of a destination that the local instance announced.
pub local_next_hops : NextHops → List NextHop
unfolding contains
local_next_hops [] = []
local_next_hops ((nh, peer_set) ∷ m) =
    let rest = local_next_hops m in if contains none peer_set then nh ∷ rest else rest

module _ {Net : Type 0} ⦃i : Ipnet Net⦄ where
  abbrev pub empty : RouteTable Net
  empty = []

  unfoldable pub get_vnis : RouteTable Net → List Vni
  get_vnis t = keys t

  unfoldable pub get_destinations_by_vni :
      RouteTable Net → Vni → HashMap (Destination Net) (List NextHop)
  unfolding get collect
  get_destinations_by_vni t vni = elim (get vni t) [
    | none ↦ []
    | some dest_map ↦ collect (λ dest nh_map. keys nh_map) dest_map []
  ]

  unfoldable pub get_destinations_by_vni_with_peer :
      RouteTable Net → Vni → HashMap (Destination Net) (HashMap NextHop (List PeerKey))
  unfolding get collect
  get_destinations_by_vni_with_peer t vni = elim (get vni t) [
    | none ↦ []
    | some dest_map ↦
        collect (λ dest nh_map. collect (λ nh peer_set. peer_set) nh_map []) dest_map []
  ]

  unfoldable pub get_next_hops_by_destination :
      RouteTable Net → Vni → Destination Net → List NextHop
  unfolding get
  get_next_hops_by_destination t vni dest = elim (get vni t) [
    | none ↦ []
    | some dest_map ↦ elim (get dest dest_map) [ none ↦ [] | some nh_map ↦ keys nh_map ]
  ]

  unfoldable pub add_next_hop :
      RouteTable Net → Vni → Destination Net → NextHop → PeerKey → RouteTable Net × Bool
  unfolding or_default insert set_insert
  add_next_hop t vni dest nh received_from =
      let dest_map = or_default vni t in
      let nh_map = or_default dest dest_map in
      let (peer_set, added) = set_insert received_from (or_default nh nh_map) in
      (insert vni (insert dest (insert nh peer_set nh_map) dest_map) t, added)

  unfoldable pub remove_next_hop :
      RouteTable Net → Vni → Destination Net → NextHop → PeerKey → RouteTable Net × RouteResult
  unfolding get set_remove put_or_drop
  remove_next_hop t vni dest nh received_from = elim (get vni t) [
    | none ↦ (t, err vni_not_found)
    | some vni_map ↦ elim (get dest vni_map) [
      | none ↦ (t, err destination_not_found)
      | some dest_map ↦ elim (get nh dest_map) [
        | none ↦ (t, err next_hop_not_found)
        | some nh_map ↦
            let (left, removed) = set_remove received_from nh_map in
            if removed
            then (
              put_or_drop vni (put_or_drop dest (put_or_drop nh left dest_map) vni_map) t,
              ok (length left),
            )
            else (t, err peer_not_found)
      ]
    ]
  ]

  unfoldable pub next_hop_exists : RouteTable Net → Vni → Destination Net → NextHop → PeerKey → Bool
  unfolding get contains
  next_hop_exists t vni dest nh received_from = elim (get vni t) [
    | none ↦ false
    | some dest_map ↦ elim (get dest dest_map) [
      | none ↦ false
      | some nh_map ↦ elim (get nh nh_map) [
        | none ↦ false
        | some peer_set ↦ contains received_from peer_set
      ]
    ]
  ]

  -- The bodies of the three loops of `remove_routes_from_peer`, the innermost first.
  pub leave_next_hop :
      SocketAddr → Vni → Destination Net → NextHop → PeerSet → PeerSet × List (Removed Net)
  unfolding set_remove
  leave_next_hop peer vni dest nh peer_set =
      let (left, removed) = set_remove (some peer) peer_set in
      (left, if removed then record { vni = vni; destination = dest; next_hop = nh } ∷ [] else [])

  pub leave_destination :
      SocketAddr → Vni → Destination Net → NextHops → NextHops × List (Removed Net)
  unfolding leave_next_hop sweep
  leave_destination peer vni dest = sweep (leave_next_hop peer vni dest)

  pub leave_vni : SocketAddr → Vni → Destinations Net → Destinations Net × List (Removed Net)
  unfolding leave_destination sweep
  leave_vni peer vni = sweep (leave_destination peer vni)

  unfoldable pub remove_routes_from_peer :
      RouteTable Net → SocketAddr → RouteTable Net × List (Removed Net)
  unfolding leave_vni sweep
  remove_routes_from_peer t peer = sweep (leave_vni peer) t

  unfoldable pub get_local_announcements :
      RouteTable Net → HashMap Vni (HashMap (Destination Net) (List NextHop))
  unfolding local_next_hops collect_some
  get_local_announcements t =
      collect_some
        (λ vni dest_map. collect_some (λ dest nh_map. local_next_hops nh_map) dest_map []) t []
