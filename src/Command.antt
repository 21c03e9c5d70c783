-- ===== src/Command.antt =====
-- main.rs, with `next_hop_type_from_str` of pb/mod.rs: the command line's mappings and announcements,
-- and the loops of a client's set-up. The distributor and the tasks of the connections run meanwhile:
-- what they do before each operation of a loop is a parameter. Addresses and prefixes are read by the
-- parsers of `AddrText`.
pub mod Readers
pub mod Grammar
pub mod Announcing
pub mod Tables
pub mod Programs
pub mod SetUps
use metalbond_rs.Command.Readers.{
  Text, AddrText, split, codes, lower, read_unsigned, read_i32, same_text,
}
use metalbond_rs.HashMap.{HashMap, insert}
use metalbond_rs.Types.{
  Vni, IpAddr, Ipnet, Destination, NextHop, NextHopType, standard, nat, loadbalancer_target,
  hop_type_discrete, hop_type_eq, Config, from_secs, default_config, SocketAddr,
}
use metalbond_rs.Wire.{Prost}
use metalbond_rs.MetalBond.{
  MetalBondError, Outcome, success, failure, blocked, Node, add_peer, subscribe, announce_route,
}
use metalbond_rs.State.Actions.{Done}
use metalbond_rs.Common.{
  ℕ, ◌+◌, ◌-◌, ◌^◌, Bool, true, false, not, ◌||◌, ◌==◌, Option, none, some, List, [], ◌∷◌, map,
  length, get_elem?, ltb, nat_beq, if◌then◌else◌, Result, ok, err, ℤ, is_positive, nat_eq,
}

pub data CommandError : Type 0 where
  malformed_mapping invalid_vni invalid_table_id : CommandError
  malformed_announcement invalid_prefix invalid_hop : CommandError
  malformed_nat invalid_port unexpected_ports : CommandError

-- `option.ok_or(e)`
abbrev pub ok_or {ℓ} : {E A : Type ℓ} → E → Option A → Result E A
ok_or e none = err e
ok_or e (some a) = ok a

infixl 5 ◌>>=◌
abbrev pub ◌>>=◌ :
    {A B : Type 0} → Result CommandError A → (A → Result CommandError B) → Result CommandError B
ok a >>= f = f a
err e >>= f = err e

-- `std::cmp::max` of the types' values.
abbrev pub u32_max : ℕ
u32_max = 2 ^ 32 - 1

abbrev pub u16_max : ℕ
u16_max = 2 ^ 16 - 1

-- `pb::next_hop_type_from_str`. No character but an ASCII letter has a lower case in these words.
unfoldable pub next_hop_type_from_str : Text → NextHopType
next_hop_type_from_str s =
    let word = map lower s in
    if same_text word (codes "std") || same_text word (codes "standard")
    then standard
    else if same_text word (codes "lb")
        || same_text word (codes "loadbalancer")
        || same_text word (codes "loadbalancer_target")
    then loadbalancer_target
    else if same_text word (codes "nat")
    then nat
    else standard

-- The parts of a mapping.
unfoldable pub read_entry : List Text → Result CommandError (Vni × ℤ)
unfolding read_unsigned read_i32
read_entry (vni_text ∷ table_text ∷ []) =
    ok_or invalid_vni (read_unsigned u32_max vni_text) >>= (λ vni.
      ok_or invalid_table_id (read_i32 table_text)
      >>= (λ table_id. if is_positive table_id then ok (vni, table_id) else err invalid_table_id))
read_entry _ = err malformed_mapping

-- One round of the loop over `install_routes`: the VNI and the table's number.
unfoldable pub read_mapping : Text → Result CommandError (Vni × ℤ)
unfolding split read_entry
read_mapping mapping = read_entry (split b'#' mapping)

-- The loop over `install_routes`.
unfoldable pub vni_table_map : List Text → HashMap Vni ℤ → Result CommandError (HashMap Vni ℤ)
unfolding insert
vni_table_map [] tables = ok tables
vni_table_map (mapping ∷ mappings) tables =
    read_mapping mapping >>= (λ entry. vni_table_map mappings (insert entry.0 entry.1 tables))

-- The configuration under `--keepalive`.
unfoldable pub with_keepalive : Option ℕ → Config
unfolding default_config
with_keepalive none = default_config
with_keepalive (some secs) = record default_config { keepalive_interval = from_secs secs }

-- What an announcement on the command line says.
pub record Announcement (Net : Type 0) : Type 0 where
  pub vni : Vni
  pub destination : Destination Net
  pub next_hop : NextHop

-- `parts[n]`, which the code reads where it is in range.
abbrev pub part : ℕ → List Text → Text
part n parts = elim (get_elem? parts n) [ none ↦ [] | some text ↦ text ]

-- The next hop that an announcement names.
abbrev pub hop_of : IpAddr → NextHopType → ℕ → ℕ → NextHop
hop_of hop_ip hop_type from_port to_port = record {
  target_address = hop_ip;
  target_vni = 0;
  hop_type = hop_type;
  nat_port_range_from = from_port;
  nat_port_range_to = to_port;
}

-- What the other tasks do before an operation of a loop, by the number of operations that follow it. If
-- they take an update out of the channel while the operation waits for room, which needs no lock, it is
-- as if they had taken it before the operation.
abbrev pub Turns : Type 0 → Type 0
Turns Net = ℕ → Node Net → Node Net

-- How the set-up of a client ends; `stuck` is a call that waits for room in the channel of updates and
-- gets none from the other tasks.
pub data SetUp : Type 0 where
  ready stuck : SetUp
  invalid_argument : CommandError → SetUp
  failed : MetalBondError → SetUp

module _ {Net : Type 0} where
  -- `operation.await?` and what follows it.
  abbrev pub go_on : Outcome Done × Node Net → (Node Net → SetUp × Node Net) → SetUp × Node Net
  go_on (success _, n) next = next n
  go_on (failure e, n) next = (failed e, n)
  go_on (blocked, n) next = (stuck, n)

  -- The loop over `subscribe`: an error ends the program.
  unfoldable pub subscribe_all : Turns Net → (Vni → Bool) → List Vni → Node Net → SetUp × Node Net
  subscribe_all others clears [] n = (ready, n)
  subscribe_all others clears (vni ∷ vnis) n =
      go_on (subscribe clears vni (others (length vnis) n)) (subscribe_all others clears vnis)

-- The ports of an announcement whose first four parts are read.
unfoldable pub read_ports : List Text → NextHopType → Result CommandError (ℕ × ℕ)
unfolding read_unsigned hop_type_discrete
read_ports parts hop_type =
    if hop_type == nat
    then if not (nat_beq (length parts) 6)
      then err malformed_nat
      else ok_or invalid_port (read_unsigned u16_max (part 4 parts)) >>= (λ from_port.
        ok_or invalid_port (read_unsigned u16_max (part 5 parts))
        >>= (λ to_port. ok (from_port, to_port)))
    else if ltb 4 (length parts)
    then err unexpected_ports
    else ok (0, 0)

-- The rest of a round of the loop over `announce`, behind the readers of the first three parts.
unfoldable pub read_next_hop :
    {Net : Type 0} → List Text → ℕ → Net → IpAddr → Result CommandError (Announcement Net)
unfolding read_ports next_hop_type_from_str
read_next_hop parts vni net hop_ip =
    let hop_type =
      if ltb 3 (length parts) then next_hop_type_from_str (part 3 parts) else standard in
    read_ports parts hop_type >>= (λ ports. ok (record {
      vni = vni;
      destination = record { prefix = net };
      next_hop = hop_of hop_ip hop_type ports.0 ports.1;
    }))

module _ {Net : Type 0} ⦃text : AddrText Net⦄ where
  -- The loop over `server`, with `add_peer`'s parser: an error is logged.
  unfoldable pub add_peers : Turns Net → List (Text × ℕ) → Node Net → Node Net
  unfolding add_peer
  add_peers others [] n = n
  add_peers others ((server_addr, handle) ∷ servers) n =
      let m = others (length servers) n in
      elim (text.socket_from_str server_addr) [
        | none ↦ add_peers others servers m
        | some addr ↦ add_peers others servers (add_peer addr handle m).1
      ]

  unfoldable pub read_parts : List Text → Result CommandError (Announcement Net)
  unfolding read_next_hop read_unsigned
  read_parts parts =
      if ltb (length parts) 3 || ltb 6 (length parts)
      then err malformed_announcement
      else ok_or invalid_vni (read_unsigned u32_max (part 0 parts)) >>= (λ vni.
        ok_or invalid_prefix (text.net_from_str (part 1 parts)) >>= (λ net.
          ok_or invalid_hop (text.addr_from_str (part 2 parts))
          >>= (λ hop_ip. read_next_hop parts vni net hop_ip)))

  -- One round of the loop over `announce`, up to the call of `announce_route`.
  unfoldable pub read_announcement : Text → Result CommandError (Announcement Net)
  unfolding read_parts split
  read_announcement ann_str = read_parts (split b'#' ann_str)

module _ {Net : Type 0} ⦃i : Ipnet Net⦄ ⦃prost : Prost⦄ ⦃text : AddrText Net⦄ where
  -- The loop over `announce`: an error ends the program.
  unfoldable pub announce_all : Turns Net → List Text → Node Net → SetUp × Node Net
  announce_all others [] n = (ready, n)
  announce_all others (ann_str ∷ rest) n =
      let m = others (length rest) n in
      elim (read_announcement ann_str) [
        | err e ↦ (invalid_argument e, m)
        | ok a ↦ go_on (announce_route a.vni a.destination a.next_hop m) (announce_all others rest)
      ]
