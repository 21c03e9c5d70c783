-- ===== src/Command/Programs.antt =====
-- The two programs of main.rs, up to the wait for their end: the choice of the client of the operating
-- system, and the set-up of a client and of a server. The page of http_server.rs, which only reads
-- the shared state, is left out.
use metalbond_rs.Command.Readers.{Text, AddrText}
use metalbond_rs.Command.{
  CommandError, Turns, vni_table_map, with_keepalive, SetUp, ready, add_peers, subscribe_all,
  announce_all,
}
use metalbond_rs.Client.{Client, dummy_client, netlink_client}
use metalbond_rs.Netlink.Requests.{Rtnetlink, NetlinkError}
use metalbond_rs.Netlink.{NetlinkClientConfig, new_client}
use metalbond_rs.Types.{Vni, Ipnet, Config}
use metalbond_rs.Wire.{Prost}
use metalbond_rs.State.{Peer, new_state}
use metalbond_rs.State.Actions.{Done}
use metalbond_rs.MetalBond.{Outcome, Node}
use metalbond_rs.MetalBond.Server.{start_server}
use metalbond_rs.Common.{ℕ, Bool, true, false, Option, none, some, List, [], ◌∷◌, Result, ok, err}

-- Why there is no client of the operating system.
pub data ClientError : Type 0 where
  no_tun : ClientError
  bad_mapping : CommandError → ClientError
  no_client : NetlinkError → ClientError

module _ {Net Other K : Type 0} ⦃i : Ipnet Net⦄ where
  -- `NetlinkClient::new` with the mapping that was read.
  unfoldable pub open_client :
      Rtnetlink Other K → NetlinkClientConfig → K → Result ClientError (Client Net K) × K
  unfolding new_client netlink_client
  open_client handle nl_config k =
      let (result, k') = new_client handle nl_config k in
      elim result [ ok client ↦ (ok (netlink_client client), k') | err e ↦ (err (no_client e), k') ]

  -- The choice of `os_client`.
  unfoldable pub os_client :
      Rtnetlink Other K → List Text → Option Text → Bool → K → Result ClientError (Client Net K) × K
  unfolding dummy_client vni_table_map open_client
  os_client handle [] tun ipv4_only k = (ok dummy_client, k)
  os_client handle (mapping ∷ mappings) none ipv4_only k = (err no_tun, k)
  os_client handle (mapping ∷ mappings) (some tun_name) ipv4_only k =
      elim (vni_table_map (mapping ∷ mappings) []) [
        | err e ↦ (err (bad_mapping e), k)
        | ok tables ↦
            open_client handle
              (record { vni_table_map = tables; link_name = tun_name; ipv4_only = ipv4_only }) k
      ]

-- `MetalBond::new`; no number of the heap belongs to a peer yet.
unfoldable pub new_metalbond : {Net : Type 0} → (ℕ → Peer) → Config → Bool → Node Net
unfolding new_state
new_metalbond heap config is_server = record {
  mb = new_state config is_server;
  heap = heap;
  client_calls = [];
}

-- The arguments of a client: the task of a server's connection gets the number beside its address.
pub record ClientArgs : Type 0 where
  pub server : List (Text × ℕ)
  pub subscribe : List Vni
  pub announce : List Text
  pub keepalive : Option ℕ

-- What the other tasks do before each operation of the three loops.
pub record Meanwhile (Net : Type 0) : Type 0 where
  pub adding : Turns Net
  pub subscribing : Turns Net
  pub announcing : Turns Net

-- The next loop of a set-up, unless the one before has ended the program.
abbrev pub next_loop :
    {Net : Type 0} → SetUp × Node Net → (Node Net → SetUp × Node Net) → SetUp × Node Net
next_loop (ready, n) next = next n
next_loop (ended, n) next = (ended, n)

module _ {Net : Type 0} ⦃i : Ipnet Net⦄ ⦃prost : Prost⦄ ⦃text : AddrText Net⦄ where
  -- A client between the choice of `os_client`, whose `clear_routes_for_vni` succeeds as `clears`
  -- says, and the wait for its end; the turn before the first subscription has the five seconds' sleep.
  unfoldable pub set_up_client :
      Meanwhile Net → (Vni → Bool) → ClientArgs → (ℕ → Peer) → SetUp × Node Net
  unfolding with_keepalive new_metalbond add_peers subscribe_all announce_all
  set_up_client others clears args heap =
      next_loop
        (subscribe_all others.subscribing clears args.subscribe (
          add_peers others.adding args.server
            (new_metalbond heap (with_keepalive args.keepalive) false)))
        (announce_all others.announcing args.announce)

-- A server; `bound` says whether the address can be bound.
unfoldable pub set_up_server :
    {Net : Type 0} → Bool → Option ℕ → (ℕ → Peer) → Outcome Done × Node Net
unfolding with_keepalive new_metalbond start_server
set_up_server bound keepalive heap =
    let n = new_metalbond heap (with_keepalive keepalive) true in (start_server bound n, n)
