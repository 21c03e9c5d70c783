-- ===== src/State.antt =====
-- `MetalBondState` of metalbond.rs and `Peer` of peer.rs, and the actions of a peer's task: functions
-- of the two with the task's hold on the lock of the shared state. What other tasks do between two
-- actions is not part of an action.
pub mod Actions
pub mod Runs
use metalbond_rs.HashMap.{HashMap, HashSet}
use metalbond_rs.Types.{
  Vni, SocketAddr, Config, ConnectionDirection, ConnectionState, connecting, InternalUpdate,
}
use metalbond_rs.RouteTable.{RouteTable}
use metalbond_rs.Codec.{GeneratedMessage}
use metalbond_rs.Common.{ℕ, Bool, true, false, Option, none, List, []}

-- How many messages to a peer can wait in its channel.
abbrev pub peer_tx_buffer_size : ℕ
peer_tx_buffer_size = 256

-- How many updates can wait for the distributor.
abbrev pub route_update_buffer_size : ℕ
route_update_buffer_size = 1024

-- `tx_queue` is the content of the channel behind `tx_sender`, and `tx_open` says that its receiver
-- lives; `shutdown_permit` is the permit that `notify_one` stores in `shutdown_signal`.
pub record Peer : Type 0 where
  pub config : Config
  pub remote_addr : SocketAddr
  pub local_addr : Option SocketAddr
  pub direction : ConnectionDirection
  pub is_remote_server : Bool
  pub state : ConnectionState
  pub subscribed_vnis_remote : HashSet Vni
  pub tx_queue : List GeneratedMessage
  pub tx_open : Bool
  pub shutdown_permit : Bool

-- `Peer::new`
unfoldable pub new_peer : Config → SocketAddr → ConnectionDirection → Peer
new_peer config remote_addr direction = record {
  config = config;
  remote_addr = remote_addr;
  local_addr = none;
  direction = direction;
  is_remote_server = false;
  state = connecting;
  subscribed_vnis_remote = [];
  tx_queue = [];
  tx_open = true;
  shutdown_permit = false;
}

-- `peers` holds a number for each `Arc<Peer>`; `route_updates` is the content of the channel behind
-- `route_update_tx`, oldest first, and `route_updates_open` says that its receiver lives.
pub record MetalBondState (Net : Type 0) : Type 0 where
  pub config : Config
  pub route_table : RouteTable Net
  pub my_announcements : RouteTable Net
  pub my_subscriptions : HashSet Vni
  pub subscribers : HashMap Vni (HashSet SocketAddr)
  pub peers : HashMap SocketAddr ℕ
  pub is_server : Bool
  pub route_updates : List (InternalUpdate Net)
  pub route_updates_open : Bool
  pub peer_tasks : HashMap SocketAddr ℕ

-- The state of `MetalBond::new`.
unfoldable pub new_state : {Net : Type 0} → Config → Bool → MetalBondState Net
new_state config is_server = record {
  config = config;
  route_table = [];
  my_announcements = [];
  my_subscriptions = [];
  subscribers = [];
  peers = [];
  is_server = is_server;
  route_updates = [];
  route_updates_open = true;
  peer_tasks = [];
}
