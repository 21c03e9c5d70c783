-- ===== src/Examples/Instances.antt =====
-- The laws of an instance's operations and of its distributor at a concrete instance.
use mathlib.Core.Bool.{decide}
use metalbond_rs.HashMap.{get, contains}
use metalbond_rs.HashMap.Sets.{IsNodup}
use metalbond_rs.Types.{
  UpdateAction, InternalUpdate, ConnectionDirection, default_config, as_secs, peer_key_eq,
  socket_addr_eq, destination_discrete, ip_addr_discrete, next_hop_discrete, hop_type_discrete,
  peer_key_discrete, socket_addr_discrete,
}
use metalbond_rs.RouteTable.{RouteTable, next_hop_exists, remove_routes_from_peer, add_next_hop}
use metalbond_rs.State.{Peer, new_peer, new_state, route_update_buffer_size}
use metalbond_rs.Peer.{send_update, send_message}
use metalbond_rs.MetalBond.{Node, blocked, remove_peer}
use metalbond_rs.MetalBond.Removal.{next_hop_exists-remove_peer, remove_peer-blocked}
use metalbond_rs.MetalBond.Connections.{
  Signal, handler_ended, serving, delaying, stopped, stop, manage, IsRetry, manage-IsRetry,
}
use metalbond_rs.MetalBond.Distributor.{distribute}
use metalbond_rs.MetalBond.Server.{IsPeerMap}
use metalbond_rs.MetalBond.Choice.{is_subscriber, is_barred}
use metalbond_rs.MetalBond.Delivery.{accepts, message_of, delivered, distribute-tx_queue}
use metalbond_rs.Examples.Fixtures.{
  Prefix, prefixes, prefix_discrete, bytes, alice, bob, subnet, host, gateway, table,
  table-IsTidyTable,
}
use metalbond_rs.Common.{
  ℕ, zero, suc, ◌+◌, ◌≤◌, ◌<◌, ℕ_discrete, true, false, not, ◌&&◌, some, none, List, [], ◌∷◌, ◌++◌,
  length, nat_beq, ◌==◌, ==_iff, if◌then◌else◌, ◌≡◌, refl, ap, arith, nat_eq,
}

-- A server with Alice and Bob connected and subscribed.
abbrev peer_of : ℕ → Peer
peer_of k =
    new_peer default_config (if nat_beq k 0 then alice else bob) ConnectionDirection.incoming

abbrev pub server : Node Prefix
server = record {
  mb = record (new_state {Net = Prefix} default_config true) {
    route_table = table;
    peers = (alice, 0) ∷ (bob, 1) ∷ [];
    subscribers = (7, alice ∷ bob ∷ []) ∷ [];
  };
  heap = peer_of;
  client_calls = [];
}

abbrev pub client : Node Prefix
client = record {
  mb = record (new_state {Net = Prefix} default_config false) { my_subscriptions = 7 ∷ [] };
  heap = peer_of;
  client_calls = [];
}

abbrev news : InternalUpdate Prefix
news = record {
  action = UpdateAction.add;
  vni = 7;
  destination = host;
  next_hop = gateway;
  source_peer = some alice;
}

pub no_twice : IsNodup (alice ∷ bob ∷ [])
unfolding socket_addr_discrete ℕ_discrete decide contains
no_twice = (refl, (refl, tt))

pub server-IsPeerMap : IsPeerMap server
unfolding new_state new_peer get
server-IsPeerMap addr k found = ground (arith, found, ==_iff alice addr, ==_iff bob addr)

distribute-tx_queue_example :
    ((distribute news server).heap 1).tx_queue
    ≡ (server.heap 1).tx_queue
      ++ delivered
          (is_subscriber 1 (alice ∷ bob ∷ []) server
            && (not (is_barred (some alice) gateway.hop_type 1 server) && accepts (server.heap 1)))
          news
unfolding get
distribute-tx_queue_example =
    distribute-tx_queue news (alice ∷ bob ∷ []) 1 server refl server-IsPeerMap no_twice

-- The message is queued.
test_told : ((distribute news server).heap 1).tx_queue ≡ message_of news ∷ []
unfolding distribute send_update send_message new_state new_peer get decide socket_addr_discrete
    ℕ_discrete hop_type_discrete peer_key_discrete
test_told = refl

next_hop_exists-remove_peer_example :
    next_hop_exists (remove_peer (some 0) alice server).1.mb.route_table 7 subnet gateway none
    ≡ (not (some alice == none) && next_hop_exists server.mb.route_table 7 subnet gateway none)
next_hop_exists-remove_peer_example =
    next_hop_exists-remove_peer (some 0) alice server 7 subnet gateway none table-IsTidyTable

unfoldable copies : {A : Type 0} → ℕ → A → List A
copies zero a = []
copies (suc n) a = a ∷ copies n a

length-copies : {A : Type 0} (n : ℕ) (a : A) → length (copies n a) ≡ n
unfolding copies
length-copies zero a = refl
length-copies (suc n) a = ap suc (length-copies n a)

-- The server while its distributor is behind by a full channel.
abbrev behind : Node Prefix
behind = record server { mb = record (server.mb) { route_updates = copies 1024 news } }

full : length behind.mb.route_updates ≤ route_update_buffer_size
full = omega (arith, length-copies 1024 news)

-- A table with a second route of Alice.
abbrev longer : RouteTable Prefix
longer = (add_next_hop table 7 host gateway (some alice)).0

abbrev crowded : Node Prefix
crowded = record behind { mb = record (behind.mb) { route_table = longer } }

two_routes : length (remove_routes_from_peer longer alice).1 ≡ 2
unfolding remove_routes_from_peer add_next_hop destination_discrete prefix_discrete ip_addr_discrete
    next_hop_discrete hop_type_discrete peer_key_discrete socket_addr_discrete ℕ_discrete decide
two_routes = refl

too_many :
    route_update_buffer_size + 1
    < length crowded.mb.route_updates
      + length (remove_routes_from_peer crowded.mb.route_table alice).1
too_many = omega (arith, length-copies 1024 news, two_routes)

remove_peer-blocked_example : (remove_peer (some 1) alice crowded).0 ≡ blocked
unfolding new_state
remove_peer-blocked_example = remove_peer-blocked (some 1) alice crowded refl full too_many

ordered : as_secs default_config.retry_interval_min ≤ as_secs default_config.retry_interval_max
unfolding default_config
ordered = omega arith

manage-IsRetry_example :
    IsRetry default_config (manage default_config alice (handler_ended 3) serving server).0
manage-IsRetry_example = manage-IsRetry default_config alice 3 server ordered

stops : (manage default_config alice Signal.shutdown (delaying 0) server).0 ≡ stopped
unfolding manage stop
stops = refl
