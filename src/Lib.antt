-- ===== src/Lib.antt =====
-- metalbond_rs: route distribution between hypervisors. An instance keeps TCP connections to its
-- peers, learns routes (VNI, destination, next hop) from them, subscribes to VNIs and passes updates on.
--
-- The parts of the program and the files that model them, with paths from the repository's root:
--   * src/routetable.rs, the table VNI -> destination -> next hop -> announcing peers: RouteTable. Its
--     children tell the operations by `next_hop_exists` (Routes, Updates), keep the table free of empty
--     maps (Tidy), and treat the departure of a peer (Departure) and the views (Views). A `HashMap` is an
--     association list whose order stands for the order of the iteration: HashMap. `Distinct` is part of
--     the tables' invariant, so a key stands once.
--   * src/types.rs: Types. A prefix is the type `IpNet` of the crate ipnet, a parameter with the
--     operations of `Types.Ipnet`. A `Duration` is a number of nanoseconds.
--   * proto/metalbond.proto and the conversions of src/peer.rs and src/types.rs: Wire. What the build
--     generates from the proto file is the parameter `Wire.Prost`. `as u8`, `as u16` and `as u32` are
--     written as a remainder.
--   * `MetalBondCodec` of src/peer.rs: Codec. `decode` returns what it leaves in the buffer on each of
--     its branches. A sequence of frames is decoded one after the other, up to a number of messages.
--   * `Peer` of src/peer.rs and `MetalBondState` of src/metalbond.rs: State; the functions of `impl Peer`:
--     Peer and Peer/Handlers, under the names of the source. They are actions on a `State.Actions.World`:
--     the peer, the shared state, and the guards of the shared state's lock that the task holds. An
--     action ends `done`, with an error (`fail`), in a wait for the full channel of route updates
--     (`waits`), or in a wait for a lock that the same task holds (`deadlock`); what follows a wait is
--     not part of the action. An action is one step: other tasks act between the steps of a session, as
--     `Peer.Handshake.Elsewhere` says.
--   * `handle_peer` of src/peer.rs: Peer/Session. A round of the `select!` is `step`; its event says
--     which branch completes and with what. A timer is kept by whether it is set; there is no clock, so
--     a timer that is set may fire at any time. Peer/Keeps and Peer/Stable carry a property of worlds
--     through every handler; Peer/Sound, Peer/SoundSession and Peer/Quiet do so for two invariants.
--     Peer/Guards, Peer/GuardsHandlers and Peer/GuardsSession follow the guards of the lock;
--     Peer/Handshake joins two sessions by the messages that they write; Peer/Cleanup, Peer/Arrival,
--     Peer/Learned, Peer/Subscribers, Peer/Leaving and Peer/Timers follow single paths. Peer/Greetings
--     tells what a new connection is to be sent from the tables alone.
--   * `MetalBond` of src/metalbond.rs: MetalBond. A node is the shared state with every `Arc<Peer>` by
--     a number; peers of a map are such numbers, and task handles are numbers too. The calls of the
--     trait of src/client.rs are a list. MetalBond/Operations and MetalBond/Removal treat the
--     operations; during the loop of `remove_peer`, which holds the write lock, the distributor has one
--     turn at most, before any of the sends. MetalBond/Distributor and MetalBond/Delivery treat the
--     round of `route_distributor_task` for one update; MetalBond/Choice tells the peers that it concerns
--     from the maps, the addresses and the roles alone. MetalBond/Connections treats the waits of
--     `manage_single_outgoing_connection`.
--   * src/netlink.rs: Netlink and Netlink/Requests. The crate rtnetlink with the kernel behind it is the
--     parameter `Rtnetlink`: its state is a type `K`, and each request is a function on it that may fail.
--     A dump of routes is taken when it is asked for. What the kernel is relied on for is a hypothesis,
--     `Kernel` of Netlink/Kernels. Table numbers are i32, so an integer `ℤ`; `as u32` and `as u8` are
--     remainders. Netlink/Clearing treats the start, with the routes to delete told by
--     Netlink/Leftovers, and Netlink/Installing the routes that are installed.
--   * src/client.rs: Client. The trait is a record of actions, filled by `dummy_client` and
--     `netlink_client`; the calls that MetalBond makes are performed in their order.
--   * src/main.rs, and `next_hop_type_from_str` of src/pb/mod.rs: Command. It has the reading of an
--     announcement and of a routing table, and the loops of a client, in which the other tasks have a turn
--     before each operation, such as a round of the distributor; Command/Programs has the choice of the
--     operating system's client and the set-up of both programs. Text is a list of character codes; what
--     the standard library and ipnet read addresses with is the parameter `AddrText`. An independent
--     grammar of announcements is in Command/Grammar; Command/Announcing, Command/Tables and
--     Command/SetUps treat what is read and what is set up.
--   * src/http_server.rs: Http. A `BTreeMap` is a list of entries in ascending order, a stable `sort_by`
--     is an insertion sort, and the printing of addresses is the parameter `ShowAddr`. A u32 is printed on
--     a fuel of ten digits, which every u32 has room in. Http/Ords has the orders that the page sorts by,
--     Http/Serialize the maps that serde is given, Http/Handlers the handlers and their responses, over
--     the parameter `Web`.
--   * The tasks of `MetalBond` and the joins of `shutdown`: MetalBond/Shutdown, a step relation on which
--     tasks run, how far the shutdown is, and what the other tasks leave it of the lock. `start_server`,
--     its accept loop and the rest of the server's operations are in MetalBond/Server. MetalBond/Relay
--     joins a handler to the distributor that empties its queue, and MetalBond/Installs the distributor to
--     netlink.rs.
--   * The abstract view of a table, in RouteTable/Refinement, is its answer to each question, which
--     forgets the order of its maps.
--   * Common and State/Runs hold what the parts share; Examples has concrete tables, frames and tasks.
--
-- The parts interact through the shared state: the handlers change the tables of MetalBondState and
-- queue updates for its distributor, the distributor queues messages for the peers, and the connection
-- task drives the handlers and the channel of its peer.
--
-- Not modelled: what askama, serde and axum do with the values of src/http_server.rs; the argument
-- parser of clap, the log and the wait for a signal in src/main.rs; `connection_manager_task` of
-- src/metalbond.rs, whose ticks do nothing; the code that is generated from the proto file; log output;
-- the parsing and printing of addresses, which the standard library and ipnet do. The permit of a
-- `Notify` is a Boolean.
pub mod Common
pub mod HashMap
pub mod Types
pub mod RouteTable
pub mod Wire
pub mod Codec
pub mod State
pub mod Peer
pub mod MetalBond
pub mod Netlink
pub mod Client
pub mod Command
pub mod Http
pub mod Examples
