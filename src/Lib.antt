-- ===== src/Lib.antt =====
-- Models of quic_diver: a tunnel whose client captures flows, gives them a label by its rules, and
-- sends them to a node; the nodes pass a flow on by its label until it leaves the network.
--
-- The parts, the code, and how they meet:
--   Base      shared helpers: tests on the native numbers, lists, maps with a decidable key, texts
--             as lists of bytes, and `netip` addresses as 32-bit and 128-bit numbers.
--   Ring      the cursor that both address pools move around, as a scan over numbers.
--   Nat46     internal/client/nat46/table.go. `Table` has the maps `by_real` and `by_fake`; `Map`
--             is `map_addr`, `Lookup` is `lookup`, the loop of `alloc` is `alloc_loop`.
--   FakeIp    internal/client/fakeip/pool.go. `Pool` has the maps `by_domain`, `by_fake` and
--             `by_real`; `Assign` is `assign`, in the order of its branches; the readers `FakeOf`,
--             `Domain`, `Real`, `DomainOf`, `RealAddr`, `Contains` are `fake_of`, `domain`, `real`,
--             `domain_of`, `real_addr`, `contains_fake`.
--   Rules     internal/client/routing/rules.go, geo.go and parse.go: reading and
--             matching, the sort by priority, the edits of a rule set, the geo categories and the
--             label of an outbound.
--   Conntrack internal/client/routing/conntrack.go: the label of a flow, kept while packets come;
--             it asks the classifier of Rules once. The map is a list of pairs.
--   Label     internal/routing/routing.go: the label of a route, read and written, and the decision
--             of a node about it. The client writes what the node reads.
--   Chain     internal/server/route_decide.go, internal/server/chain/chain.go and the start of
--             serveConnect in internal/server/node.go: what a node does with a request, and a run
--             of requests through a network of nodes.
--   Balancer  internal/server/balance.go: the choice of a node for a label auto:<tag>; `Pick` is
--             `pick`, `bestLocked` is `best_locked`. Chain asks it through `pick_node`.
--   DnsCache  internal/server/dns/cache.go: the cache of answers, the list and the map of Go as a
--             list of keys and a map of entries.
--   Quota     internal/server/db/quota.go: the row of a client, and what the queries leave in it.
--   Health    internal/client/supervisor/health.go: the loop of watchPath, a round as a step.
--             Health/Migration is the loop of `Run` in supervisor.go, and `repair`.
--   Notify    internal/client/notify/notify.go: the notifications, newest first, without the sinks.
--   Nat       internal/client/nat/nat.go: packets as lists of bytes, the rewriting of addresses and
--             the arithmetic of the checksums.
--   Store     internal/server/db: the tables of a node's database, as lists of rows by their keys.
--             Tokens, Addresses (`AllocateAddress`, `firstFree`), Devices, Sessions, Reports
--             (`ReportNodeTraffic`), Nodes, Epochs (`Promote`, `AdoptCluster`), Carry
--             (`carryLocal`) and Quotas (`QuotaOf`); a method has its name in snake case.
--   Auth      internal/server/auth: the session of a connection, and the token of a request.
--   Admission internal/server/node.go: `authorize`, and the handlers of the paths of authorization
--             and of a tunnel, of a plain CONNECT, of a flow over UDP (connectudp.go), and the start
--             of the services for the node's own clients. It asks Store and Chain, and changes the
--             session of Auth.
--   Accounting internal/server/accounting.go: `beginSession` in the handler of a tunnel, and the loop
--             of `run`, which brings the bytes of a tunnel to Store.
--   Heartbeat internal/server/heartbeat.go: what a node reports to its master, `report` and `beat`,
--             and the handler of the master, `serve_heartbeat`.
--   Replica   internal/server/replica.go: the database that a master hands out, `serve_replica`, and
--             a node that takes it over, `pull`, with what `carryLocal` keeps of its own.
--   Links     internal/server/links.go: the connections of a node to its neighbours. `Dialer` is
--             `start_dial` and `end_dial`, before and behind the dial, which is outside of the lock;
--             `pickByCategory` is `pick_by_category`, and asks Balancer.
--   Exits     internal/server/exits.go: the list of exits, `exitsOf`, whose labels auto:<tag> Links
--             and Balancer later resolve.
--   Backup    internal/server/client_config.go: the settings that a client keeps at a node.
--
-- How the models are made. A method that changes its receiver returns the new state beside its
-- result; Go's two results with a Boolean are an Option. `time.Now` is an argument, a number of
-- nanoseconds, and one operation reads the clock once. A statement of SQL is what it does to
-- the rows; a transaction that fails leaves the database as it was. Maps are functions into
-- Option, with a deletion and an update by a decidable key; those that are counted or gone
-- through, as the flow table, the links and the tables of SQL, are lists of pairs. The zero
-- time is `none`, and 0 in the tables, whose columns keep it so.
--
-- Bounds and fuel. `alloc_loop` has as many rounds as the pool has numbers, which is the bound
-- of the loop in the source. `evict` has a round for every element of the list. `fold_loop` has
-- two rounds, enough for a sum that fits a uint32. `first_free_loop` has one round more than
-- the pool has addresses. `travel` has fuel for the nodes a flow may visit; more than the hops
-- of its request is enough. Times, counters and byte totals are numbers without a bound: an
-- int64 of nanoseconds or bytes does not overflow in practice. A pool's numbers are below 2 ^
-- 32; the cursor of a pool that ends at 255.255.255.255 would wrap around in the source, and a
-- pool that is made by default does not.
--
-- What runs at once. A method that holds a mutex, or that is one statement or one transaction of
-- SQL, is one step. `Promote` and `AdoptCluster` (Store/Epochs/Rises) and `OpenSession`
-- (Store/Sessions/Limit) are two statements each, with nothing that holds the others off: there a
-- statement is a step, and the steps of several calls mix. `pull` waits for the network between the
-- epoch it reads and the swap of the database, and its argument `meanwhile` is what others do to the
-- database in between. `Dialer` dials outside of its lock, and is two steps. The functions `promote`,
-- `adopt_cluster` and `open_session` are such calls with nothing in between, for the handlers that
-- are looked at alone.
--
-- Not modelled: logging, HTTP/3 and QUIC streams, SQLite's
-- own failures and files, the capture of packets, DNS messages, the user interface and the
-- operating system's settings. Letters are folded for ASCII only.
pub mod Base
pub mod Ring
pub mod Store
pub mod Nat46
pub mod FakeIp
pub mod Rules
pub mod Conntrack
pub mod Label
pub mod Chain
pub mod Balancer
pub mod Nat
pub mod Quota
pub mod DnsCache
pub mod Health
pub mod Notify
pub mod Auth
pub mod Admission
pub mod Accounting
pub mod Heartbeat
pub mod Replica
pub mod Links
pub mod Exits
pub mod Backup
