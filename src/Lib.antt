-- ===== src/Lib.antt =====
-- The beacon: a UDP server that tells nodes their public endpoints (discover), coordinates hole
-- punching between them (punch), and relays their frames when no direct path exists (relay). Beacons
-- of a mesh gossip which nodes they have, and forward frames to each other. A WSS bridge carries the
-- same messages for nodes without UDP.
--
-- Parts and files:
-- - Base: shared helpers. Boolean tests, lists over the native numbers, keys, Go's maps as association
--   lists (Maps), and arrays of map shards with a function that says where a key is kept (Shards).
-- - Net, Wire: what the beacon uses of Go's net (addresses as bytes, their forms, equality and text)
--   and of encoding/binary.
-- - NodeMap: nodes_shard.go, the node table (nodeMap.Upsert is upsert, and so on). Walk has ReapStale
--   and IDs as they run beside other goroutines, one shard after the other.
-- - RateLimit: ratelimit_shard.go, the three limiters. `allow_after` and `sweep_before` are what the
--   discover and punch limiters have in common.
-- - Wss: wss/server.go, the peers of the bridge. A peer is an index into an arena, since the map of
--   peers and the read loops share it. Its children: Auth (runAuth of the bridge and of the daemon),
--   Admit (handleUpgrade with runAuth), Upgrading (its steps beside other upgrades),
--   Reading (peerReadLoop beside the other goroutines), Metrics (Metrics
--   and Addr), Config (New and Dial), and Transport, the daemon's side in
--   wss/internal/daemonwss/wss.go. There the supervisor, Close, Send and Recv are goroutines: a state
--   has the place where each stands, an event is a step of one of them (supervise_step, close_step,
--   receive, send_end), and a run is any list of events.
-- - Server: server.go, the state, its constants and NewWithPeers. Its children are named for the
--   handlers: Discover (handleDiscover), Punch (handlePunchRequest, SendPunchCommand, NotifyNode),
--   Relay (dispatchRelay, relayQueueFor), Worker (relayWorkerLoop, and in Resuming relayWorker),
--   Gossip (sendGossip, handleSync, sweepStaleGossip), Reap (reapStaleNodes), Packet
--   (handlePacketFrom, the bridge's OnFrame), Config (setters, accessors, the health handler),
--   Registry (registryDiscover), Listen (ListenAndServe, the read loop, the tickers, Close;
--   recover.go and the two reuseport files). Life puts them together: a running beacon is a
--   sequence of steps, each a datagram, a round of a worker, a reap, a gossip round, or a call
--   (Calls: the setters, NotifyNode, SendPunchCommand, EnableCompatWSS and what else changes the
--   state beside the handlers), in any interleaving. Delivery follows a frame through dispatch,
--   queue and worker, of one beacon, of two, and over the bridge, also where the bridge fails;
--   Introduction follows a discover and a punch request.
-- - Command: cmd/beacon/main.go, from the flags and the environment to the server that starts.
-- - Tests: a small beacon, concrete runs of it, and each theorem at one input.
--
-- How the code is modelled: a handler is a function of the state, the datagram and the time, and it
-- returns the new state. A field `sent` lists what was handed to the sockets. Times are nanoseconds
-- on the native naturals, seconds in the handshake, and milliseconds in the backoff; counters of
-- fixed width wrap around with `% 2 ^ w`. A map of Go is an association list, read by key. A lock
-- that is held throughout an operation makes it one step.
--
-- Parameters: the message types of the protocol package (a record Protocol), ed25519.Verify, address
-- resolution, the sockets of a worker (Sockets: where they are bound and what they send), the outcome
-- of a websocket write, read or dial, JSON, base64 and hex (the records Codec and RegistryCodec), the
-- configuration file.
-- The hypotheses on them: a batch send reports no more datagrams than it was given; for the handshake
-- of an honest daemon, a message is read back as it was written (IsCodec), and its signatures verify;
-- for the return of Close, a read, a sleep or a dial comes to some answer, since Close cancels their
-- context.
--
-- Bounds and fuel: decimal and hexadecimal numbers have 20 digits of fuel, which is enough below
-- 10 ^ 20, and so for every 64-bit number. No other definition has fuel.
--
-- Not modelled: the system calls on sockets, the buffer pools (a job and a frame hold their own bytes),
-- logging, the start of the goroutines, the HTTP servers of the bridge and of the health endpoint, the
-- dial of a websocket.
pub mod Base
pub mod Net
pub mod Wire
pub mod NodeMap
pub mod RateLimit
pub mod Wss
pub mod Server
pub mod Command
mod Tests
