-- ===== src/Server.antt =====
-- server.go: the state of the beacon. Handlers are functions of the state, the datagram and the
-- time; `now` stands for each time.Now() of one handler. Logging is left out.
pub mod Punch
pub mod Discover
pub mod Relay
pub mod Worker
pub mod Gossip
pub mod Reap
pub mod Packet
pub mod Config
pub mod Registry
pub mod Listen
pub mod Calls
pub mod Life
pub mod Delivery
pub mod Introduction
use beacon.Base.{
  ℕ, zero, suc, ◌+◌, ◌*◌, ◌/◌, ◌%◌, ◌^◌, Bool, true, false, not, Option, none, some, List, [], ◌∷◌,
  ◌++◌, replicate, ltb, if◌then◌else◌, Assoc, max, nat_key,
}
use beacon.Net.{UdpAddr}
use beacon.NodeMap.{NodeMap, new_node_map, snapshot}
use beacon.RateLimit.{
  DiscoverRateLimiter, PunchRateLimiter, RelayRateLimiter, new_discover_rate_limiter,
  new_punch_rate_limiter, new_relay_rate_limiter, second,
}
use beacon.Wss.{WssServer}

-- The message types of common/protocol, which is not part of the repository.
pub record Protocol : Type 0 where
  pub discover : ℕ
  pub discover_ex : ℕ
  pub discover_reply : ℕ
  pub punch_request : ℕ
  pub punch_command : ℕ
  pub relay : ℕ
  pub relay_deliver : ℕ
  pub relay_deliver_dest : ℕ
  pub sync : ℕ

pub record RelayJob : Type 0 where
  pub sender_id : ℕ
  pub dest_id : ℕ
  pub payload : List ℕ

-- a datagram handed to the socket, with its destination
abbrev pub Datagram : Type 0
Datagram = UdpAddr × List ℕ

-- the switches that a breaker manager may open
pub data Switch : Type 0 where
  beacon_discover beacon_punch beacon_relay : Switch

pub record Server : Type 0 where
  pub nodes : NodeMap
  -- sync.Map used as a set: the ids that asked for destination-carrying delivery
  pub dst_nodes : Assoc ℕ (Unit {0})
  -- relayChs, and the capacity of each
  pub relay_queues : List (List RelayJob)
  pub queue_cap : ℕ
  pub relay_forwarded : ℕ
  pub relay_dropped : ℕ
  pub relay_not_found : ℕ
  pub punch_rl : PunchRateLimiter
  pub last_punch_time : ℕ
  pub punch_whitelist : Assoc (List ℕ) (Unit {0})
  pub punch_whitelist_all : Bool
  pub require_punch_token : Bool
  pub node_pub_keys : Assoc ℕ (List ℕ)
  pub breaker_allow : Option (Switch → Bool)
  pub relay_rl : RelayRateLimiter
  pub discover_rl : DiscoverRateLimiter
  pub beacon_id : ℕ
  pub peers : List UdpAddr
  pub peer_nodes : Assoc ℕ UdpAddr
  pub health_ok : Bool
  pub strict_gossip : Bool
  -- keyed by the text of a source address
  pub gossip_seen : Assoc (List ℕ) ℕ
  pub registry_addr : List ℕ
  pub advertise_addr : List ℕ
  pub registry_admin_token : List ℕ
  pub wss_server : Option WssServer
  pub auth_key_lookup : Option (ℕ → Option (List ℕ))
  -- s.conn is not nil
  pub listening : Bool
  -- what was handed to the socket, oldest first
  pub sent : List Datagram

abbrev pub relay_queue_size : ℕ
relay_queue_size = 524288

abbrev pub max_relay_payload : ℕ
max_relay_payload = 65535

abbrev pub max_beacon_nodes : ℕ
max_beacon_nodes = 500_000

abbrev pub beacon_node_ttl : ℕ
beacon_node_ttl = 10 * 60 * second

abbrev pub max_punch_per_second : ℕ
max_punch_per_second = 10

abbrev pub punch_per_source_interval : ℕ
punch_per_source_interval = second

abbrev pub punch_rate_cleanup_interval : ℕ
punch_rate_cleanup_interval = 5 * 60 * second

abbrev pub discover_min_interval : ℕ
discover_min_interval = 30 * second

abbrev pub max_relays_per_source_per_second : ℕ
max_relays_per_source_per_second = 4000

abbrev pub relay_source_cleanup_interval : ℕ
relay_source_cleanup_interval = 5 * 60 * second

-- ed25519.PublicKeySize and SignatureSize
abbrev pub public_key_size : ℕ
public_key_size = 32

abbrev pub signature_size : ℕ
signature_size = 64

-- atomic.Uint64.Add
abbrev pub add_uint64 : ℕ → ℕ → ℕ
add_uint64 a b = (a + b) % 2 ^ 64

-- relayWorkerCount, from runtime.NumCPU
unfoldable pub relay_worker_count : ℕ → ℕ
relay_worker_count num_cpu = if ltb num_cpu 8 then 8 else num_cpu

unfoldable pub queue_capacity : ℕ → ℕ
queue_capacity n = let per = relay_queue_size / n in if ltb per 1 then 1 else per

-- The peers that resolve; `resolve` stands for net.ResolveUDPAddr.
unfoldable pub resolve_peers : (List ℕ → Option UdpAddr) → List (List ℕ) → List UdpAddr
resolve_peers resolve [] = []
resolve_peers resolve (p ∷ ps) = elim (resolve p) [
  | some addr ↦ addr ∷ resolve_peers resolve ps
  | none ↦ resolve_peers resolve ps
]

unfoldable pub new_with_peers : (List ℕ → Option UdpAddr) → ℕ → ℕ → List (List ℕ) → Server
new_with_peers resolve num_cpu beacon_id peers = record {
  nodes = new_node_map;
  dst_nodes = [];
  relay_queues = replicate (relay_worker_count num_cpu) [];
  queue_cap = queue_capacity (relay_worker_count num_cpu);
  relay_forwarded = 0;
  relay_dropped = 0;
  relay_not_found = 0;
  punch_rl = new_punch_rate_limiter;
  last_punch_time = 0;
  punch_whitelist = [];
  punch_whitelist_all = false;
  require_punch_token = false;
  node_pub_keys = [];
  breaker_allow = none;
  relay_rl = new_relay_rate_limiter;
  discover_rl = new_discover_rate_limiter;
  beacon_id = beacon_id;
  peers = resolve_peers resolve peers;
  peer_nodes = [];
  health_ok = true;
  strict_gossip = false;
  gossip_seen = [];
  registry_addr = [];
  advertise_addr = [];
  registry_admin_token = [];
  wss_server = none;
  auth_key_lookup = none;
  listening = false;
  sent = [];
}

-- breakerOpen: without a callback every switch is closed.
unfoldable pub breaker_open : Server → Switch → Bool
breaker_open s name = elim s.breaker_allow [ none ↦ false | some allow ↦ not (allow name) ]

-- conn.WriteToUDP
unfoldable pub write_to_udp : Server → List ℕ → UdpAddr → Server
write_to_udp s msg addr = record s { sent = s.sent ++ (addr, msg) ∷ [] }

-- New: a standalone beacon
unfoldable pub new_standalone : (List ℕ → Option UdpAddr) → ℕ → Server
new_standalone resolve num_cpu = new_with_peers resolve num_cpu 0 []
