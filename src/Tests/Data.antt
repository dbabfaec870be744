-- ===== src/Tests/Data.antt =====
-- A beacon with two nodes, and the parameters that the library leaves open, as concrete functions.
use beacon.Base.Shards.{empty_shards, load, store, shard_of}
use beacon.Base.{
  lookup, insert, ℕ, ◌+◌, ◌*◌, Bool, true, false, ◌==◌, none, some, List, [], ◌∷◌, length,
  replicate,
}
use beacon.Net.{UdpAddr, to4, to16, ip_equal}
use beacon.Wire.{uint32}
use beacon.NodeMap.{new_node_map, upsert, node_slot, snapshot, claim_notify, has_node, get}
use beacon.RateLimit.{
  RelaySourceKey, relay_source_for_udp, second, new_discover_rate_limiter, new_punch_rate_limiter,
  new_relay_rate_limiter, discover_allow, allow_after, shard_u32, source_ip, shard_relay_source,
  mix_bytes, relay_allow,
}
use beacon.Server.{
  Server, Protocol, new_with_peers, relay_worker_count, queue_capacity, resolve_peers, breaker_open,
  write_to_udp,
}
use beacon.Server.Discover.{handle_discover, pin_key, update_endpoint, discover_reply, wire_ip}
use beacon.Server.Relay.{
  dispatch_relay, relay_job, is_known, wss_connected, enqueue, dequeue, relay_queue_for,
  queue_index,
}
use beacon.Server.Gossip.{is_known_gossip_peer, any_equal}
use beacon.Server.Packet.{handle_packet_from}
use beacon.Server.Worker.{Sockets}
use beacon.Server.Life.{Step, packet, after_steps, after_step, reachable-IsValid}
use beacon.Server.Packet.Valid.{IsValid}

abbrev pub protocol : Protocol
protocol = record {
  discover = 1;
  discover_ex = 2;
  discover_reply = 3;
  punch_request = 4;
  punch_command = 5;
  relay = 6;
  relay_deliver = 7;
  relay_deliver_dest = 8;
  sync = 9;
}

-- sockets that send every datagram
abbrev pub sockets : Sockets
sockets = record { local_addr = none; write_batch = length; write_ok = λ d. true }

-- a verifier that takes signatures that begin as the key does
abbrev pub verify : List ℕ → List ℕ → List ℕ → Bool
verify (k ∷ key) msg (s ∷ sig) = k == s
verify key msg sig = false

abbrev pub start_time : ℕ
start_time = 1_000 * second

abbrev pub alice : UdpAddr
alice = record { ip = 198 ∷ 51 ∷ 100 ∷ 1 ∷ []; port = 4001; zone = [] }

abbrev pub bob : UdpAddr
bob = record { ip = 198 ∷ 51 ∷ 100 ∷ 2 ∷ []; port = 4002; zone = [] }

abbrev pub other_beacon : UdpAddr
other_beacon = record { ip = 203 ∷ 0 ∷ 113 ∷ 9 ∷ []; port = 9001; zone = [] }

abbrev pub pinned_key : List ℕ
pinned_key = replicate 32 5

-- node 1 with a key at alice's address, node 2 at bob's
abbrev pub steps : List Step
steps =
    packet (1 ∷ 0 ∷ 0 ∷ 0 ∷ 1 ∷ pinned_key) alice 0 start_time
    ∷ packet (1 ∷ 0 ∷ 0 ∷ 0 ∷ 2 ∷ []) bob 0 (start_time + 1)
    ∷ []

abbrev pub fresh : Server
fresh = new_with_peers (λ text. some other_beacon) 1 7 ((b'x' ∷ []) ∷ [])

abbrev pub running : Server
running = after_steps protocol sockets verify fresh steps

pub running-IsValid : IsValid running
running-IsValid =
    reachable-IsValid protocol sockets verify (λ text. some other_beacon) 1 7 ((b'x' ∷ []) ∷ [])
      steps

-- the budget of frames from alice
abbrev pub from_alice : RelaySourceKey
from_alice = relay_source_for_udp (some alice)

-- a frame of node 1 for node 2, with one byte
abbrev pub frame_of : ℕ → List ℕ
frame_of b = 0 ∷ 0 ∷ 0 ∷ 1 ∷ 0 ∷ 0 ∷ 0 ∷ 2 ∷ b ∷ []

-- the definitions that a run computes with
unfoldable pub program : Unit {0}
unfolding after_steps after_step new_with_peers new_node_map relay_worker_count queue_capacity
    resolve_peers new_discover_rate_limiter new_punch_rate_limiter new_relay_rate_limiter
    empty_shards handle_packet_from handle_discover breaker_open pin_key update_endpoint
    discover_allow allow_after discover_reply wire_ip to4 to16 upsert load store shard_of lookup
    insert node_slot shard_u32 snapshot claim_notify has_node uint32 is_known_gossip_peer any_equal
    ip_equal relay_source_for_udp source_ip shard_relay_source mix_bytes dispatch_relay relay_job
    is_known wss_connected get relay_allow enqueue dequeue relay_queue_for queue_index write_to_udp
program = tt
