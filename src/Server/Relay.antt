-- ===== src/Server/Relay.antt =====
-- server.go: dispatchRelay and relayQueueFor. The pooled payload buffers are left out: a job holds
-- its own copy of the payload.
pub mod Laws
pub mod Order
use beacon.Base.{
  ℕ, ◌%◌, Bool, true, false, not, ◌||◌, ◌&&◌, Option, none, some, List, [], ◌∷◌, ◌++◌, ltb, leb,
  if◌then◌else◌, length, get_or, set, drop, has, is_some, nat_key,
}
use beacon.Wire.{uint32}
use beacon.NodeMap.{get}
use beacon.RateLimit.{RelaySourceKey, relay_allow}
use beacon.Wss.{WssServer, is_connected}
use beacon.Server.{
  Server, RelayJob, beacon_relay, breaker_open, add_uint64, max_relay_payload,
  max_relays_per_source_per_second,
}

-- s.wssServer != nil && s.wssServer.IsConnected(id)
unfoldable pub wss_connected : Server → ℕ → Bool
wss_connected s id = elim s.wss_server [ some w ↦ is_connected w id | none ↦ false ]

-- the index of relayQueueFor
unfoldable pub queue_index : Server → ℕ → ℕ
queue_index s dest = dest % length s.relay_queues

unfoldable pub relay_queue_for : Server → ℕ → List RelayJob
relay_queue_for s dest = get_or s.relay_queues (queue_index s dest) []

-- the presence test before a payload is copied
unfoldable pub is_known : Server → ℕ → Bool
is_known s dest = is_some (get s.nodes dest) || has dest s.peer_nodes || wss_connected s dest

-- the non-blocking send on the queue's channel
unfoldable pub enqueue : Server → RelayJob → Server
enqueue s job =
    let q = relay_queue_for s job.dest_id in
    if ltb (length q) s.queue_cap
    then record s { relay_queues = set s.relay_queues (queue_index s job.dest_id) (q ++ job ∷ []) }
    else record s { relay_dropped = add_uint64 s.relay_dropped 1 }

-- the receive of a worker from queue i
unfoldable pub dequeue : Server → ℕ → Server × Option RelayJob
dequeue s i = elim (get_or s.relay_queues i []) [
  | [] ↦ (s, none)
  | job ∷ rest ↦ (record s { relay_queues = set s.relay_queues i rest }, some job)
]

-- the header and the payload of a relay frame of at least eight bytes
unfoldable pub relay_job : List ℕ → RelayJob
relay_job d = record { sender_id = uint32 d; dest_id = uint32 (drop 4 d); payload = drop 8 d }

unfoldable pub dispatch_relay : Server → List ℕ → RelaySourceKey → ℕ → Server
dispatch_relay s d src now =
    if ltb (length d) 8
    then s
    else if breaker_open s beacon_relay
    then record s { relay_dropped = add_uint64 s.relay_dropped 1 }
    else let job = relay_job d in
      if not (is_known s job.dest_id)
      then record s { relay_not_found = add_uint64 s.relay_not_found 1 }
      else let r = relay_allow s.relay_rl src now max_relays_per_source_per_second in
        let s' = record s { relay_rl = r.0 } in
        if not r.1
        then s'
        else if ltb max_relay_payload (length job.payload)
        then s'
        else enqueue s' job
