-- ===== src/Server/Life.antt =====
-- server.go: a beacon over its whole life. Its read loops, its workers, the reaper, the gossip
-- sender, the bridge and the program around it take steps in any interleaving; each step is one
-- handler, one round or one call.
pub mod Strict
use beacon.Base.{
  ℕ, ◌≡◌, inl, inr, refl, Bool, Option, List, [], ◌∷◌, ◌++◌, leb, length, lookup, Unique, nat_key,
  bytes_key, arith, get_or-replicate, length-replicate, Option-cases, if_keep,
}
use beacon.Base.Shards.{empty_shards-IsPlaced}
use beacon.Net.{UdpAddr}
use beacon.NodeMap.Laws.{new_node_map-IsTable}
use beacon.RateLimit.{
  shard_u32, shard_str, shard_relay_source, rate_limit_shards, RelaySourceWindow, source_key,
  new_discover_rate_limiter, new_punch_rate_limiter, new_relay_rate_limiter,
}
use beacon.Server.{
  Server, Protocol, RelayJob, Datagram, max_beacon_nodes, new_with_peers, relay_worker_count,
  write_to_udp,
}
use beacon.Server.Relay.{dequeue}
use beacon.Server.Relay.Order.{serve-IsRouted}
use beacon.Server.Worker.{
  Sockets, Batch, WorkerEvent, relay_batch_cap, worker_round, process_job, carry, flush, shutdown,
  timer_fired, job_ready, to_wss, to_udp, not_found, Route, route,
}
use beacon.Server.Gossip.{send_gossip, write_all}
use beacon.Server.Packet.{handle_packet_from}
use beacon.Server.Packet.Valid.{IsValid, handle_packet_from-IsValid, with_sent}
use beacon.Server.Calls.{Call, after_call}
use beacon.Server.Calls.Valid.{after_call-IsValid}
use beacon.Server.Reap.{reap_stale_nodes}
use beacon.Server.Reap.Laws.{reap_stale_nodes-IsValid}

write_all-IsValid :
    (s : Server) (msg : List ℕ) (peers : List UdpAddr) → IsValid s → IsValid (write_all s msg peers)
unfolding write_all write_to_udp
write_all-IsValid s msg [] v = v
write_all-IsValid s msg (peer ∷ peers) v = write_all-IsValid _ msg peers (with_sent s v _)

send_gossip-IsValid : (p : Protocol) (s : Server) → IsValid s → IsValid (send_gossip p s)
unfolding send_gossip
send_gossip-IsValid p s v = write_all-IsValid s _ s.peers v

pub new_with_peers-IsValid :
    (resolve : List ℕ → Option UdpAddr) (num_cpu beacon_id : ℕ) (peers : List (List ℕ))
    → IsValid (new_with_peers resolve num_cpu beacon_id peers)
unfolding new_with_peers relay_worker_count lookup Unique new_discover_rate_limiter
    new_punch_rate_limiter new_relay_rate_limiter
new_with_peers-IsValid resolve num_cpu beacon_id peers = record {
  table = new_node_map-IsTable max_beacon_nodes;
  discover_ok = empty_shards-IsPlaced shard_u32 rate_limit_shards;
  punch_ok = empty_shards-IsPlaced shard_str rate_limit_shards;
  relay_ok = empty_shards-IsPlaced {V = RelaySourceWindow} shard_relay_source rate_limit_shards;
  routed = record {
    some_queue =
        rw (length-replicate {A = List RelayJob} (relay_worker_count num_cpu) []) (ground arith);
    routed = λ i. rw (get_or-replicate {A = List RelayJob} (relay_worker_count num_cpu) i []) tt;
  };
  covered = record { routes = tt; sources = tt; seen = λ id addr h. absurd (grind (arith, h)) };
  pinned_once = tt;
  wanted_once = tt;
}

pub dequeue_frame :
    (s : Server) (i : ℕ) → let t = (dequeue s i).0 in t ≡ record s { relay_queues = t.relay_queues }
unfolding dequeue
dequeue_frame s i = ground arith

-- What a worker's round may change beside the queue that it takes from.
pub record Kept (s t : Server) : Type 0 where
  pub queues : t.relay_queues ≡ s.relay_queues
  pub rest : t ≡ record s {
    relay_queues = t.relay_queues;
    sent = t.sent;
    relay_forwarded = t.relay_forwarded;
    relay_not_found = t.relay_not_found;
    wss_server = t.wss_server;
  }

Kept-IsValid : (s t : Server) → IsValid s → Kept s t → IsValid t
Kept-IsValid s t v h = rw h.rest (record {
  table = v.table;
  discover_ok = v.discover_ok;
  punch_ok = v.punch_ok;
  relay_ok = v.relay_ok;
  routed = rw h.queues v.routed;
  covered = v.covered;
  pinned_once = v.pinned_once;
  wanted_once = v.wanted_once;
})

dequeue-IsValid : (s : Server) (i : ℕ) → IsValid s → IsValid (dequeue s i).0
dequeue-IsValid s i v = rw (dequeue_frame s i) (record {
  table = v.table;
  discover_ok = v.discover_ok;
  punch_ok = v.punch_ok;
  relay_ok = v.relay_ok;
  routed = serve-IsRouted s v.routed i;
  covered = v.covered;
  pinned_once = v.pinned_once;
  wanted_once = v.wanted_once;
})

pub flush-Kept : (k : Sockets) (s : Server) (msgs : List Datagram) → Kept s (flush k s msgs)
unfolding flush
flush-Kept k s [] = record { queues = refl; rest = refl }
flush-Kept k s (m ∷ ms) = record { queues = refl; rest = refl }

pub carry-Kept :
    (p : Protocol) (k : Sockets) (s : Server) (b : Batch) (job : RelayJob) (wss_ok : Bool)
    (r : Route)
    → Kept s (carry p k s b job wss_ok r).0
unfolding carry
carry-Kept p k s b job wss_ok (to_wss w) = record { queues = ground arith; rest = ground arith }
carry-Kept p k s b job wss_ok (to_udp addr frame) =
    if_keep (λ (r : Server × Batch). Kept s r.0)
      (leb relay_batch_cap (length (b.msgs ++ (addr, frame) ∷ []))) _ _ (flush-Kept k s _)
      (record { queues = refl; rest = refl })
carry-Kept p k s b job wss_ok not_found = record { queues = refl; rest = refl }

worker_round-IsValid :
    (p : Protocol) (k : Sockets) (i : ℕ) (s : Server) (b : Batch) (e : WorkerEvent)
    → IsValid s
    → IsValid (worker_round p k i (s, b) e).0
unfolding worker_round process_job
worker_round-IsValid p k i s b shutdown v = Kept-IsValid s _ v (flush-Kept k s b.msgs)
worker_round-IsValid p k i s b timer_fired v = Kept-IsValid s _ v (flush-Kept k s b.msgs)
worker_round-IsValid p k i s b (job_ready wss_ok) v = elim (Option-cases (dequeue s i).1) [
  | inl e ↦ rw (e, worker_round) v
  | inr (job, e) ↦
      rw (e, worker_round)
        (Kept-IsValid _ _ (dequeue-IsValid s i v)
          (carry-Kept p k (dequeue s i).0 b job wss_ok (route p (dequeue s i).0 job)))
]

-- A step of a running beacon: a datagram or a bridged frame, a round of the worker of queue i with
-- any batch, the reaper, the gossip sender, a call.
pub data Step : Type 0 where
  packet : List ℕ → UdpAddr → ℕ → ℕ → Step
  work : ℕ → Batch → WorkerEvent → Step
  reap : ℕ → Step
  gossip : Step
  call : Call → Step

module _ (p : Protocol) (k : Sockets) (verify : List ℕ → List ℕ → List ℕ → Bool) where
  unfoldable pub after_step : Server → Step → Server
  after_step s (packet d remote bridge_peer now) =
      handle_packet_from p verify s d remote bridge_peer now
  after_step s (work i b e) = (worker_round p k i (s, b) e).0
  after_step s (reap now) = reap_stale_nodes s now
  after_step s gossip = send_gossip p s
  after_step s (call c) = after_call p s c

  unfoldable pub after_steps : Server → List Step → Server
  after_steps s [] = s
  after_steps s (e ∷ es) = after_steps (after_step s e) es

  pub step-IsValid : (s : Server) (e : Step) → IsValid s → IsValid (after_step s e)
  unfolding after_step
  step-IsValid s (packet d remote bridge_peer now) v =
      handle_packet_from-IsValid p verify s d remote bridge_peer now v
  step-IsValid s (work i b e) v = worker_round-IsValid p k i s b e v
  step-IsValid s (reap now) v = reap_stale_nodes-IsValid s now v
  step-IsValid s gossip v = send_gossip-IsValid p s v
  step-IsValid s (call c) v = after_call-IsValid p s c v

  steps-IsValid : (s : Server) (es : List Step) → IsValid s → IsValid (after_steps s es)
  unfolding after_steps
  steps-IsValid s [] v = v
  steps-IsValid s (e ∷ es) v = steps-IsValid (after_step s e) es (step-IsValid s e v)

  -- A beacon that starts with any peers is in a valid state after any steps.
  pub reachable-IsValid :
      (resolve : List ℕ → Option UdpAddr) (num_cpu beacon_id : ℕ) (peers : List (List ℕ))
      (es : List Step)
      → IsValid (after_steps (new_with_peers resolve num_cpu beacon_id peers) es)
  reachable-IsValid resolve num_cpu beacon_id peers es =
      steps-IsValid _ es (new_with_peers-IsValid resolve num_cpu beacon_id peers)
