-- ===== src/Server/Worker.antt =====
-- server.go: relayWorkerLoop. A worker takes one event at a time; the output buffers of the pool
-- are left out, and a frame is built where it is appended to the batch.
pub mod Laws
pub mod Resuming
use beacon.Base.{
  ℕ, zero, suc, ◌+◌, ◌%◌, ◌<◌, ◌≤◌, Bool, true, false, not, ◌||◌, ◌&&◌, Option, none, some, List,
  [], ◌∷◌, ◌++◌, ltb, leb, ◌==◌, if◌then◌else◌, length, get_or, set, take, drop, has, lookup,
  nat_key,
}
use beacon.Net.{UdpAddr, to4}
use beacon.Wire.{put_uint32}
use beacon.NodeMap.{snapshot}
use beacon.Wss.{WssServer, is_connected, write_frame}
use beacon.Server.{Server, Protocol, RelayJob, Datagram, add_uint64}
use beacon.Server.Relay.{dequeue}

abbrev pub relay_batch_cap : ℕ
relay_batch_cap = 32

-- isWildcardIPv6: the address is not an IPv4 one. `none` is not a UDP address.
unfoldable pub is_wildcard_ipv6 : Option UdpAddr → Bool
is_wildcard_ipv6 none = false
is_wildcard_ipv6 (some a) = elim (to4 a.ip) [ some v4 ↦ false | none ↦ true ]

-- The sockets of a worker: where they are bound, how many of a batch ipv4.WriteBatch sends, and
-- whether WriteToUDP sends a datagram.
pub record Sockets : Type 0 where
  pub local_addr : Option UdpAddr
  pub write_batch : List Datagram → ℕ
  pub write_ok : Datagram → Bool

-- writeToUDPFlush and the fallback loop: how many per-packet sends succeed
unfoldable pub send_each : (Datagram → Bool) → List Datagram → ℕ
send_each write_ok [] = 0
send_each write_ok (m ∷ ms) =
    if write_ok m then send_each write_ok ms + 1 else send_each write_ok ms

-- What flush hands to the sockets, in order, and how many of it they sent.
unfoldable pub flush_sends : Sockets → List Datagram → List Datagram × ℕ
flush_sends k msgs =
    if is_wildcard_ipv6 k.local_addr
    then (msgs, send_each k.write_ok msgs)
    else let n = k.write_batch msgs in
      if ltb n (length msgs)
      then (take n msgs ++ drop n msgs, n + send_each k.write_ok (drop n msgs))
      else (take n msgs, n)

-- The new state, with the batch empty afterwards.
unfoldable pub flush : Sockets → Server → List Datagram → Server
flush k s [] = s
flush k s (m ∷ ms) =
    let r = flush_sends k (m ∷ ms) in
    record s {
      sent = s.sent ++ r.0;
      relay_forwarded = if ltb 0 r.1 then add_uint64 s.relay_forwarded r.1 else s.relay_forwarded;
    }

-- A worker's own state: the batch, and whether its flush timer runs.
pub record Batch : Type 0 where
  pub msgs : List Datagram
  pub timer_active : Bool

-- where a job goes
pub data Route : Type 0 where
  to_wss : WssServer → Route
  to_udp : UdpAddr → List ℕ → Route
  not_found : Route

-- what the select of a worker receives
pub data WorkerEvent : Type 0 where
  shutdown timer_fired : WorkerEvent
  job_ready : Bool → WorkerEvent

module _ (p : Protocol) where
  unfoldable pub deliver_frame : RelayJob → List ℕ
  deliver_frame job = p.relay_deliver ∷ (put_uint32 job.sender_id ++ job.payload)

  unfoldable pub deliver_dest_frame : RelayJob → List ℕ
  deliver_dest_frame job =
      p.relay_deliver_dest ∷ (put_uint32 job.sender_id ++ (put_uint32 job.dest_id ++ job.payload))

  unfoldable pub forward_frame : RelayJob → List ℕ
  forward_frame job =
      p.relay ∷ (put_uint32 job.sender_id ++ (put_uint32 job.dest_id ++ job.payload))

  unfoldable pub udp_route : Server → RelayJob → Route
  udp_route s job = elim (snapshot s.nodes job.dest_id) [
    | some addr ↦
        to_udp addr
          (if has job.dest_id s.dst_nodes then deliver_dest_frame job else deliver_frame job)
    | none ↦ elim (lookup job.dest_id s.peer_nodes) [
      | some addr ↦ to_udp addr (forward_frame job)
      | none ↦ not_found
    ]
  ]

  -- the four tiers
  unfoldable pub route : Server → RelayJob → Route
  route s job = elim s.wss_server [
    | some w ↦ if is_connected w job.dest_id then to_wss w else udp_route s job
    | none ↦ udp_route s job
  ]

  -- the end of a round that appended a message
  abbrev settle : Sockets → Server → List Datagram → Server × Batch
  settle k s msgs =
      if leb relay_batch_cap (length msgs)
      then (flush k s msgs, record { msgs = []; timer_active = false })
      else (s, record { msgs = msgs; timer_active = true })

  -- `wss_ok` is the outcome of a write to the WSS connection.
  unfoldable pub carry : Sockets → Server → Batch → RelayJob → Bool → Route → Server × Batch
  carry k s b job wss_ok (to_wss w) =
      let r = write_frame w job.dest_id (deliver_frame job) wss_ok in
      let s' = record s { wss_server = some r.0 } in
      (
        if r.1
            then record s' { relay_forwarded = add_uint64 s.relay_forwarded 1 }
            else record s' { relay_not_found = add_uint64 s.relay_not_found 1 },
        b,
      )
  carry k s b job wss_ok (to_udp addr frame) = settle k s (b.msgs ++ (addr, frame) ∷ [])
  carry k s b job wss_ok not_found =
      (record s { relay_not_found = add_uint64 s.relay_not_found 1 }, b)

  -- the round of a job
  unfoldable pub process_job : Sockets → Server → Batch → RelayJob → Bool → Server × Batch
  process_job k s b job wss_ok = carry k s b job wss_ok (route s job)

  -- one round of the worker of queue i
  unfoldable pub worker_round : Sockets → ℕ → Server × Batch → WorkerEvent → Server × Batch
  worker_round k i (s, b) shutdown =
      (flush k s b.msgs, record { msgs = []; timer_active = b.timer_active })
  worker_round k i (s, b) timer_fired =
      (flush k s b.msgs, record { msgs = []; timer_active = false })
  worker_round k i (s, b) (job_ready wss_ok) =
      let r = dequeue s i in elim r.1 [ none ↦ (s, b) | some job ↦ process_job k r.0 b job wss_ok ]
