-- ===== src/Server/Delivery.antt =====
-- server.go: dispatchRelay and relayWorkerLoop together, from the frame that comes in to the
-- datagram that goes out.
pub mod Mesh
pub mod Bridge
pub mod Failing
use beacon.Base.{
  ℕ, zero, suc, ◌+◌, ◌≤◌, ◌<◌, ◌≡◌, refl, sym, ap, ◌∙◌, Bool, true, false, Assoc, lookup, has,
  nat_key, Option, none, some, List, [], ◌∷◌, ◌++◌, length, get_or, set, arith, get_or-set_self,
  get_or-cons, length-append,
}
use mathlib.Core.List.{append_assoc, append-nil}
use beacon.RateLimit.{RelaySourceKey}
use beacon.Server.{Server, Protocol, RelayJob, Datagram}
use beacon.Server.Relay.{relay_job, relay_queue_for, queue_index, dispatch_relay, enqueue, dequeue}
use beacon.Server.Relay.Laws.{admitted, has_room, dispatch_relay_queues}
use beacon.Server.Worker.{
  Sockets, Batch, WorkerEvent, timer_fired, job_ready, worker_round, process_job, carry, route,
  udp_route, flush, to_udp, to_wss, not_found, Route,
}
use beacon.Server.Worker.Laws.{
  datagram_of, outgoing, worker_rounds, flush-sent, outgoing-process_job,
}
use beacon.NodeMap.{NodeMap, snapshot}
use beacon.Net.{UdpAddr}
use beacon.Server.Life.{Kept, carry-Kept}

-- n jobs are taken, and then the flush timer fires
abbrev pub rounds : ℕ → List WorkerEvent
rounds zero = timer_fired ∷ []
rounds (suc n) = job_ready true ∷ rounds n

-- t has the tables of s, by which jobs are routed, and no bridge
pub record SameTables (s t : Server) : Type 0 where
  pub nodes : t.nodes ≡ s.nodes
  pub wanted : t.dst_nodes ≡ s.dst_nodes
  pub mesh : t.peer_nodes ≡ s.peer_nodes
  pub no_bridge : t.wss_server ≡ none

module _ (p : Protocol) where
  -- the datagrams that jobs become, in order
  unfoldable pub datagrams : Server → List RelayJob → List Datagram
  datagrams s [] = []
  datagrams s (job ∷ jobs) = datagram_of (udp_route p s job) ++ datagrams s jobs

  pub udp_route_same :
      (s t : Server) (job : RelayJob) → SameTables s t → udp_route p t job ≡ udp_route p s job
  unfolding udp_route
  udp_route_same s t job c = ground (
    arith,
    ap (λ (m : NodeMap). snapshot m job.dest_id) c.nodes,
    ap (λ (m : Assoc ℕ (Unit {0})). has job.dest_id m) c.wanted,
    ap (λ (m : Assoc ℕ UdpAddr). lookup job.dest_id m) c.mesh,
  )

  pub datagrams_same :
      (s t : Server) (jobs : List RelayJob) → SameTables s t → datagrams t jobs ≡ datagrams s jobs
  unfolding datagrams
  datagrams_same s t [] c = refl
  datagrams_same s t (job ∷ jobs) c = rw (udp_route_same s t job c, datagrams_same s t jobs c)

  pub datagrams-append :
      (s : Server) (xs ys : List RelayJob)
      → datagrams s (xs ++ ys) ≡ datagrams s xs ++ datagrams s ys
  unfolding datagrams
  datagrams-append s [] ys = refl
  datagrams-append s (x ∷ xs) ys =
      rw (datagrams-append s xs ys)
        (sym (append_assoc (datagram_of (udp_route p s x)) (datagrams s xs) (datagrams s ys)))

  pub take_job :
      (k : Sockets) (i : ℕ) (s : Server) (b : Batch) (job : RelayJob) (rest : List RelayJob)
      → get_or s.relay_queues i [] ≡ job ∷ rest
      → worker_round p k i (s, b) (job_ready true)
        ≡ process_job p k (record s { relay_queues = set s.relay_queues i rest }) b job true
  unfolding worker_round dequeue
  take_job k i s b job rest e =
      let taken : dequeue s i ≡ (record s { relay_queues = set s.relay_queues i rest }, some job) =
        rw (e, dequeue) refl in
      rw (taken, worker_round)
        (ap (λ (r : Server × Option RelayJob). process_job p k r.0 b job true) taken)

  module _ (k : Sockets) (honest : (ms : List Datagram) → k.write_batch ms ≤ length ms) where
    carry_bridge :
        (s : Server) (b : Batch) (job : RelayJob)
        → (carry p k s b job true (udp_route p s job)).0.wss_server ≡ s.wss_server
    unfolding carry udp_route flush
    carry_bridge s b job = ground arith

    route_by_udp :
        (s : Server) (job : RelayJob) → s.wss_server ≡ none → route p s job ≡ udp_route p s job
    unfolding route udp_route
    route_by_udp s job none_yet = rw (none_yet, route)

    process_job_same :
        (s : Server) (b : Batch) (job : RelayJob)
        → s.wss_server ≡ none
        → let r = process_job p k s b job true in
          SameTables s r.0
          × (r.0.relay_queues ≡ s.relay_queues)
          × (outgoing r ≡ outgoing (s, b) ++ datagram_of (udp_route p s job))
    unfolding process_job
    process_job_same s b job none_yet =
        let by_udp = route_by_udp s job none_yet in
        let kept = carry-Kept p k s b job true (udp_route p s job) in
        rw by_udp (
          record {
            nodes = ap (λ (u : Server). u.nodes) kept.rest;
            wanted = ap (λ (u : Server). u.dst_nodes) kept.rest;
            mesh = ap (λ (u : Server). u.peer_nodes) kept.rest;
            no_bridge = carry_bridge s b job ∙ none_yet;
          },
          kept.queues,
          rw by_udp at (outgoing-process_job p k honest s b job true),
        )

    -- A worker that takes all jobs of a queue and then flushes has handed to the sockets what
    -- waited in its batch, and then a datagram for each job.
    pub serve_all :
        (i : ℕ) (q : List RelayJob) (s : Server) (b : Batch)
        → get_or s.relay_queues i [] ≡ q
        → s.wss_server ≡ none
        → (worker_rounds p k i (s, b) (rounds (length q))).0.sent ≡ outgoing (s, b) ++ datagrams s q
    unfolding worker_rounds worker_round datagrams udp_route
    serve_all i [] s b e none_yet = flush-sent k s b.msgs (honest b.msgs) ∙ sym (append-nil _)
    serve_all i (job ∷ rest) s b e none_yet =
        let s' : Server = record s { relay_queues = set s.relay_queues i rest } in
        let step = process_job_same s' b job none_yet in
        let r = process_job p k s' b job true in
        let left : get_or r.0.relay_queues i [] ≡ rest =
          ap (λ (qs : List (List RelayJob)). get_or qs i []) step.1
          ∙ get_or-set_self s.relay_queues i rest [] (get_or-cons s.relay_queues i e) in
        let ih = serve_all i rest r.0 r.1 left step.0.no_bridge in
        let known = datagrams_same s r.0 rest (record {
          nodes = step.0.nodes;
          wanted = step.0.wanted;
          mesh = step.0.mesh;
          no_bridge = step.0.no_bridge;
        }) in
        ap (λ (u : Server × Batch). (worker_rounds p k i u (rounds (length rest))).0.sent)
          (take_job k i s b job rest e)
        ∙ ih
        ∙ rw (step.2, known)
            (append_assoc (outgoing (s, b)) (datagram_of (udp_route p s job)) (datagrams s rest))
