-- ===== src/Server/Worker/Resuming/Losses.antt =====
-- server.go: what a worker loses when panics end its runs.
use beacon.Base.{
  ℕ, ◌+◌, ◌*◌, ◌≤◌, ◌<◌, ◌≡◌, refl, ap, true, false, List, [], ◌∷◌, ◌++◌, if◌then◌else◌, length,
  take, option_keep, arith, length-append,
}
use beacon.Server.{Server, Protocol, Datagram}
use beacon.Server.Relay.{dequeue}
use beacon.Server.Worker.{
  relay_batch_cap, Sockets, Batch, WorkerEvent, shutdown, timer_fired, job_ready, worker_round,
}
use beacon.Server.Worker.{Route, route, to_wss, to_udp, not_found}
use beacon.Server.Worker.Laws.{
  emitted_by, datagram_of, worker_rounds, emitted, outgoing-worker_rounds, worker_round_batch,
  dequeue-sent,
}
use beacon.Server.Worker.Resuming.{
  Panic, idle, with_job, in_flush, WorkerRun, fresh_batch, last_built, unwound, relay_worker_loop,
  relay_worker,
}

-- the rounds of a run that take place
abbrev pub rounds_of : List WorkerEvent → List WorkerEvent
rounds_of [] = []
rounds_of (shutdown ∷ es) = shutdown ∷ []
rounds_of (timer_fired ∷ es) = timer_fired ∷ rounds_of es
rounds_of (job_ready wss_ok ∷ es) = job_ready wss_ok ∷ rounds_of es

module _ (p : Protocol) (k : Sockets) (i : ℕ) where
  -- the datagrams that a worker has built over its runs, in order
  unfoldable pub built : Server → List WorkerRun → List Datagram
  built s [] = []
  built s (run ∷ runs) =
      let r = relay_worker_loop p k i (s, fresh_batch) run.events in
      let left = unwound p k i r.0 run.panic in
      let rest = built left runs in
      let own = emitted p k i (s, fresh_batch) (rounds_of run.events) in
      let last = last_built p k i r.0 run.panic in
      own ++ (if r.1 then [] else last ++ (if run.done then [] else rest))

  loop_rounds :
      (r : Server × Batch) (es : List WorkerEvent)
      → (relay_worker_loop p k i r es).0 ≡ worker_rounds p k i r (rounds_of es)
  unfolding relay_worker_loop worker_rounds
  loop_rounds r [] = refl
  loop_rounds r (shutdown ∷ es) = refl
  loop_rounds r (timer_fired ∷ es) = loop_rounds (worker_round p k i r timer_fired) es
  loop_rounds r (job_ready wss_ok ∷ es) = loop_rounds (worker_round p k i r (job_ready wss_ok)) es

module _ (p : Protocol) (k : Sockets) (honest : (ms : List Datagram) → k.write_batch ms ≤ length ms)
    (i : ℕ) where
  rounds_batch :
      (r : Server × Batch) (es : List WorkerEvent)
      → length r.1.msgs < relay_batch_cap
      → length (worker_rounds p k i r es).1.msgs < relay_batch_cap
  unfolding worker_rounds
  rounds_batch r [] h = h
  rounds_batch (s, b) (e ∷ es) h =
      rounds_batch (worker_round p k i (s, b) e) es (worker_round_batch p k honest i s b e h)

  -- what a run built is sent or in its batch
  run_sent :
      (s : Server) (es : List WorkerEvent)
      → let r = (relay_worker_loop p k i (s, fresh_batch) es).0 in
        (length s.sent + length (emitted p k i (s, fresh_batch) (rounds_of es))
          ≡ length r.0.sent + length r.1.msgs)
        × (length r.1.msgs < relay_batch_cap)
  run_sent s es =
      let r = worker_rounds p k i (s, fresh_batch) (rounds_of es) in
      let built_here = emitted p k i (s, fresh_batch) (rounds_of es) in
      rw (loop_rounds p k i (s, fresh_batch) es) (
        omega (
          arith,
          ap (λ (ds : List Datagram). length ds)
              (outgoing-worker_rounds p k honest i (s, fresh_batch) (rounds_of es)),
          length-append r.0.sent r.1.msgs,
          length-append (s.sent ++ []) built_here,
          length-append s.sent [],
        ),
        rounds_batch (s, fresh_batch) (rounds_of es) (omega arith),
      )

  length-datagram_of : (r : Route) → length (datagram_of r) ≤ 1
  length-datagram_of (to_wss w) = omega arith
  length-datagram_of (to_udp addr frame) = omega arith
  length-datagram_of not_found = omega arith

  length-last_built : (s : Server) (b : Batch) (e : Panic) → length (last_built p k i (s, b) e) ≤ 1
  unfolding last_built emitted_by
  length-last_built s b idle = omega arith
  length-last_built s b with_job = omega arith
  length-last_built s b (in_flush false n) = omega arith
  length-last_built s b (in_flush true n) =
      option_keep (λ (ds : List Datagram). length ds ≤ 1) (dequeue s i).1 _ _ (omega arith)
        (λ job. length-datagram_of (route p (dequeue s i).0 job))

  -- a panic loses no datagram that is sent
  unwound_sent :
      (s : Server) (b : Batch) (e : Panic) → length s.sent ≤ length (unwound p k i (s, b) e).sent
  unfolding unwound
  unwound_sent s b idle = omega arith
  unwound_sent s b with_job =
      omega (arith, ap (λ (ds : List Datagram). length ds) (dequeue-sent p k honest s i))
  unwound_sent s b (in_flush false n) =
      omega (
        arith,
        length-append s.sent (take n (b.msgs ++ last_built p k i (s, b) (in_flush false n))),
      )
  unwound_sent s b (in_flush true n) = omega (
    arith,
    ap (λ (ds : List Datagram). length ds) (dequeue-sent p k honest s i),
    length-append (dequeue s i).0.sent
        (take n (b.msgs ++ last_built p k i (s, b) (in_flush true n))),
  )

  -- If a batch call never reports more datagrams than it was given, a worker loses at most 32
  -- datagrams that it has built to each of its runs, whatever panics end them, also in the middle
  -- of a flush; all others it has handed to the sockets.
  pub relay_worker_loses :
      (s : Server) (runs : List WorkerRun)
      → length s.sent + length (built p k i s runs)
        ≤ length (relay_worker p k i s runs).0.sent + 32 * length runs
  unfolding relay_worker built
  relay_worker_loses s [] = omega arith
  relay_worker_loses s (run ∷ runs) =
      let r = relay_worker_loop p k i (s, fresh_batch) run.events in
      let left = unwound p k i r.0 run.panic in
      let own = emitted p k i (s, fresh_batch) (rounds_of run.events) in
      let last = last_built p k i r.0 run.panic in
      ground (
        arith,
        run_sent s run.events,
        unwound_sent r.0.0 r.0.1 run.panic,
        length-last_built r.0.0 r.0.1 run.panic,
        relay_worker_loses left runs,
        length-append own [],
        length-append own (last ++ []),
        length-append last [],
        length-append own (last ++ built p k i left runs),
        length-append last (built p k i left runs),
      )
