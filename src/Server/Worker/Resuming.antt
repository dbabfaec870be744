-- ===== src/Server/Worker/Resuming.antt =====
-- server.go and recover.go: relayWorker, which resumes relayWorkerLoop after a panic with a fresh
-- batch.
pub mod Losses
use beacon.Base.{ℕ, Bool, true, false, List, [], ◌∷◌, ◌++◌, take, if◌then◌else◌}
use beacon.Server.{Server, Protocol, Datagram}
use beacon.Server.Relay.{dequeue}
use beacon.Server.Worker.Laws.{emitted_by}
use beacon.Server.Worker.{
  Sockets, Batch, WorkerEvent, shutdown, timer_fired, job_ready, worker_round,
}

abbrev pub fresh_batch : Batch
fresh_batch = record { msgs = []; timer_active = false }

-- Where a panic unwinds a run: with no job in hand; in the round of a job, which is lost, before a
-- flush; or in a flush, that of a job's round or another, after some number of the batch's datagrams
-- was handed to the sockets.
pub data Panic : Type 0 where
  idle with_job : Panic
  in_flush : Bool → ℕ → Panic

-- A run of relayWorkerLoop: its rounds up to a shutdown or to a panic, the panic, and whether `done`
-- is closed afterwards.
pub record WorkerRun : Type 0 where
  pub events : List WorkerEvent
  pub panic : Panic
  pub done : Bool

module _ (p : Protocol) (k : Sockets) (i : ℕ) where
  -- what a panic adds to the batch before it unwinds the run: the datagram of the job in hand
  unfoldable pub last_built : Server × Batch → Panic → List Datagram
  last_built (s, b) (in_flush true n) = emitted_by p k i (s, b) (job_ready true)
  last_built r _ = []

  -- the server after a panic; the batch is lost
  unfoldable pub unwound : Server × Batch → Panic → Server
  unwound (s, b) idle = s
  unwound (s, b) with_job = (dequeue s i).0
  unwound (s, b) (in_flush has_job n) =
      let t = if has_job then (dequeue s i).0 else s in
      record t { sent = t.sent ++ take n (b.msgs ++ last_built (s, b) (in_flush has_job n)) }

  -- relayWorkerLoop over a list of rounds. The second result is what it returns: `true` for a
  -- shutdown, `false` where a panic comes after the rounds.
  unfoldable pub relay_worker_loop : Server × Batch → List WorkerEvent → (Server × Batch) × Bool
  relay_worker_loop r [] = (r, false)
  relay_worker_loop r (shutdown ∷ es) = (worker_round p k i r shutdown, true)
  relay_worker_loop r (timer_fired ∷ es) = relay_worker_loop (worker_round p k i r timer_fired) es
  relay_worker_loop r (job_ready wss_ok ∷ es) =
      relay_worker_loop (worker_round p k i r (job_ready wss_ok)) es

  -- relayWorker over its runs. The second result is whether it has returned.
  unfoldable pub relay_worker : Server → List WorkerRun → Server × Bool
  relay_worker s [] = (s, false)
  relay_worker s (run ∷ runs) =
      let r = relay_worker_loop (s, fresh_batch) run.events in
      let left = unwound r.0 run.panic in
      let rest = relay_worker left runs in
      if r.1 then (r.0.0, true) else if run.done then (left, true) else rest
