-- ===== src/Server/Worker/Laws.antt =====
-- server.go: what a worker does with a job and with its batch.
use beacon.Base.{
  ℕ, zero, suc, ◌+◌, ◌^◌, ◌≤◌, ◌<◌, ◌≡◌, inl, inr, refl, sym, ap, ◌∙◌, Bool, none, some, List, [],
  ◌∷◌, ◌++◌, length, take, drop, arith, Option-cases, nat_key, length-append, take_all,
}
use mathlib.Core.List.{append_assoc, append-nil}
use beacon.Wire.{uint32, put_uint32}
use beacon.Wss.{write_frame}
use beacon.Server.{Server, Protocol, RelayJob, Datagram, max_relay_payload}
use beacon.Server.Relay.{relay_job, dequeue}
use beacon.Server.Worker.{
  relay_batch_cap, Sockets, send_each, flush_sends, flush, Batch, Route, to_wss, to_udp, not_found,
  route, process_job, carry, deliver_frame, deliver_dest_frame, forward_frame, worker_round,
  WorkerEvent, shutdown, timer_fired, job_ready,
}

send_each-le : (ok : Datagram → Bool) (ms : List Datagram) → send_each ok ms ≤ length ms
unfolding send_each
send_each-le ok [] = omega arith
send_each-le ok (m ∷ ms) = ground (arith, send_each-le ok ms)

take-append-drop : (n : ℕ) (xs : List Datagram) → take n xs ++ drop n xs ≡ xs
take-append-drop zero xs = refl
take-append-drop (suc n) [] = refl
take-append-drop (suc n) (x ∷ xs) = ap (◌∷◌ x) (take-append-drop n xs)

length-drop-add : (n : ℕ) (xs : List Datagram) → n ≤ length xs → length (drop n xs) + n ≡ length xs
length-drop-add zero xs h = omega arith
length-drop-add (suc n) [] h = absurd (omega arith)
length-drop-add (suc n) (x ∷ xs) h = omega (arith, length-drop-add n xs)

flush_sends_lem :
    (k : Sockets) (msgs : List Datagram)
    → k.write_batch msgs ≤ length msgs
    → ((flush_sends k msgs).0 ≡ msgs) × ((flush_sends k msgs).1 ≤ length msgs)
unfolding flush_sends
flush_sends_lem k msgs h = ground (
  arith,
  send_each-le k.write_ok msgs,
  send_each-le k.write_ok (drop (k.write_batch msgs) msgs),
  length-drop-add (k.write_batch msgs) msgs,
  take-append-drop (k.write_batch msgs) msgs,
  take_all (k.write_batch msgs) msgs,
)

-- If a batch call reports no more datagrams than it was given and the counter does not wrap
-- around, a flush hands each message of the batch to the sockets once, in order, whichever path it
-- takes, and adds at most as many to the count of forwarded frames.
pub flush_lem :
    (k : Sockets) (s : Server) (msgs : List Datagram)
    → k.write_batch msgs ≤ length msgs
    → s.relay_forwarded + length msgs < 2 ^ 64
    → ((flush k s msgs).sent ≡ s.sent ++ msgs)
      × (s.relay_forwarded ≤ (flush k s msgs).relay_forwarded)
      × ((flush k s msgs).relay_forwarded ≤ s.relay_forwarded + length msgs)
unfolding flush
flush_lem k s [] h wide = (sym (append-nil _), omega arith, omega arith)
flush_lem k s (m ∷ ms) h wide =
    let f = flush_sends_lem k (m ∷ ms) h in (rw f.0, ground (arith, f), ground (arith, f))

-- what is sent or waits in the batch of a worker, in order
abbrev pub outgoing : Server × Batch → List Datagram
outgoing r = r.0.sent ++ r.1.msgs

pub flush-sent :
    (k : Sockets) (s : Server) (msgs : List Datagram)
    → k.write_batch msgs ≤ length msgs
    → (flush k s msgs).sent ≡ s.sent ++ msgs
unfolding flush
flush-sent k s [] h = sym (append-nil _)
flush-sent k s (m ∷ ms) h = rw ((flush_sends_lem k (m ∷ ms) h).0)

-- the datagram that a job becomes, if it leaves by UDP
abbrev pub datagram_of : Route → List Datagram
datagram_of (to_wss w) = []
datagram_of (to_udp addr frame) = (addr, frame) ∷ []
datagram_of not_found = []

module _ (p : Protocol) (k : Sockets) where
  -- the datagrams that a round adds to those on their way
  unfoldable pub emitted_by : ℕ → Server × Batch → WorkerEvent → List Datagram
  emitted_by i (s, b) shutdown = []
  emitted_by i (s, b) timer_fired = []
  emitted_by i (s, b) (job_ready wss_ok) = elim (dequeue s i).1 [
    | none ↦ []
    | some job ↦ datagram_of (route p (dequeue s i).0 job)
  ]

  -- a worker over a list of rounds
  unfoldable pub worker_rounds : ℕ → Server × Batch → List WorkerEvent → Server × Batch
  worker_rounds i r [] = r
  worker_rounds i r (e ∷ es) = worker_rounds i (worker_round p k i r e) es

  unfoldable pub emitted : ℕ → Server × Batch → List WorkerEvent → List Datagram
  emitted i r [] = []
  emitted i r (e ∷ es) = emitted_by i r e ++ emitted i (worker_round p k i r e) es

module _ (p : Protocol) (k : Sockets)
    (honest : (ms : List Datagram) → k.write_batch ms ≤ length ms) where
  outgoing-carry :
      (s : Server) (b : Batch) (job : RelayJob) (wss_ok : Bool) (r : Route)
      → outgoing (carry p k s b job wss_ok r) ≡ outgoing (s, b) ++ datagram_of r
  unfolding carry
  outgoing-carry s b job wss_ok (to_wss w) =
      ground (
        arith,
        append-nil (s.sent ++ b.msgs),
        write_frame w job.dest_id (deliver_frame p job) wss_ok,
      )
  outgoing-carry s b job wss_ok (to_udp addr frame) =
      let ms = b.msgs ++ (addr, frame) ∷ [] in
      ground (
        arith,
        flush-sent k s ms (honest ms),
        append_assoc s.sent b.msgs ((addr, frame) ∷ []),
        append-nil (s.sent ++ ms),
      )
  outgoing-carry s b job wss_ok not_found = sym (append-nil _)

  -- A job adds its own datagram behind what is on its way, and nothing else.
  pub outgoing-process_job :
      (s : Server) (b : Batch) (job : RelayJob) (wss_ok : Bool)
      → outgoing (process_job p k s b job wss_ok) ≡ outgoing (s, b) ++ datagram_of (route p s job)
  unfolding process_job
  outgoing-process_job s b job wss_ok = outgoing-carry s b job wss_ok (route p s job)

  carry-batch :
      (s : Server) (b : Batch) (job : RelayJob) (wss_ok : Bool) (r : Route)
      → length b.msgs < relay_batch_cap
      → length (carry p k s b job wss_ok r).1.msgs < relay_batch_cap
  unfolding carry
  carry-batch s b job wss_ok (to_wss w) h = h
  carry-batch s b job wss_ok (to_udp addr frame) h =
      ground (arith, length-append b.msgs ((addr, frame) ∷ []))
  carry-batch s b job wss_ok not_found h = h

  -- If a batch call never reports more datagrams than it was given, a batch that is not full
  -- before a round is not full after it.
  pub worker_round_batch :
      (i : ℕ) (s : Server) (b : Batch) (e : WorkerEvent)
      → length b.msgs < relay_batch_cap
      → length (worker_round p k i (s, b) e).1.msgs < relay_batch_cap
  unfolding worker_round process_job
  worker_round_batch i s b shutdown h = omega arith
  worker_round_batch i s b timer_fired h = omega arith
  worker_round_batch i s b (job_ready wss_ok) h = elim (Option-cases (dequeue s i).1) [
    | inl e ↦ rw (e, worker_round) h
    | inr (job, e) ↦
        rw (e, worker_round)
          (carry-batch (dequeue s i).0 b job wss_ok (route p (dequeue s i).0 job) h)
  ]

  pub dequeue-sent : (s : Server) (i : ℕ) → (dequeue s i).0.sent ≡ s.sent
  unfolding dequeue
  dequeue-sent s i = ground arith

  pub outgoing-worker_round :
      (i : ℕ) (s : Server) (b : Batch) (e : WorkerEvent)
      → outgoing (worker_round p k i (s, b) e) ≡ outgoing (s, b) ++ emitted_by p k i (s, b) e
  unfolding worker_round emitted_by
  outgoing-worker_round i s b shutdown =
      ground (arith, flush-sent k s b.msgs (honest b.msgs), append-nil (s.sent ++ b.msgs))
  outgoing-worker_round i s b timer_fired =
      ground (arith, flush-sent k s b.msgs (honest b.msgs), append-nil (s.sent ++ b.msgs))
  outgoing-worker_round i s b (job_ready wss_ok) = elim (Option-cases (dequeue s i).1) [
    | inl e ↦ rw (e, worker_round, emitted_by) (sym (append-nil _))
    | inr (job, e) ↦
        rw (e, worker_round, emitted_by)
          (outgoing-process_job (dequeue s i).0 b job wss_ok
            ∙ ap (λ (q : List Datagram). (q ++ b.msgs) ++ datagram_of (route p (dequeue s i).0 job))
                (dequeue-sent s i))
  ]

  -- If a batch call never reports more datagrams than it was given, then batching, timers, partial
  -- and failed batch calls neither lose, double nor reorder a datagram: what was handed to the
  -- sockets, followed by the batch, is what was there before, followed by one datagram for each
  -- job that was taken and leaves by UDP.
  pub outgoing-worker_rounds :
      (i : ℕ) (r : Server × Batch) (es : List WorkerEvent)
      → outgoing (worker_rounds p k i r es) ≡ outgoing r ++ emitted p k i r es
  unfolding worker_rounds emitted
  outgoing-worker_rounds i r [] = sym (append-nil _)
  outgoing-worker_rounds i (s, b) (e ∷ es) =
      rw (outgoing-worker_rounds i (worker_round p k i (s, b) e) es, outgoing-worker_round i s b e)
        (append_assoc (outgoing (s, b)) (emitted_by p k i (s, b) e)
          (emitted p k i (worker_round p k i (s, b) e) es))

-- For 32-bit ids, a forwarded frame is read back as the same job by the beacon that it is sent to.
pub relay_job-forward_frame :
    (p : Protocol) (job : RelayJob)
    → job.sender_id < 2 ^ 32
    → job.dest_id < 2 ^ 32
    → relay_job (drop 1 (forward_frame p job)) ≡ job
unfolding relay_job forward_frame put_uint32 uint32
relay_job-forward_frame p job hs hd = ground arith

-- For a payload that dispatchRelay lets through, every frame that leaves by UDP fits a pooled
-- output buffer.
pub frame_bounds :
    (p : Protocol) (job : RelayJob)
    → length job.payload ≤ max_relay_payload
    → (length (deliver_frame p job) ≤ max_relay_payload + 9)
      × (length (deliver_dest_frame p job) ≤ max_relay_payload + 9)
      × (length (forward_frame p job) ≤ max_relay_payload + 9)
unfolding deliver_frame deliver_dest_frame forward_frame put_uint32
frame_bounds p job h = omega arith
