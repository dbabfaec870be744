-- ===== src/Server/Relay/Laws.antt =====
-- server.go: what dispatchRelay does to the queues and the counters.
use beacon.Base.{
  ℕ, ◌%◌, ◌<◌, ◌≡◌, inl, inr, Bool, not, ◌&&◌, ◌||◌, List, [], ◌∷◌, ◌++◌, ltb, ◌==◌, if◌then◌else◌,
  length, get_or, arith, Bool-cases, get_or-set, length-set, ==_iff,
}
use beacon.RateLimit.{RelaySourceKey, relay_allow}
use beacon.Server.{
  Server, RelayJob, beacon_relay, breaker_open, add_uint64, max_relay_payload,
  max_relays_per_source_per_second,
}
use beacon.Server.Relay.{queue_index, relay_queue_for, is_known, enqueue, relay_job, dispatch_relay}

-- the tests before the queue, in the order of the source: the frame is whole, the switch closed,
-- the destination known, the source in its budget, and the payload not too long
abbrev pub admitted : Server → List ℕ → RelaySourceKey → ℕ → Bool
admitted s d src now =
    not (ltb (length d) 8)
    && not (breaker_open s beacon_relay)
    && is_known s (relay_job d).dest_id
    && (relay_allow s.relay_rl src now max_relays_per_source_per_second).1
    && not (ltb max_relay_payload (length (relay_job d).payload))

abbrev pub has_room : Server → ℕ → Bool
has_room s dest = ltb (length (relay_queue_for s dest)) s.queue_cap

enqueue-queues :
    (s : Server) (job : RelayJob) (i : ℕ)
    → 0 < length s.relay_queues
    → get_or (enqueue s job).relay_queues i [] ≡ (
        if has_room s job.dest_id && (queue_index s job.dest_id == i)
        then get_or s.relay_queues i [] ++ job ∷ []
        else get_or s.relay_queues i [])
unfolding enqueue queue_index relay_queue_for
enqueue-queues s job i pos =
    let at : ℕ = job.dest_id % length s.relay_queues in
    elim (Bool-cases (has_room s job.dest_id)) [
      | inl room ↦
          rw (room, enqueue)
            (rw
              (get_or-set s.relay_queues at i (get_or s.relay_queues at [] ++ job ∷ []) []
                (grind arith))
              elim (Bool-cases (at == i)) [ inl e ↦ rw (e, (==_iff at i).0 e) | inr e ↦ rw e ])
      | inr full ↦ rw (full, enqueue)
    ]

pub enqueue-width :
    (s : Server) (job : RelayJob) → length (enqueue s job).relay_queues ≡ length s.relay_queues
unfolding enqueue
enqueue-width s job = ground (
  arith,
  length-set s.relay_queues (queue_index s job.dest_id) (relay_queue_for s job.dest_id ++ job ∷ []),
)

-- With at least one queue, a frame changes one queue at most: if it is admitted and its
-- destination's queue has room, its job goes to the end of that queue. All other queues, and all
-- of them otherwise, stay.
pub dispatch_relay_queues :
    (s : Server) (d : List ℕ) (src : RelaySourceKey) (now i : ℕ)
    → 0 < length s.relay_queues
    → let job = relay_job d in
      get_or (dispatch_relay s d src now).relay_queues i [] ≡ (
        if admitted s d src now && has_room s job.dest_id && (queue_index s job.dest_id == i)
        then get_or s.relay_queues i [] ++ job ∷ []
        else get_or s.relay_queues i [])
unfolding dispatch_relay queue_index relay_queue_for
dispatch_relay_queues s d src now i pos =
    let r = relay_allow s.relay_rl src now max_relays_per_source_per_second in
    ground (arith, enqueue-queues (record s { relay_rl = r.0 }) (relay_job d) i pos)

-- The counters tell the drops apart: an open switch or a full queue counts as dropped, an unknown
-- destination as not found; a short frame, a spent budget and a long payload are not counted.
pub dispatch_relay_counters :
    (s : Server) (d : List ℕ) (src : RelaySourceKey) (now : ℕ)
    → let s' = dispatch_relay s d src now in
      let whole = not (ltb (length d) 8) in
      let open_switch = breaker_open s beacon_relay in
      let dest = (relay_job d).dest_id in
      (s'.relay_dropped ≡ (
        if (whole && open_switch) || (admitted s d src now && not (has_room s dest))
        then add_uint64 s.relay_dropped 1
        else s.relay_dropped))
      × (s'.relay_not_found ≡ (
          if whole && not open_switch && not (is_known s dest)
          then add_uint64 s.relay_not_found 1
          else s.relay_not_found))
      × (s'.relay_forwarded ≡ s.relay_forwarded)
unfolding dispatch_relay enqueue relay_queue_for queue_index
dispatch_relay_counters s d src now = ground arith
