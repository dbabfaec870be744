-- ===== src/Tests/Relays.antt =====
-- The relay queues and a worker at concrete inputs.
use beacon.Base.{
  ◌+◌, ◌≤◌, ◌≡◌, refl, true, false, not, ◌&&◌, ◌||◌, List, [], ◌∷◌, ◌++◌, ltb, if◌then◌else◌,
  length, arith,
}
use beacon.Server.{Server, RelayJob, Datagram, beacon_relay, breaker_open, add_uint64}
use beacon.Server.Relay.{relay_job, relay_queue_for, dispatch_relay, is_known}
use beacon.Server.Relay.Laws.{admitted, has_room, dispatch_relay_counters}
use beacon.Server.Relay.Order.{
  QueueEvent, arrive, serve, after_all, accepted, served, for_dest, served_order, served_by, after,
}
use beacon.Server.Worker.{Batch, job_ready, timer_fired}
use beacon.Server.Worker.Laws.{outgoing, emitted, worker_rounds, outgoing-worker_rounds}
use beacon.Tests.Data.{
  protocol, sockets, running, running-IsValid, bob, from_alice, frame_of, start_time, program,
}

abbrev events : List QueueEvent
events =
    arrive (frame_of 65) from_alice start_time
    ∷ arrive (frame_of 66) from_alice (start_time + 1)
    ∷ serve 2
    ∷ serve 3
    ∷ []

-- The first of the two jobs is served, the second waits.
served_in_order : (served running events) ≡ relay_job (frame_of 65) ∷ []
unfolding program served after_all served_by after
served_in_order = refl

served_order_example :
    for_dest 2 (served running events) ++ for_dest 2 (relay_queue_for (after_all running events) 2)
    ≡ for_dest 2 (relay_queue_for running 2) ++ for_dest 2 (accepted running events)
served_order_example = served_order running events 2 running-IsValid.routed

dispatch_relay_counters_example :
    let s' = dispatch_relay running (frame_of 65) from_alice start_time in
    let whole = not (ltb (length (frame_of 65)) 8) in
    let open_switch = breaker_open running beacon_relay in
    let dest = (relay_job (frame_of 65)).dest_id in
    (s'.relay_dropped ≡ (
      if (whole && open_switch)
        || (admitted running (frame_of 65) from_alice start_time && not (has_room running dest))
      then add_uint64 running.relay_dropped 1
      else running.relay_dropped))
    × (s'.relay_not_found ≡ (
        if whole && not open_switch && not (is_known running dest)
        then add_uint64 running.relay_not_found 1
        else running.relay_not_found))
    × (s'.relay_forwarded ≡ running.relay_forwarded)
dispatch_relay_counters_example =
    dispatch_relay_counters running (frame_of 65) from_alice start_time

sockets_honest : (ms : List Datagram) → sockets.write_batch ms ≤ length ms
sockets_honest ms = omega arith

abbrev loaded : Server
loaded = dispatch_relay running (frame_of 65) from_alice start_time

abbrev no_batch : Batch
no_batch = record { msgs = []; timer_active = false }

outgoing-worker_rounds_example :
    outgoing
      (worker_rounds protocol sockets 2 (loaded, no_batch) (job_ready true ∷ timer_fired ∷ []))
    ≡ outgoing (loaded, no_batch)
      ++ emitted protocol sockets 2 (loaded, no_batch) (job_ready true ∷ timer_fired ∷ [])
outgoing-worker_rounds_example =
    outgoing-worker_rounds protocol sockets sockets_honest 2 (loaded, no_batch)
      (job_ready true ∷ timer_fired ∷ [])

abbrev messages : List Datagram
messages = (bob, frame_of 65) ∷ (bob, frame_of 66) ∷ []

abbrev job : RelayJob
job = record { sender_id = 1; dest_id = 70_000; payload = 65 ∷ [] }
