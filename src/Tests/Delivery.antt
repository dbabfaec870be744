-- ===== src/Tests/Delivery.antt =====
-- Frames and introductions from end to end, at concrete inputs.
use beacon.Base.{
  ℕ, ◌+◌, ◌*◌, ◌%◌, ◌^◌, ◌≤◌, ◌≡◌, refl, true, false, some, List, [], ◌∷◌, ◌++◌, length, arith,
}
use beacon.Net.{UdpAddr, ip_string, dotted, decimal, digits_onto}
use beacon.RateLimit.{relay_source_for_udp}
use beacon.Wss.{WssServer, new_wss, install, replaced, peer_at}
use beacon.Server.{Server, Datagram, add_uint64}
use beacon.Server.Relay.{relay_job, dispatch_relay}
use beacon.Server.Discover.{handle_discover, endpoint_message}
use beacon.Server.Punch.{handle_punch_request, punch_gate}
use beacon.Server.Worker.{Batch, job_ready, shutdown, process_job, route, udp_route, forward_frame}
use beacon.Server.Worker.Laws.{datagram_of, outgoing}
use beacon.Server.Worker.Resuming.{idle, in_flush, WorkerRun, relay_worker}
use beacon.Server.Worker.Resuming.Losses.{built, relay_worker_loses}
use beacon.Server.Life.{packet, after_steps}
use beacon.Server.Delivery.{datagrams}
use beacon.Server.Delivery.Mesh.{delivery, relayed, ahead, hop, relayed-sent, relayed_twice}
use beacon.Wss.Laws.{Reachable, at_start, later, upgrade}
use beacon.Server.Delivery.Failing.{process_job_write_fails}
use beacon.Server.Introduction.{introduced}
use beacon.Wire.{put_uint32}
use beacon.RateLimit.{punch_allow, shard_str}
use beacon.Tests.Data.{
  protocol, sockets, verify, running, running-IsValid, fresh, alice, bob, other_beacon, from_alice,
  frame_of, start_time, program,
}

sockets_honest : (ms : List Datagram) → sockets.write_batch ms ≤ length ms
sockets_honest ms = omega arith

abbrev no_batch : Batch
no_batch = record { msgs = []; timer_active = false }

relayed-sent_example :
    (relayed protocol sockets running no_batch (frame_of 65) from_alice start_time).sent
    ≡ (running.sent ++ no_batch.msgs)
      ++ (datagrams protocol running (ahead running (frame_of 65))
          ++ datagram_of (udp_route protocol running (relay_job (frame_of 65))))
unfolding program
relayed-sent_example =
    relayed-sent protocol sockets sockets_honest running no_batch (frame_of 65) from_alice
      start_time running-IsValid.routed.some_queue refl refl refl

-- a frame of node 1 for node 5, which another beacon has
abbrev far_frame : List ℕ
far_frame = 0 ∷ 0 ∷ 0 ∷ 1 ∷ 0 ∷ 0 ∷ 0 ∷ 5 ∷ 65 ∷ []

abbrev meshed : Server
meshed = record running { peer_nodes = (5, other_beacon) ∷ [] }

abbrev host : Server
host =
    after_steps protocol sockets verify fresh
      (packet (1 ∷ 0 ∷ 0 ∷ 0 ∷ 5 ∷ []) bob 0 start_time ∷ [])

relayed_twice_example :
    ((relayed protocol sockets meshed no_batch far_frame from_alice start_time).sent
      ≡ (meshed.sent ++ no_batch.msgs)
        ++ (datagrams protocol meshed (ahead meshed far_frame)
            ++ (other_beacon, protocol.relay ∷ hop protocol far_frame) ∷ []))
    × ((relayed protocol sockets host no_batch
          (hop protocol far_frame)
          (relay_source_for_udp (some alice))
          start_time).sent
        ≡ (host.sent ++ no_batch.msgs)
          ++ (datagrams protocol host (ahead host (hop protocol far_frame))
              ++ (bob, delivery protocol far_frame) ∷ []))
unfolding program forward_frame put_uint32
relayed_twice_example =
    relayed_twice protocol sockets sockets_honest meshed host no_batch no_batch far_frame from_alice
      (relay_source_for_udp (some alice)) start_time start_time other_beacon bob (omega arith)
      (omega arith) (omega arith) (omega arith) refl refl refl refl refl refl refl refl refl refl

-- nodes 1 and 2 on the bridge
abbrev one_on : WssServer
one_on = (install (new_wss 0) 1).0

abbrev both_on : WssServer
both_on = (install one_on 2).0

abbrev bridged : Server
bridged = record running { wss_server = some both_on }

abbrev open_socket : Server
open_socket = record running { listening = true }

abbrev carol : UdpAddr
carol = record { ip = 192 ∷ 0 ∷ 2 ∷ 77 ∷ []; port = 7; zone = [] }

-- a discover of node 3, and a request of node 1 for it
abbrev hello : List ℕ
hello = 0 ∷ 0 ∷ 0 ∷ 3 ∷ []

abbrev request : List ℕ
request = 0 ∷ 0 ∷ 0 ∷ 1 ∷ 0 ∷ 0 ∷ 0 ∷ 3 ∷ []

introduced_example :
    let t = handle_discover protocol open_socket hello carol false start_time in
    (handle_punch_request protocol verify t request alice start_time).sent
    ≡ t.sent
      ++ (alice, endpoint_message protocol.punch_command carol.ip (carol.port % 2 ^ 16))
        ∷ (carol, endpoint_message protocol.punch_command alice.ip (alice.port % 2 ^ 16))
        ∷ []
unfolding program punch_gate punch_allow shard_str ip_string dotted decimal digits_onto
introduced_example =
    introduced protocol verify open_socket hello request carol alice false start_time start_time
      carol.ip alice.ip running-IsValid.table refl
      (record { whole = omega arith; switch_closed = refl; in_budget = refl; room = refl })
      (record {
        whole = omega arith;
        switch_closed = refl;
        in_budget = refl;
        granted = refl;
        room = refl;
      })
      refl (λ e. omega (arith, e)) refl refl

-- a worker whose first run a panic ends
abbrev runs : List WorkerRun
runs =
    record { events = job_ready true ∷ []; panic = in_flush false 0; done = false }
    ∷ record { events = shutdown ∷ []; panic = idle; done = true }
    ∷ []

abbrev loaded : Server
loaded = dispatch_relay running (frame_of 65) from_alice start_time

relay_worker_loses_example :
    length loaded.sent + length (built protocol sockets 2 loaded runs)
    ≤ length (relay_worker protocol sockets 2 loaded runs).0.sent + 32 * length runs
relay_worker_loses_example = relay_worker_loses protocol sockets sockets_honest 2 loaded runs

both_on-Reachable : Reachable both_on
unfolding new_wss install
both_on-Reachable =
    later one_on both_on
      (later (new_wss 0) one_on (at_start 0) (upgrade (new_wss 0) 1 (omega arith)))
      (upgrade one_on 2 (omega arith))

process_job_write_fails_example :
    let job = relay_job (frame_of 65) in
    let r = process_job protocol sockets bridged no_batch job false in
    (outgoing r ≡ outgoing (bridged, no_batch))
    × (r.0.relay_not_found ≡ add_uint64 bridged.relay_not_found 1)
    × (r.0.relay_forwarded ≡ bridged.relay_forwarded)
    × (route protocol r.0 (relay_job (frame_of 66))
        ≡ udp_route protocol r.0 (relay_job (frame_of 66)))
unfolding program new_wss install replaced peer_at
process_job_write_fails_example =
    process_job_write_fails protocol sockets bridged no_batch (relay_job (frame_of 65))
      (relay_job (frame_of 66)) both_on 1 both_on-Reachable refl refl refl refl
