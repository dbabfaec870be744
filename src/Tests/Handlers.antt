-- ===== src/Tests/Handlers.antt =====
-- The handlers at concrete inputs.
use beacon.Base.{ℕ, ◌≡◌, ◌⊎◌, refl, true, false, some, List, [], ◌∷◌, lookup, replicate, nat_key}
use beacon.Net.{UdpAddr}
use beacon.Server.{Server}
use beacon.Server.Gossip.{sync_body}
use beacon.Server.Punch.{handle_punch_request}
use beacon.Server.Punch.Laws.{HasGrant, handle_punch_request-HasGrant}
use beacon.Server.Packet.{handle_packet_from}
use beacon.Server.Packet.Laws.{handle_packet_from_pinned, handle_packet_from_strict}
use beacon.Server.Packet.Valid.{IsValid}
use beacon.Server.Life.{Step, packet, work, reap, gossip, call, after_steps, reachable-IsValid}
use beacon.Server.Calls.{setting, strict, notify, sockets_open}
use beacon.Server.Worker.{job_ready}
use beacon.Tests.Data.{
  protocol, sockets, verify, running, fresh, alice, bob, other_beacon, frame_of, start_time,
  pinned_key, program,
}

abbrev stranger : UdpAddr
stranger = record { ip = 192 ∷ 0 ∷ 2 ∷ 77 ∷ []; port = 7; zone = [] }

abbrev a_day : List Step
a_day =
    call sockets_open
    ∷ packet (6 ∷ frame_of 65) alice 0 start_time
    ∷ work 2 (record { msgs = []; timer_active = false }) (job_ready true)
    ∷ reap start_time
    ∷ gossip
    ∷ call (notify 2 start_time)
    ∷ call (setting (strict true))
    ∷ []

reachable-IsValid_example : IsValid (after_steps protocol sockets verify fresh a_day)
unfolding program
reachable-IsValid_example =
    reachable-IsValid protocol sockets verify (λ text. some other_beacon) 1 7 ((b'x' ∷ []) ∷ [])
      a_day

-- a discover of node 1 by a stranger, with another key
abbrev claim : List ℕ
claim = 1 ∷ 0 ∷ 0 ∷ 0 ∷ 1 ∷ replicate 32 6

handle_packet_from_pinned_example :
    lookup 1 (handle_packet_from protocol verify running claim stranger 0 start_time).node_pub_keys
    ≡ some pinned_key
unfolding program
handle_packet_from_pinned_example =
    handle_packet_from_pinned protocol verify running claim stranger 0 start_time 1 pinned_key refl

abbrev strict_running : Server
strict_running = record running { strict_gossip = true }

handle_packet_from_strict_example :
    let t =
      handle_packet_from protocol verify strict_running
        (9 ∷ sync_body 8 (1 ∷ []))
        stranger
        0
        start_time in
    (t.peer_nodes ≡ strict_running.peer_nodes) × (t.gossip_seen ≡ strict_running.gossip_seen)
unfolding program
handle_packet_from_strict_example =
    handle_packet_from_strict protocol verify strict_running (9 ∷ sync_body 8 (1 ∷ [])) stranger 0
      start_time refl refl

abbrev guarded : Server
guarded = record running { require_punch_token = true }

-- node 2 asks for node 1 without a grant
abbrev request : List ℕ
request = 0 ∷ 0 ∷ 0 ∷ 2 ∷ 0 ∷ 0 ∷ 0 ∷ 1 ∷ []

handle_punch_request-HasGrant_example :
    let t = handle_punch_request protocol verify guarded request bob start_time in
    HasGrant verify guarded request start_time
    ⊎ ((t.sent ≡ guarded.sent) × (t.nodes ≡ guarded.nodes))
handle_punch_request-HasGrant_example =
    handle_punch_request-HasGrant protocol verify guarded request bob start_time refl

abbrev open_socket : Server
open_socket = record running { listening = true }

-- node 1 asks again at once
abbrev probe : List ℕ
probe = 0 ∷ 0 ∷ 0 ∷ 1 ∷ []
