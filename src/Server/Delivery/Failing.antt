-- ===== src/Server/Delivery/Failing.antt =====
-- server.go and wss/server.go: a write to a connection of the bridge that fails.
use beacon.Base.{
  ℕ, ◌≡◌, refl, ap, true, false, none, some, List, lookup, lookup-erase, nat_key, arith,
}
use beacon.Wss.{WssServer, peer_at, is_connected, write_frame, drop_peer, is_installed, shut_peer}
use beacon.Wss.Closing.{IsBridge}
use beacon.Wss.Laws.{Reachable, Reachable-IsBridge}
use beacon.Server.{Server, Protocol, RelayJob, add_uint64}
use beacon.Server.Worker.{Sockets, Batch, process_job, carry, route, udp_route, deliver_frame}
use beacon.Server.Worker.Laws.{outgoing}
use beacon.Server.Delivery.Bridge.{by_bridge}

write_fails :
    (w : WssServer) (dest h : ℕ) (frame : List ℕ)
    → lookup dest w.peers ≡ some h
    → (peer_at w h).closed ≡ false
    → (is_connected w dest ≡ true) × (write_frame w dest frame false ≡ (drop_peer w h, false))
unfolding is_connected write_frame
write_fails w dest h frame e live = ground (arith, e, live)

-- the node of an installed peer is off the map once the peer is dropped
off_the_map :
    (w : WssServer) (dest h : ℕ)
    → IsBridge w
    → lookup dest w.peers ≡ some h
    → lookup dest (drop_peer w h).peers ≡ none
unfolding drop_peer is_installed shut_peer
off_the_map w dest h v e =
    let node = (peer_at w h).node_id in
    ground (
      arith,
      e,
      (v.installed dest h e).1,
      lookup-erase node dest w.peers v.unique,
      ap (λ (q : ℕ). lookup q w.peers) {x = node} {y = dest},
    )

is_connected-drop_peer :
    (w : WssServer) (dest h : ℕ)
    → IsBridge w
    → lookup dest w.peers ≡ some h
    → is_connected (drop_peer w h) dest ≡ false
unfolding is_connected
is_connected-drop_peer w dest h v e = rw (off_the_map w dest h v e, is_connected)

udp_without_peer :
    (p : Protocol) (s : Server) (job : RelayJob) (w : WssServer)
    → s.wss_server ≡ some w
    → is_connected w job.dest_id ≡ false
    → route p s job ≡ udp_route p s job
unfolding route
udp_without_peer p s job w bridge gone = ground (arith, bridge, gone)

-- If the write of a frame to its node's connection fails, in a bridge reached by any steps, then
-- the frame is lost and counted as not found: nothing goes to the sockets for it, also where the
-- node table has the node. But the next frame for that node is routed by UDP.
pub process_job_write_fails :
    (p : Protocol) (k : Sockets) (s : Server) (b : Batch) (job next : RelayJob) (w : WssServer)
    (h : ℕ)
    → Reachable w
    → s.wss_server ≡ some w
    → lookup job.dest_id w.peers ≡ some h
    → (peer_at w h).closed ≡ false
    → next.dest_id ≡ job.dest_id
    → let r = process_job p k s b job false in
      (outgoing r ≡ outgoing (s, b))
      × (r.0.relay_not_found ≡ add_uint64 s.relay_not_found 1)
      × (r.0.relay_forwarded ≡ s.relay_forwarded)
      × (route p r.0 next ≡ udp_route p r.0 next)
unfolding process_job carry
process_job_write_fails p k s b job next w h reached bridge at live same =
    let wrote = write_fails w job.dest_id h (deliver_frame p job) at live in
    let way = by_bridge p s job w bridge wrote.0 in
    let gone = is_connected-drop_peer w job.dest_id h (Reachable-IsBridge w reached) at in
    rw way (
      rw (wrote.1, carry)
        (refl, refl, refl, udp_without_peer p _ next (drop_peer w h) refl (rw same gone)))
