-- ===== src/Server/Delivery/Mesh.antt =====
-- server.go: a relay frame through one beacon, and through two beacons of the mesh.
use beacon.Base.{
  ℕ, ◌+◌, ◌^◌, ◌≤◌, ◌<◌, ◌≡◌, refl, ap, ◌∙◌, true, false, none, some, List, [], ◌∷◌, ◌++◌, length,
  get_or, drop, has, lookup, nat_key, arith, length-append,
}
use mathlib.Core.List.{append-nil}
use beacon.Net.{UdpAddr}
use beacon.Wire.{uint32, put_uint32}
use beacon.NodeMap.{snapshot}
use beacon.RateLimit.{RelaySourceKey}
use beacon.Server.{Server, Protocol, RelayJob, Datagram}
use beacon.Server.Relay.{relay_job, relay_queue_for, queue_index, dispatch_relay, enqueue}
use beacon.Server.Relay.Laws.{admitted, has_room, dispatch_relay_queues}
use beacon.Server.Worker.{Sockets, Batch, udp_route, deliver_frame, to_udp, forward_frame}
use beacon.Server.Worker.Laws.{datagram_of, worker_rounds, relay_job-forward_frame}
use beacon.Server.Delivery.{
  SameTables, rounds, datagrams, datagrams_same, datagrams-append, serve_all,
}

dispatch_relay-SameTables :
    (s : Server) (d : List ℕ) (src : RelaySourceKey) (now : ℕ)
    → s.wss_server ≡ none
    → SameTables s (dispatch_relay s d src now)
unfolding dispatch_relay enqueue
dispatch_relay-SameTables s d src now no_bridge = record {
  nodes = ground arith;
  wanted = ground arith;
  mesh = ground arith;
  no_bridge = ground (arith, no_bridge);
}

dispatch_relay-sent :
    (s : Server) (d : List ℕ) (src : RelaySourceKey) (now : ℕ)
    → (dispatch_relay s d src now).sent ≡ s.sent
unfolding dispatch_relay enqueue
dispatch_relay-sent s d src now = ground arith

-- where a frame's job waits, and the jobs ahead of it
abbrev pub home : Server → List ℕ → ℕ
home s d = queue_index s (relay_job d).dest_id

abbrev pub ahead : Server → List ℕ → List RelayJob
ahead s d = relay_queue_for s (relay_job d).dest_id

module _ (p : Protocol) (k : Sockets) where
  -- a frame that comes in, and then the worker of its queue until it has flushed the frame
  abbrev pub relayed : Server → Batch → List ℕ → RelaySourceKey → ℕ → Server
  relayed s b d src now =
      (worker_rounds p k (home s d) (dispatch_relay s d src now, b)
        (rounds (length (ahead s d) + 1))).0

module _ (p : Protocol) (k : Sockets)
    (honest : (ms : List Datagram) → k.write_batch ms ≤ length ms) where
  -- If a batch call never reports more datagrams than it was given, a beacon without a bridge that
  -- admits a frame and has room for it hands to the sockets what waited in the batch of the
  -- frame's worker, the datagrams of the jobs ahead of it, and then the datagram of this frame by
  -- the tables of the time, all in that order.
  pub relayed-sent :
      (s : Server) (b : Batch) (d : List ℕ) (src : RelaySourceKey) (now : ℕ)
      → 0 < length s.relay_queues
      → admitted s d src now ≡ true
      → has_room s (relay_job d).dest_id ≡ true
      → s.wss_server ≡ none
      → (relayed p k s b d src now).sent
        ≡ (s.sent ++ b.msgs)
          ++ (datagrams p s (ahead s d) ++ datagram_of (udp_route p s (relay_job d)))
  unfolding queue_index relay_queue_for datagrams
  relayed-sent s b d src now pos ok room no_bridge =
      let t = dispatch_relay s d src now in
      let job = relay_job d in
      let same = dispatch_relay-SameTables s d src now no_bridge in
      let queued : get_or t.relay_queues (home s d) [] ≡ ahead s d ++ job ∷ [] =
        dispatch_relay_queues s d src now (home s d) pos ∙ ground (arith, ok, room) in
      let run = serve_all p k honest (home s d) (ahead s d ++ job ∷ []) t b queued same.no_bridge in
      ap (λ (n : ℕ). (worker_rounds p k (home s d) (t, b) (rounds n)).0.sent)
        {x = length (ahead s d) + 1} {y = length (ahead s d ++ job ∷ [])}
        (omega (arith, length-append (ahead s d) (job ∷ [])))
      ∙ run
      ∙ rw
          (
            datagrams_same p s t (ahead s d ++ job ∷ []) same,
            dispatch_relay-sent s d src now,
            datagrams-append p s (ahead s d) (job ∷ []),
          )
          (ap (λ (ds : List Datagram). (s.sent ++ b.msgs) ++ (datagrams p s (ahead s d) ++ ds))
            (append-nil (datagram_of (udp_route p s job))))

-- the delivery of a frame: its sender, and all that follows the destination
abbrev pub delivery : Protocol → List ℕ → List ℕ
delivery p d = p.relay_deliver ∷ (put_uint32 (uint32 d) ++ drop 8 d)

pub deliver_frame_lem : (p : Protocol) (d : List ℕ) → deliver_frame p (relay_job d) ≡ delivery p d
unfolding deliver_frame relay_job
deliver_frame_lem p d = refl

-- the body of the datagram by which a beacon passes a frame on
abbrev pub hop : Protocol → List ℕ → List ℕ
hop p d = drop 1 (forward_frame p (relay_job d))

forwards :
    (p : Protocol) (s : Server) (job : RelayJob) (next : UdpAddr)
    → snapshot s.nodes job.dest_id ≡ none
    → lookup job.dest_id s.peer_nodes ≡ some next
    → udp_route p s job ≡ to_udp next (forward_frame p job)
unfolding udp_route
forwards p s job next absent far = rw (absent, far, udp_route)

delivers :
    (p : Protocol) (s : Server) (job : RelayJob) (addr : UdpAddr)
    → snapshot s.nodes job.dest_id ≡ some addr
    → has job.dest_id s.dst_nodes ≡ false
    → udp_route p s job ≡ to_udp addr (deliver_frame p job)
unfolding udp_route
delivers p s job addr near plain = ground (arith, near, plain)

-- Two beacons with the same protocol. If the first admits a frame for a node that only the second
-- has, and the second admits what the first then sends to it, then the first hands the second's
-- endpoint one datagram for the frame, and the second, from that datagram, hands the node's
-- endpoint a delivery with the sender and the payload of the first frame. The ids are below 2 ^ 32,
-- no beacon has a bridge, and the node has not asked for the form that names the destination.
pub relayed_twice :
    (p : Protocol) (k : Sockets) (honest : (ms : List Datagram) → k.write_batch ms ≤ length ms)
    (x y : Server) (bx by : Batch) (d : List ℕ) (src_x src_y : RelaySourceKey) (now later : ℕ)
    (y_addr addr : UdpAddr)
    → (relay_job d).sender_id < 2 ^ 32
    → (relay_job d).dest_id < 2 ^ 32
    → 0 < length x.relay_queues
    → 0 < length y.relay_queues
    → x.wss_server ≡ none
    → y.wss_server ≡ none
    → admitted x d src_x now ≡ true
    → has_room x (relay_job d).dest_id ≡ true
    → snapshot x.nodes (relay_job d).dest_id ≡ none
    → lookup (relay_job d).dest_id x.peer_nodes ≡ some y_addr
    → admitted y (hop p d) src_y later ≡ true
    → has_room y (relay_job d).dest_id ≡ true
    → snapshot y.nodes (relay_job d).dest_id ≡ some addr
    → has (relay_job d).dest_id y.dst_nodes ≡ false
    → ((relayed p k x bx d src_x now).sent
        ≡ (x.sent ++ bx.msgs) ++ (datagrams p x (ahead x d) ++ (y_addr, p.relay ∷ hop p d) ∷ []))
      × ((relayed p k y by (hop p d) src_y later).sent
          ≡ (y.sent ++ by.msgs) ++ (datagrams p y (ahead y (hop p d)) ++ (addr, delivery p d) ∷ []))
unfolding forward_frame
relayed_twice p k honest x y bx by d src_x src_y now later y_addr addr hs hd px py wx wy ax rx nx mx
      ay ry ny dy =
    let job = relay_job d in
    let same : relay_job (hop p d) ≡ job = relay_job-forward_frame p job hs hd in
    (
      relayed-sent p k honest x bx d src_x now px ax rx wx
          ∙ rw (forwards p x job y_addr nx mx) refl,
      relayed-sent p k honest y by (hop p d) src_y later py ay (rw same ry) wy
          ∙ rw (same, delivers p y job addr ny dy, deliver_frame_lem p d) refl,
    )
