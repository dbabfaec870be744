-- ===== src/Server/Packet/Valid.antt =====
-- server.go: an invariant of the whole state, over the handlers of handlePacketFrom.
use beacon.Base.{
  ℕ, ◌+◌, ◌/◌, ◌≡◌, ◌⊎◌, inl, inr, refl, Bool, not, ◌&&◌, ◌||◌, List, ltb, leb, if◌then◌else◌,
  length, drop, has, insert, Unique, arith, Bool-cases, nat_key, bytes_key, insert-Unique, if_keep,
  option_keep,
}
use beacon.Base.Shards.{IsPlaced}
use beacon.Net.{UdpAddr, ip_string}
use beacon.NodeMap.{NodeMap, snapshot}
use beacon.NodeMap.Laws.{IsTable, upsert-IsTable}
use beacon.RateLimit.{
  RelaySourceKey, second, shard_u32, shard_str, shard_relay_source, rate_limit_shards,
  discover_allow, punch_allow, relay_allow, source_key,
}
use beacon.RateLimit.Interval.{allow_after-IsPlaced, shard_u32-lt, shard_str-lt}
use beacon.RateLimit.Window.{relay_allow-Placed}
use beacon.Wire.{uint32}
use beacon.Server.{
  write_to_udp, breaker_open, beacon_discover, beacon_punch, Server, Datagram, Protocol,
  max_beacon_nodes, discover_min_interval, punch_per_source_interval,
  max_relays_per_source_per_second, public_key_size, max_punch_per_second,
}
use beacon.Server.Discover.{pin_key, update_endpoint, wire_ip, discover_reply, handle_discover}
use beacon.Server.Punch.{
  punch_gate, send_punch_command, coordinate, verify_punch_grant, handle_punch_request,
}
use beacon.Server.Relay.{enqueue, dispatch_relay}
use beacon.Server.Relay.Order.{IsRouted, arrive-IsRouted}
use beacon.Server.Gossip.{handle_sync}
use beacon.Server.Gossip.Laws.{IsCovered, CoveredRoutes, handle_sync-IsCovered, handle_sync_cases}
use beacon.Server.Packet.Cases.{packet_cases}
use beacon.Server.Packet.{handle_packet_from, relay_source}

-- The node table is well formed and within its cap, each limiter keeps each key once and in its
-- own shard, each waiting job is in the queue of its destination, each route has its source on
-- record, and no id is pinned twice.
pub record IsValid (s : Server) : Type 0 where
  pub table : IsTable max_beacon_nodes s.nodes
  pub discover_ok : IsPlaced shard_u32 rate_limit_shards s.discover_rl
  pub punch_ok : IsPlaced shard_str rate_limit_shards s.punch_rl
  pub relay_ok : IsPlaced shard_relay_source rate_limit_shards s.relay_rl
  pub routed : IsRouted s.relay_queues
  pub covered : IsCovered s.peer_nodes s.gossip_seen
  pub pinned_once : Unique s.node_pub_keys
  pub wanted_once : Unique s.dst_nodes

-- Only these parts of a state count.
same_parts :
    {s t : Server}
    → IsValid s
    → IsTable max_beacon_nodes t.nodes
    → IsPlaced shard_u32 rate_limit_shards t.discover_rl
    → IsPlaced shard_str rate_limit_shards t.punch_rl
    → t.relay_rl ≡ s.relay_rl
    → t.relay_queues ≡ s.relay_queues
    → (t.peer_nodes ≡ s.peer_nodes) × (t.gossip_seen ≡ s.gossip_seen)
    → Unique t.node_pub_keys
    → Unique t.dst_nodes
    → IsValid t
same_parts v table d p r q c keys dests = record {
  table = table;
  discover_ok = d;
  punch_ok = p;
  relay_ok = rw r v.relay_ok;
  routed = rw q v.routed;
  covered = rw (c.0, c.1) v.covered;
  pinned_once = keys;
  wanted_once = dests;
}

-- what a relay frame leaves alone, and what may become of the limiter
dispatch_relay_frame :
    (s : Server) (d : List ℕ) (src : RelaySourceKey) (now : ℕ)
    → let t = dispatch_relay s d src now in
      (t.nodes ≡ s.nodes)
      × (t.discover_rl ≡ s.discover_rl)
      × (t.punch_rl ≡ s.punch_rl)
      × (t.peer_nodes ≡ s.peer_nodes)
      × (t.gossip_seen ≡ s.gossip_seen)
      × (t.node_pub_keys ≡ s.node_pub_keys)
      × (t.dst_nodes ≡ s.dst_nodes)
      × ((t.relay_rl ≡ s.relay_rl)
          ⊎ (t.relay_rl ≡ (relay_allow s.relay_rl src now max_relays_per_source_per_second).0))
unfolding dispatch_relay enqueue
dispatch_relay_frame s d src now = ground arith

module _ (s : Server) (v : IsValid s) where
  pub with_sent : (sent : List Datagram) → IsValid (record s { sent = sent })
  with_sent sent =
      same_parts v v.table v.discover_ok v.punch_ok refl refl (refl, refl) v.pinned_once
        v.wanted_once

  pub with_nodes : (m : NodeMap) → IsTable max_beacon_nodes m → IsValid (record s { nodes = m })
  with_nodes m h =
      same_parts v h v.discover_ok v.punch_ok refl refl (refl, refl) v.pinned_once v.wanted_once

  pin_key-IsValid : (id : ℕ) (d : List ℕ) → IsValid (pin_key s id d)
  unfolding pin_key
  pin_key-IsValid id d =
      let keys = λ (key : List ℕ). insert-Unique id key s.node_pub_keys v.pinned_once in
      elim (Bool-cases (leb (4 + public_key_size) (length d))) [
        | inl whole ↦ elim (Bool-cases (has id s.node_pub_keys)) [
          | inl e ↦ rw (whole, e, pin_key) v
          | inr e ↦
              rw (whole, e, pin_key)
                (same_parts v v.table v.discover_ok v.punch_ok refl refl (refl, refl) (keys _)
                  v.wanted_once)
        ]
        | inr short ↦ rw (short, pin_key) v
      ]

  want_dest-IsValid : (id : ℕ) → IsValid (record s { dst_nodes = insert id tt s.dst_nodes })
  want_dest-IsValid id =
      same_parts v v.table v.discover_ok v.punch_ok refl refl (refl, refl) v.pinned_once
        (insert-Unique id tt s.dst_nodes v.wanted_once)

  update_endpoint-IsValid :
      (id : ℕ) (remote : UdpAddr) (now : ℕ) → IsValid (update_endpoint s id remote now).0
  unfolding update_endpoint discover_allow
  update_endpoint-IsValid id remote now =
      let rl =
        allow_after-IsPlaced shard_u32 shard_u32-lt s.discover_rl v.discover_ok id
          discover_min_interval now in
      let m = upsert-IsTable max_beacon_nodes s.nodes v.table id remote now (omega arith) in
      elim (Bool-cases (discover_allow s.discover_rl id discover_min_interval now).1) [
        | inl e ↦
            rw (e, update_endpoint)
              (same_parts v m rl v.punch_ok refl refl (refl, refl) v.pinned_once v.wanted_once)
        | inr e ↦
            rw (e, update_endpoint)
              (same_parts v v.table rl v.punch_ok refl refl (refl, refl) v.pinned_once
                v.wanted_once)
      ]

  punch_gate-IsValid : (remote : UdpAddr) (now : ℕ) → IsValid (punch_gate s remote now).0
  unfolding punch_gate punch_allow
  punch_gate-IsValid remote now =
      let rl =
        allow_after-IsPlaced shard_str shard_str-lt s.punch_rl v.punch_ok (ip_string remote.ip)
          punch_per_source_interval now in
      elim (Bool-cases (s.punch_whitelist_all || has (ip_string remote.ip) s.punch_whitelist)) [
        | inl e ↦ rw (e, punch_gate) v
        | inr strict ↦
            elim (Bool-cases (ltb now (s.last_punch_time + second / max_punch_per_second))) [
              | inl e ↦ rw (strict, e, punch_gate) v
              | inr late ↦
                  elim (Bool-cases
                    (punch_allow s.punch_rl (ip_string remote.ip) punch_per_source_interval
                      now).1) [
                        | inl e ↦
                            rw (strict, late, e, punch_gate)
                              (same_parts v v.table v.discover_ok rl refl refl (refl, refl)
                                v.pinned_once v.wanted_once)
                        | inr e ↦
                            rw (strict, late, e, punch_gate)
                              (same_parts v v.table v.discover_ok rl refl refl (refl, refl)
                                v.pinned_once v.wanted_once)
                      ]
            ]
      ]

  dispatch_relay-IsValid :
      (d : List ℕ) (src : RelaySourceKey) (now : ℕ) → IsValid (dispatch_relay s d src now)
  dispatch_relay-IsValid d src now =
      let f = dispatch_relay_frame s d src now in
      let rl = relay_allow-Placed s.relay_rl v.relay_ok src now max_relays_per_source_per_second in
      record {
        table = rw f.0 v.table;
        discover_ok = rw f.1 v.discover_ok;
        punch_ok = rw f.2 v.punch_ok;
        relay_ok = elim f.7 [ inl e ↦ rw e v.relay_ok | inr e ↦ rw e rl ];
        routed = arrive-IsRouted s v.routed d src now;
        covered = rw (f.3, f.4) v.covered;
        pinned_once = rw f.5 v.pinned_once;
        wanted_once = rw f.6 v.wanted_once;
      }

  handle_sync-IsValid :
      (d : List ℕ) (remote : UdpAddr) (now : ℕ) → IsValid (handle_sync s d remote now)
  handle_sync-IsValid d remote now =
      handle_sync_cases (λ t. CoveredRoutes t → IsValid t) s d remote now (λ c. v)
        (λ ids c. record {
          table = v.table;
          discover_ok = v.discover_ok;
          punch_ok = v.punch_ok;
          relay_ok = v.relay_ok;
          routed = v.routed;
          covered = c;
          pinned_once = v.pinned_once;
          wanted_once = v.wanted_once;
        })
        (handle_sync-IsCovered s d remote now v.covered)

send_punch_command_frame :
    (p : Protocol) (s : Server) (id : ℕ) (ip : List ℕ) (port : ℕ)
    → let t = (send_punch_command p s id ip port).0 in t ≡ record s { sent = t.sent }
unfolding send_punch_command write_to_udp
send_punch_command_frame p s id ip port = ground arith

pub send_punch_command-IsValid :
    (p : Protocol) (s : Server) (id : ℕ) (ip : List ℕ) (port : ℕ)
    → IsValid s
    → IsValid (send_punch_command p s id ip port).0
send_punch_command-IsValid p s id ip port v =
    rw (send_punch_command_frame p s id ip port) (with_sent s v _)

coordinate-IsValid :
    (p : Protocol) (s : Server) (requester target : ℕ)
    → IsValid s
    → IsValid (coordinate p s requester target)
unfolding coordinate
coordinate-IsValid p s requester target v = option_keep IsValid (snapshot s.nodes target) _ _ v λ t.
    option_keep IsValid (snapshot s.nodes requester) _ _ v λ r.
      send_punch_command-IsValid p _ target _ _ (send_punch_command-IsValid p s requester _ _ v)

discover_reply-IsValid :
    (p : Protocol) (s : Server) (remote : UdpAddr) → IsValid s → IsValid (discover_reply p s remote)
unfolding discover_reply write_to_udp
discover_reply-IsValid p s remote v =
    option_keep IsValid (wire_ip remote.ip) _ _ v
      λ ip. if_keep IsValid s.listening _ _ (with_sent s v _) v

handle_discover-IsValid :
    (p : Protocol) (s : Server) (d : List ℕ) (remote : UdpAddr) (want_dest : Bool) (now : ℕ)
    → IsValid s
    → IsValid (handle_discover p s d remote want_dest now)
unfolding handle_discover
handle_discover-IsValid p s d remote want_dest now v =
    let id = uint32 d in
    let s₁ : Server = if want_dest then record s { dst_nodes = insert id tt s.dst_nodes } else s in
    let v₁ : IsValid s₁ =
      if_keep IsValid want_dest (record s { dst_nodes = insert id tt s.dst_nodes }) s
        (want_dest-IsValid s v id) v in
    let r = update_endpoint (pin_key s₁ id d) id remote now in
    let v₂ : IsValid r.0 = update_endpoint-IsValid _ (pin_key-IsValid s₁ v₁ id d) id remote now in
    if_keep IsValid (ltb (length d) 4) _ _ v (
      if_keep IsValid (breaker_open s beacon_discover) _ _ v
        (if_keep IsValid r.1 _ _ v₂ (discover_reply-IsValid p r.0 remote v₂)))

handle_punch_request-IsValid :
    (p : Protocol) (verify : List ℕ → List ℕ → List ℕ → Bool) (s : Server) (d : List ℕ)
    (remote : UdpAddr) (now : ℕ)
    → IsValid s
    → IsValid (handle_punch_request p verify s d remote now)
unfolding handle_punch_request
handle_punch_request-IsValid p verify s d remote now v =
    let r = punch_gate s remote now in
    let g = punch_gate-IsValid s v remote now in
    let m = upsert-IsTable max_beacon_nodes r.0.nodes g.table (uint32 d) remote now (omega arith) in
    if_keep IsValid (ltb (length d) 8) _ _ v (
      if_keep IsValid (breaker_open s beacon_punch) _ _ v (
        if_keep IsValid (not r.1) _ _ g (
          if_keep IsValid
            (r.0.require_punch_token
              && not (verify_punch_grant verify r.0 (drop 8 d) (uint32 d) (uint32 (drop 4 d)) now))
            _ _ g (coordinate-IsValid p _ (uint32 d) (uint32 (drop 4 d)) (with_nodes r.0 g _ m)))))

-- In a valid state, every datagram and every bridged frame, whatever its bytes and its source,
-- leads to a valid state.
pub handle_packet_from-IsValid :
    (p : Protocol) (verify : List ℕ → List ℕ → List ℕ → Bool) (s : Server) (d : List ℕ)
    (remote : UdpAddr) (bridge_peer now : ℕ)
    → IsValid s
    → IsValid (handle_packet_from p verify s d remote bridge_peer now)
handle_packet_from-IsValid p verify s d remote bridge_peer now v =
    packet_cases p verify IsValid s d remote bridge_peer now v
      (λ body want_dest. handle_discover-IsValid p s body remote want_dest now v)
      (λ body. handle_punch_request-IsValid p verify s body remote now v)
      (λ body. dispatch_relay-IsValid s v body (relay_source remote bridge_peer) now)
      (λ body. handle_sync-IsValid s v body remote now)
