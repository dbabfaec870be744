-- ===== src/Server/Reap/Laws.antt =====
-- server.go: what reapStaleNodes leaves.
use beacon.Base.{
  ℕ, ◌-◌, ◌≡◌, refl, not, List, ltb, lookup, retain, keep_if, nat_key, bytes_key, arith,
  lookup-retain, retain-Unique,
}
use beacon.Base.Shards.{sweep-IsPlaced}
use beacon.NodeMap.{has_node, reap_stale, get}
use beacon.NodeMap.Laws.{reap_stale-IsTable, get-reap_stale}
use beacon.RateLimit.{
  punch_sweep, relay_sweep, discover_sweep, shard_u32, shard_str, shard_relay_source,
  rate_limit_shards, source_key, sweep_before,
}
use beacon.Server.{Server, beacon_node_ttl, max_beacon_nodes}
use beacon.Server.Gossip.{sweep_stale_gossip, gossip_peer_ttl}
use beacon.Server.Gossip.Laws.{sweep_stale_gossip-IsCovered}
use beacon.Server.Packet.Valid.{IsValid, with_nodes}
use beacon.Server.Reap.{sweep_limiters, forget_unknown, reap_stale_nodes}

sweep_stale_gossip_frame :
    (s : Server) (cutoff : ℕ)
    → let t = sweep_stale_gossip s cutoff in
      t ≡ record s { peer_nodes = t.peer_nodes; gossip_seen = t.gossip_seen }
unfolding sweep_stale_gossip
sweep_stale_gossip_frame s cutoff = ground arith

-- the node table, and the two maps that follow it
reap-parts :
    (s : Server) (now : ℕ)
    → let t = reap_stale_nodes s now in
      (t.nodes ≡ (reap_stale s.nodes (now - beacon_node_ttl)).0)
      × (t.node_pub_keys ≡ retain (λ id k. has_node t.nodes id) s.node_pub_keys)
      × (t.dst_nodes ≡ retain (λ id u. has_node t.nodes id) s.dst_nodes)
unfolding reap_stale_nodes forget_unknown sweep_limiters
reap-parts s now =
    let s₁ : Server = record s { nodes = (reap_stale s.nodes (now - beacon_node_ttl)).0 } in
    let f = sweep_stale_gossip_frame (sweep_limiters s₁ now) (now - gossip_peer_ttl) in
    rw f (refl, refl, refl)

pub reap-rest :
    (s : Server) (now : ℕ)
    → let t = reap_stale_nodes s now in (t.relay_queues ≡ s.relay_queues) × (t.sent ≡ s.sent)
unfolding reap_stale_nodes forget_unknown sweep_limiters
reap-rest s now =
    let s₁ : Server = record s { nodes = (reap_stale s.nodes (now - beacon_node_ttl)).0 } in
    let f = sweep_stale_gossip_frame (sweep_limiters s₁ now) (now - gossip_peer_ttl) in
    rw f (refl, refl)

-- In a valid state, a node stays if it was heard within its TTL. The pinned key of a node that
-- goes, and its wish for delivery with the destination, go with it; those of the nodes that stay
-- are kept.
pub reap_stale_nodes_forgets :
    (s : Server) (now id : ℕ)
    → IsValid s
    → let t = reap_stale_nodes s now in
      let stays = has_node t.nodes id in
      (get t.nodes id
        ≡ keep_if (λ n. not (ltb n.last_seen (now - beacon_node_ttl))) (get s.nodes id))
      × (lookup id t.node_pub_keys ≡ keep_if (λ k. stays) (lookup id s.node_pub_keys))
      × (lookup id t.dst_nodes ≡ keep_if (λ u. stays) (lookup id s.dst_nodes))
reap_stale_nodes_forgets s now id v =
    let t = reap_stale_nodes s now in
    let parts = reap-parts s now in
    (
      rw parts.0 (get-reap_stale max_beacon_nodes s.nodes v.table (now - beacon_node_ttl) id),
      rw parts.1 (
          lookup-retain (λ (q : ℕ) (k : List ℕ). has_node t.nodes q) id s.node_pub_keys
            v.pinned_once),
      rw parts.2 (
          lookup-retain (λ (q : ℕ) (u : Unit {0}). has_node t.nodes q) id s.dst_nodes
            v.wanted_once),
    )

sweep_limiters-IsValid : (s : Server) (now : ℕ) → IsValid s → IsValid (sweep_limiters s now)
unfolding sweep_limiters punch_sweep relay_sweep discover_sweep sweep_before
sweep_limiters-IsValid s now v = record {
  table = v.table;
  discover_ok = sweep-IsPlaced shard_u32 rate_limit_shards s.discover_rl v.discover_ok _;
  punch_ok = sweep-IsPlaced shard_str rate_limit_shards s.punch_rl v.punch_ok _;
  relay_ok = sweep-IsPlaced shard_relay_source rate_limit_shards s.relay_rl v.relay_ok _;
  routed = v.routed;
  covered = v.covered;
  pinned_once = v.pinned_once;
  wanted_once = v.wanted_once;
}

sweep_stale_gossip-IsValid :
    (s : Server) (cutoff : ℕ) → IsValid s → IsValid (sweep_stale_gossip s cutoff)
sweep_stale_gossip-IsValid s cutoff v = rw (sweep_stale_gossip_frame s cutoff) (record {
  table = v.table;
  discover_ok = v.discover_ok;
  punch_ok = v.punch_ok;
  relay_ok = v.relay_ok;
  routed = v.routed;
  covered = sweep_stale_gossip-IsCovered s cutoff v.covered;
  pinned_once = v.pinned_once;
  wanted_once = v.wanted_once;
})

forget_unknown-IsValid : (s : Server) → IsValid s → IsValid (forget_unknown s)
unfolding forget_unknown
forget_unknown-IsValid s v = record {
  table = v.table;
  discover_ok = v.discover_ok;
  punch_ok = v.punch_ok;
  relay_ok = v.relay_ok;
  routed = v.routed;
  covered = v.covered;
  pinned_once = retain-Unique _ s.node_pub_keys v.pinned_once;
  wanted_once = retain-Unique _ s.dst_nodes v.wanted_once;
}

pub reap_stale_nodes-IsValid : (s : Server) (now : ℕ) → IsValid s → IsValid (reap_stale_nodes s now)
unfolding reap_stale_nodes
reap_stale_nodes-IsValid s now v =
    let m = reap_stale-IsTable max_beacon_nodes s.nodes v.table (now - beacon_node_ttl) in
    forget_unknown-IsValid _
      (sweep_stale_gossip-IsValid _ _ (sweep_limiters-IsValid _ now (with_nodes s v _ m)))
