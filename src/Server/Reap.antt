-- ===== src/Server/Reap.antt =====
-- server.go: reapStaleNodes. A cutoff is `now` less an interval; on ℕ it stops at 0, before which
-- no time lies, so that the tests against it come out as in the source.
pub mod Laws
use beacon.Base.{ℕ, ◌-◌, ◌*◌, retain, nat_key}
use beacon.NodeMap.{reap_stale, has_node}
use beacon.RateLimit.{punch_sweep, relay_sweep, discover_sweep}
use beacon.Server.{
  Server, beacon_node_ttl, punch_rate_cleanup_interval, relay_source_cleanup_interval,
  discover_min_interval,
}
use beacon.Server.Gossip.{sweep_stale_gossip, gossip_peer_ttl}

-- the sweeps of the three rate limiters
unfoldable pub sweep_limiters : Server → ℕ → Server
sweep_limiters s now = record s {
  punch_rl = punch_sweep s.punch_rl (now - punch_rate_cleanup_interval);
  relay_rl = relay_sweep s.relay_rl (now - relay_source_cleanup_interval);
  discover_rl = discover_sweep s.discover_rl (now - discover_min_interval * 2);
}

-- the two loops that forget what belongs to ids that are gone
unfoldable pub forget_unknown : Server → Server
forget_unknown s = record s {
  node_pub_keys = retain (λ id pub_key. has_node s.nodes id) s.node_pub_keys;
  dst_nodes = retain (λ id u. has_node s.nodes id) s.dst_nodes;
}

unfoldable pub reap_stale_nodes : Server → ℕ → Server
reap_stale_nodes s now =
    let s₁ = record s { nodes = (reap_stale s.nodes (now - beacon_node_ttl)).0 } in
    let s₂ = sweep_limiters s₁ now in forget_unknown (sweep_stale_gossip s₂ (now - gossip_peer_ttl))
