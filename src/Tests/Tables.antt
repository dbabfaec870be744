-- ===== src/Tests/Tables.antt =====
-- The node table and the mesh at concrete inputs.
use beacon.Base.{
  ◌+◌, ◌-◌, ◌≡◌, refl, not, ◌&&◌, some, [], ◌∷◌, if◌then◌else◌, ltb, lookup, keep_if, nat_key,
  arith,
}
use beacon.NodeMap.{NodeMap, get, has_node}
use beacon.NodeMap.Laws.{IsTable}
use beacon.Server.{max_beacon_nodes, beacon_node_ttl}
use beacon.Server.Gossip.{handle_sync, sync_body, cap_ids, same_endpoint, sweep_stale_gossip}
use beacon.Server.Gossip.Laws.{contains, silent, handle_sync-sync_body, lookup-sweep_stale_gossip}
use beacon.Server.Reap.{reap_stale_nodes}
use beacon.Server.Reap.Laws.{reap_stale_nodes_forgets}
use beacon.Tests.Data.{running, running-IsValid, other_beacon, start_time, program}

abbrev table : NodeMap
table = running.nodes

table-IsTable : IsTable max_beacon_nodes table
table-IsTable = running-IsValid.table

reap_stale_nodes_forgets_example :
    let t = reap_stale_nodes running (start_time + 1 + beacon_node_ttl) in
    let stays = has_node t.nodes 1 in
    (get t.nodes 1
      ≡ keep_if
          (λ n. not (ltb n.last_seen (start_time + 1 + beacon_node_ttl - beacon_node_ttl)))
          (get running.nodes 1))
    × (lookup 1 t.node_pub_keys ≡ keep_if (λ k. stays) (lookup 1 running.node_pub_keys))
    × (lookup 1 t.dst_nodes ≡ keep_if (λ u. stays) (lookup 1 running.dst_nodes))
reap_stale_nodes_forgets_example =
    reap_stale_nodes_forgets running (start_time + 1 + beacon_node_ttl) 1 running-IsValid

handle_sync-sync_body_example :
    lookup 5
      (handle_sync running (sync_body 8 (cap_ids (5 ∷ 1 ∷ []))) other_beacon start_time).peer_nodes
    ≡ (if contains 5 (cap_ids (5 ∷ 1 ∷ [])) && not (has_node running.nodes 5)
        then some other_beacon
        else keep_if (λ addr. not (same_endpoint addr other_beacon)) (lookup 5 running.peer_nodes))
unfolding program
handle_sync-sync_body_example =
    handle_sync-sync_body running 8 (5 ∷ 1 ∷ []) other_beacon start_time 5
      (omega arith, (omega arith, tt)) running-IsValid.covered.routes (λ strict. refl)

lookup-sweep_stale_gossip_example :
    lookup 5 (sweep_stale_gossip running start_time).peer_nodes
    ≡ keep_if (λ addr. not (silent running start_time addr)) (lookup 5 running.peer_nodes)
lookup-sweep_stale_gossip_example =
    lookup-sweep_stale_gossip running start_time 5 running-IsValid.covered
