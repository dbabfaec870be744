-- ===== src/Tests/Concurrency.antt =====
-- Operations beside one another, at concrete inputs.
use beacon.Base.{◌+◌, ◌<◌, ◌≡◌, ◌↔◌, refl, true, some, List, [], ◌∷◌, Mem, replicate, arith}
use beacon.NodeMap.{node_slot, get, has_node, reap_stale}
use beacon.NodeMap.Walk.{TableOp, upserted, run_ops, reap_walk, ids_walk, ops_before, ops_after}
use beacon.NodeMap.Walk.Reap.{get-reap_walk}
use beacon.NodeMap.Walk.Listing.{mem-ids_walk}
use beacon.Server.{max_beacon_nodes}
use beacon.Wss.{WssServer, new_wss, install, at_capacity, peer_count}
use beacon.Wss.Upgrading.{
  admitted, accepted, authenticated, UpgradeOutcome, check_capacity, advance, Concurrent, at_start,
  request, progress, IsOutcome,
}
use beacon.Wss.Upgrading.Bound.{peer_count-lt}
use beacon.Wss.Upgrading.Excess.{peer_count-excess}
use beacon.Tests.Data.{running, running-IsValid, bob, start_time}

-- node 1 moves and node 7 comes while a walk is under way
abbrev gaps : List (List TableOp)
gaps = (upserted 1 bob start_time ∷ []) ∷ (upserted 7 bob start_time ∷ []) ∷ replicate 62 []

get-reap_walk_example :
    let reaped =
      (reap_stale
        (run_ops max_beacon_nodes running.nodes (ops_before (node_slot 1) gaps))
        (start_time + 1)).0 in
    get (reap_walk max_beacon_nodes (start_time + 1) gaps 0 running.nodes) 1
    ≡ get (run_ops max_beacon_nodes reaped (ops_after (node_slot 1) gaps)) 1
get-reap_walk_example =
    get-reap_walk max_beacon_nodes (start_time + 1) running.nodes gaps 1
      running-IsValid.table.placed.width refl

mem-ids_walk_example :
    Mem 7 (ids_walk max_beacon_nodes gaps 0 running.nodes)
    ↔ (has_node (run_ops max_beacon_nodes running.nodes (ops_before (node_slot 7) gaps)) 7 ≡ true)
mem-ids_walk_example =
    mem-ids_walk max_beacon_nodes (omega arith) running.nodes gaps 7 running-IsValid.table refl

abbrev go : UpgradeOutcome
go = record { accept_ok = true; auth = some 4 }

-- a bridge for one peer, which node 4 joins while another request is past the capacity check
abbrev counted : WssServer
counted = record (new_wss 1) { upgrade_ok = 1; auth_ok = 1 }

abbrev joined_by : WssServer
joined_by = (install counted 4).0

joined_by-Concurrent : Concurrent 1 2 joined_by (admitted ∷ [])
unfolding new_wss check_capacity advance at_capacity peer_count install
joined_by-Concurrent =
    let s : WssServer = new_wss 1 in
    let ok : IsOutcome go = λ id e. ground (arith, e) in
    let first = request s [] at_start (omega arith) in
    let second = request s (admitted ∷ []) first (omega arith) in
    let upgraded = progress s (admitted ∷ []) admitted [] go ok second in
    let passed =
      progress (record s { upgrade_ok = 1 }) (admitted ∷ []) accepted [] go ok upgraded in
    progress counted (admitted ∷ []) (authenticated 4) [] go ok passed

peer_count-lt_example : peer_count joined_by < 1 + 2
peer_count-lt_example =
    peer_count-lt 1 2 (omega arith) (omega arith) joined_by (admitted ∷ []) joined_by-Concurrent

peer_count-excess_example : (s : WssServer) × Concurrent 1 3 s [] × (peer_count s ≡ 3)
peer_count-excess_example = peer_count-excess 1 3 (omega arith) (omega arith)
