-- ===== src/NodeMap.antt =====
-- nodes_shard.go: the node table, 64 maps of node id to endpoint. Each operation holds its shard's
-- lock throughout, so it is one step. Times are nanoseconds; `none` is the zero time.
pub mod Laws
pub mod Count
pub mod Walk
use beacon.Base.{
  ℕ, ◌+◌, ◌-◌, ◌*◌, ◌/◌, ◌%◌, Bool, true, false, not, ◌&&◌, Option, none, some, List, [], ◌∷◌, ◌++◌,
  ltb, leb, if◌then◌else◌, length, is_some, Assoc, keys, nat_key,
}
use beacon.Base.Shards.{Shards, empty_shards, shard_of, load, store, sweep}
use beacon.Net.{UdpAddr}

pub record BeaconNode : Type 0 where
  pub addr : UdpAddr
  pub last_seen : ℕ
  pub last_notify : Option ℕ

abbrev pub node_shard_count : ℕ
node_shard_count = 64

abbrev pub NodeMap : Type 0
NodeMap = Shards ℕ BeaconNode

-- nodeID & (nodeShardCount - 1)
unfoldable pub node_slot : ℕ → ℕ
node_slot id = id % node_shard_count

unfoldable pub new_node_map : NodeMap
new_node_map = empty_shards node_shard_count

-- The results are the new table, `inserted` and `at_capacity`.
unfoldable pub upsert : NodeMap → ℕ → UdpAddr → ℕ → ℕ → NodeMap × Bool × Bool
upsert m id addr now max_total = elim (load node_slot id m) [
  | some existing ↦
      (store node_slot id (record existing { addr = addr; last_seen = now }) m, false, false)
  | none ↦
      if ltb 0 max_total && leb (max_total / node_shard_count) (length (shard_of node_slot id m))
      then (m, false, true)
      else (
        store node_slot id (record { addr = addr; last_seen = now; last_notify = none }) m,
        true,
        false,
      )
]

unfoldable pub get : NodeMap → ℕ → Option BeaconNode
get m id = load node_slot id m

unfoldable pub snapshot : NodeMap → ℕ → Option UdpAddr
snapshot m id = elim (load node_slot id m) [ some n ↦ some n.addr | none ↦ none ]

-- The results are the new table, the address (none: not ok) and `throttled`.
unfoldable pub claim_notify : NodeMap → ℕ → ℕ → ℕ → NodeMap × Option UdpAddr × Bool
claim_notify m id now min_gap = elim (load node_slot id m) [
  | none ↦ (m, none, false)
  | some n ↦ elim n.last_notify [
    | some last ↦
        if ltb now (last + min_gap)
        then (m, some n.addr, true)
        else (store node_slot id (record n { last_notify = some now }) m, some n.addr, false)
    | none ↦ (store node_slot id (record n { last_notify = some now }) m, some n.addr, false)
  ]
]

unfoldable pub has_node : NodeMap → ℕ → Bool
has_node m id = is_some (load node_slot id m)

-- Len
unfoldable pub node_count : NodeMap → ℕ
node_count [] = 0
node_count (s ∷ ss) = length s + node_count ss

-- IDs
unfoldable pub node_ids : NodeMap → List ℕ
node_ids [] = []
node_ids (s ∷ ss) = keys s ++ node_ids ss

abbrev pub is_fresh : ℕ → ℕ → BeaconNode → Bool
is_fresh threshold id n = not (ltb n.last_seen threshold)

-- the `removed++` of one shard
unfoldable pub stale_count : ℕ → Assoc ℕ BeaconNode → ℕ
stale_count threshold [] = 0
stale_count threshold ((id, n) ∷ s) =
    if ltb n.last_seen threshold then stale_count threshold s + 1 else stale_count threshold s

unfoldable pub removed_count : ℕ → NodeMap → ℕ
removed_count threshold [] = 0
removed_count threshold (s ∷ ss) = stale_count threshold s + removed_count threshold ss

-- The results are the new table and how many entries were removed.
unfoldable pub reap_stale : NodeMap → ℕ → NodeMap × ℕ
reap_stale m threshold = (sweep node_slot (is_fresh threshold) m, removed_count threshold m)
