-- ===== src/NodeMap/Walk.antt =====
-- nodes_shard.go: ReapStale and IDs as they run beside other goroutines. Each takes the lock of one
-- shard after the other, and between two locks other goroutines use the table.
pub mod Shard
pub mod Reap
pub mod Listing
use beacon.Base.{
  ℕ, zero, suc, ◌+◌, List, [], ◌∷◌, ◌++◌, get_or, set, take, drop, keys, retain, nat_key,
}
use beacon.Net.{UdpAddr}
use beacon.NodeMap.{NodeMap, BeaconNode, upsert, claim_notify, is_fresh}

-- what another goroutine does to the table: Upsert or claimNotify
pub data TableOp : Type 0 where
  upserted : ℕ → UdpAddr → ℕ → TableOp
  notified : ℕ → ℕ → ℕ → TableOp

-- the round of ReapStale that holds the lock of shard i
unfoldable pub reap_shard : ℕ → ℕ → NodeMap → NodeMap
reap_shard threshold i m = set m i (retain (is_fresh threshold) (get_or m i []))

module _ (max_total : ℕ) where
  unfoldable pub run_op : NodeMap → TableOp → NodeMap
  run_op m (upserted id addr now) = (upsert m id addr now max_total).0
  run_op m (notified id now gap) = (claim_notify m id now gap).0

  unfoldable pub run_ops : NodeMap → List TableOp → NodeMap
  run_ops m [] = m
  run_ops m (o ∷ os) = run_ops (run_op m o) os

  -- ReapStale from shard i on: each entry of the list is what others do before the next lock.
  unfoldable pub reap_walk : ℕ → List (List TableOp) → ℕ → NodeMap → NodeMap
  reap_walk threshold [] i m = m
  reap_walk threshold (os ∷ gaps) i m =
      reap_walk threshold gaps (i + 1) (reap_shard threshold i (run_ops m os))

  -- IDs from shard i on
  unfoldable pub ids_walk : List (List TableOp) → ℕ → NodeMap → List ℕ
  ids_walk [] i m = []
  ids_walk (os ∷ gaps) i m =
      let m' = run_ops m os in keys (get_or m' i []) ++ ids_walk gaps (i + 1) m'

-- all gaps of a walk
unfoldable pub joined : List (List TableOp) → List TableOp
joined [] = []
joined (os ∷ gaps) = os ++ joined gaps

-- what happens up to the lock of shard i, and after it
abbrev pub ops_before : ℕ → List (List TableOp) → List TableOp
ops_before i gaps = joined (take (suc i) gaps)

abbrev pub ops_after : ℕ → List (List TableOp) → List TableOp
ops_after i gaps = joined (drop (suc i) gaps)
