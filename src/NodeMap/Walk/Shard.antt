-- ===== src/NodeMap/Walk/Shard.antt =====
-- nodes_shard.go: what an operation does to one shard of the table depends on that shard alone.
use beacon.Base.{
  ℕ, ◌+◌, ◌/◌, ◌≡◌, inl, inr, refl, ap, ◌∙◌, ◌&&◌, none, some, List, [], ◌∷◌, ◌++◌, ltb, leb, ◌==◌,
  if◌then◌else◌, length, get_or, Assoc, lookup, insert, nat_key, arith, Option-cases, length-set,
  get_or-set,
}
use beacon.Base.Shards.{load, store, shard_of}
use beacon.NodeMap.{NodeMap, BeaconNode, node_shard_count, node_slot, upsert, claim_notify}
use beacon.NodeMap.Laws.{node_slot-lt}
use beacon.NodeMap.Walk.{TableOp, upserted, notified, run_op, run_ops}

module _ (max_total : ℕ) where
  -- what an operation does to shard i, from that shard alone
  unfoldable pub shard_op : ℕ → Assoc ℕ BeaconNode → TableOp → Assoc ℕ BeaconNode
  shard_op i s (upserted id addr now) =
      if node_slot id == i
      then elim (lookup id s) [
        | some existing ↦ insert id (record existing { addr = addr; last_seen = now }) s
        | none ↦
            if ltb 0 max_total && leb (max_total / node_shard_count) (length s)
            then s
            else insert id (record { addr = addr; last_seen = now; last_notify = none }) s
      ]
      else s
  shard_op i s (notified id now gap) =
      if node_slot id == i
      then elim (lookup id s) [
        | none ↦ s
        | some n ↦ elim n.last_notify [
          | some last ↦
              if ltb now (last + gap) then s else insert id (record n { last_notify = some now }) s
          | none ↦ insert id (record n { last_notify = some now }) s
        ]
      ]
      else s

  unfoldable pub shard_ops : ℕ → Assoc ℕ BeaconNode → List TableOp → Assoc ℕ BeaconNode
  shard_ops i s [] = s
  shard_ops i s (o ∷ os) = shard_ops i (shard_op i s o) os

  length-store :
      (m : NodeMap) (id : ℕ) (n : BeaconNode) → length (store node_slot id n m) ≡ length m
  unfolding store
  length-store m id n = length-set m (node_slot id) _

  pub run_op-width : (m : NodeMap) (o : TableOp) → length (run_op max_total m o) ≡ length m
  unfolding run_op upsert claim_notify
  run_op-width m (upserted id addr now) = elim (Option-cases (load node_slot id m)) [
    | inl e ↦
        ground (
          arith,
          e,
          length-store m id (record { addr = addr; last_seen = now; last_notify = none }),
        )
    | inr (n, e) ↦ ground (arith, e, length-store m id (record n { addr = addr; last_seen = now }))
  ]
  run_op-width m (notified id now gap) = elim (Option-cases (load node_slot id m)) [
    | inl e ↦ ground (arith, e)
    | inr (n, e) ↦ ground (arith, e, length-store m id (record n { last_notify = some now }))
  ]

  get_or-store :
      (m : NodeMap) (id i : ℕ) (n : BeaconNode)
      → length m ≡ node_shard_count
      → get_or (store node_slot id n m) i []
        ≡ (if node_slot id == i then insert id n (get_or m i []) else get_or m i [])
  unfolding store
  get_or-store m id i n w =
      get_or-set m (node_slot id) i (insert id n (get_or m (node_slot id) [])) []
        (rw w (node_slot-lt id))
      ∙ ground (arith, ap (λ (j : ℕ). get_or m j []) {x = node_slot id} {y = i})

  get_or-run_op :
      (m : NodeMap) (o : TableOp) (i : ℕ)
      → length m ≡ node_shard_count
      → get_or (run_op max_total m o) i [] ≡ shard_op i (get_or m i []) o
  unfolding run_op shard_op upsert claim_notify load shard_of
  get_or-run_op m (upserted id addr now) i w =
      elim (Option-cases (lookup id (get_or m (node_slot id) []))) [
        | inl e ↦ ground (
          arith,
          e,
          get_or-store m id i (record { addr = addr; last_seen = now; last_notify = none }) w,
          ap (λ (j : ℕ). get_or m j []) {x = node_slot id} {y = i},
        )
        | inr (n, e) ↦ ground (
          arith,
          e,
          get_or-store m id i (record n { addr = addr; last_seen = now }) w,
          ap (λ (j : ℕ). get_or m j []) {x = node_slot id} {y = i},
        )
      ]
  get_or-run_op m (notified id now gap) i w =
      elim (Option-cases (lookup id (get_or m (node_slot id) []))) [
        | inl e ↦ ground (arith, e, ap (λ (j : ℕ). get_or m j []) {x = node_slot id} {y = i})
        | inr (n, e) ↦ ground (
          arith,
          e,
          get_or-store m id i (record n { last_notify = some now }) w,
          ap (λ (j : ℕ). get_or m j []) {x = node_slot id} {y = i},
        )
      ]

  pub run_ops-width : (m : NodeMap) (os : List TableOp) → length (run_ops max_total m os) ≡ length m
  unfolding run_ops
  run_ops-width m [] = refl
  run_ops-width m (o ∷ os) = run_ops-width (run_op max_total m o) os ∙ run_op-width m o

  pub get_or-run_ops :
      (m : NodeMap) (os : List TableOp) (i : ℕ)
      → length m ≡ node_shard_count
      → get_or (run_ops max_total m os) i [] ≡ shard_ops i (get_or m i []) os
  unfolding run_ops shard_ops
  get_or-run_ops m [] i w = refl
  get_or-run_ops m (o ∷ os) i w =
      get_or-run_ops (run_op max_total m o) os i (run_op-width m o ∙ w)
      ∙ ap (λ s. shard_ops i s os) (get_or-run_op m o i w)

  pub shard_ops-append :
      (i : ℕ) (s : Assoc ℕ BeaconNode) (os ps : List TableOp)
      → shard_ops i s (os ++ ps) ≡ shard_ops i (shard_ops i s os) ps
  unfolding shard_ops
  shard_ops-append i s [] ps = refl
  shard_ops-append i s (o ∷ os) ps = shard_ops-append i (shard_op i s o) os ps
