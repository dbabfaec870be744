-- ===== src/NodeMap/Count.antt =====
-- nodes_shard.go: Len, IDs and the count of ReapStale.
use beacon.Base.{
  ℕ, zero, suc, ◌+◌, ◌*◌, ◌/◌, ◌≤◌, ◌≡◌, ◌↔◌, inl, inr, refl, ap, true, [], ◌∷◌, Mem, length,
  get_or, has, keys, lookup, retain, Assoc, nat_key, arith, Bool-cases, Bool-set, mem-keys,
  length-append, length-map, ==_iff, ◌==◌,
}
use mathlib.Core.List.{mem-append, not-mem-nil}
use mathlib.Core.Logic.Or
use beacon.Base.Shards.{load, sweep, shard_of}
use beacon.NodeMap.{
  NodeMap, BeaconNode, node_slot, has_node, node_count, node_ids, is_fresh, stale_count,
  removed_count, reap_stale,
}
use beacon.NodeMap.Laws.{IsTable}

count_bounded :
    (m : NodeMap) (cap : ℕ)
    → ((i : ℕ) → length (get_or m i []) ≤ cap)
    → node_count m ≤ length m * cap
unfolding node_count
count_bounded [] cap h = omega arith
count_bounded (s ∷ ss) cap h = grind (arith, h 0, count_bounded ss cap (λ i. h (suc i)))

-- A well-formed table holds no more nodes than the cap.
pub node_count_le : (max_total : ℕ) (m : NodeMap) → IsTable max_total m → node_count m ≤ max_total
node_count_le max_total m v =
    omega (arith, count_bounded m _ v.bounded, ap (λ (n : ℕ). n * (max_total / 64)) v.placed.width)

length-retain-stale :
    (t : ℕ) (s : Assoc ℕ BeaconNode) → length (retain (is_fresh t) s) + stale_count t s ≡ length s
unfolding retain stale_count
length-retain-stale t [] = omega arith
length-retain-stale t ((id, n) ∷ s) = ground (arith, length-retain-stale t s)

-- The count that ReapStale returns is the number of nodes that are gone.
pub node_count-reap_stale :
    (m : NodeMap) (t : ℕ) → node_count (reap_stale m t).0 + (reap_stale m t).1 ≡ node_count m
unfolding node_count reap_stale sweep removed_count
node_count-reap_stale [] t = omega arith
node_count-reap_stale (s ∷ ss) t =
    omega (arith, length-retain-stale t s, node_count-reap_stale ss t)

length-ids : (m : NodeMap) → length (node_ids m) ≡ node_count m
unfolding node_ids node_count
length-ids [] = refl
length-ids (s ∷ ss) = omega (
  arith,
  length-append (keys s) (node_ids ss),
  length-map (λ (e : ℕ × BeaconNode). e.0) s,
  length-ids ss,
)

ids_cases :
    (P : Type 0) (q : ℕ) (m : NodeMap)
    → IsProp P
    → ((i : ℕ) → has q (get_or m i []) ≡ true → P)
    → Mem q (node_ids m)
    → P
unfolding node_ids
ids_cases P q [] prop f h = absurd (not-mem-nil h)
ids_cases P q (s ∷ ss) prop f h =
    Or.elim prop (mem-append.0 h) (λ a. f 0 ((mem-keys q s).0 a))
      (λ b. ids_cases P q ss prop (λ i. f (suc i)) b)

mem-ids : (q : ℕ) (m : NodeMap) (i : ℕ) → has q (get_or m i []) ≡ true → Mem q (node_ids m)
unfolding node_ids lookup
mem-ids q [] i h = cc
mem-ids q (s ∷ ss) zero h = mem-append.1 (Or.inl ((mem-keys q s).1 h))
mem-ids q (s ∷ ss) (suc i) h = mem-append.1 (Or.inr (mem-ids q ss i h))

-- In a well-formed table, IDs lists exactly the nodes that the table has, and as many as Len says.
pub node_ids_complete :
    (max_total : ℕ) (m : NodeMap)
    → IsTable max_total m
    → (length (node_ids m) ≡ node_count m) × ((q : ℕ) → Mem q (node_ids m) ↔ (has_node m q ≡ true))
unfolding has_node load shard_of
node_ids_complete max_total m v = (
  length-ids m,
  λ q. (
    ids_cases _ q m (Bool-set _ _) (λ i h. elim (Bool-cases (node_slot q == i)) [
      | inl e ↦ rw ((==_iff (node_slot q) i).0 e) h
      | inr e ↦ cc (v.placed.placed i q (λ p. cc ((==_iff (node_slot q) i).1 p)))
    ]),
    mem-ids q m (node_slot q),
  ),
)
