-- ===== src/NodeMap/Walk/Reap.antt =====
-- nodes_shard.go: ReapStale beside other goroutines, against a reap that is done at once.
use beacon.Base.{
  ℕ, zero, suc, ◌+◌, ◌<◌, ◌≤◌, ◌≡◌, refl, sym, ap, ◌∙◌, List, [], ◌∷◌, ◌==◌, if◌then◌else◌, length,
  get_or, lookup, retain, nat_key, arith, length-set, length-map, get_or-set,
}
use beacon.Base.Shards.{load, shard_of, sweep, get_or-sweep}
use beacon.NodeMap.{NodeMap, node_shard_count, node_slot, is_fresh, get, reap_stale}
use beacon.NodeMap.Laws.{node_slot-lt}
use beacon.NodeMap.Walk.{TableOp, reap_shard, run_ops, reap_walk, joined, ops_before, ops_after}
use beacon.NodeMap.Walk.Shard.{shard_ops, run_ops-width, get_or-run_ops, shard_ops-append}

module _ (max_total : ℕ) (t : ℕ) where
  reap_shard-width : (k : ℕ) (m : NodeMap) → length (reap_shard t k m) ≡ length m
  unfolding reap_shard
  reap_shard-width k m = length-set m k _

  get_or-reap_shard :
      (k i : ℕ) (m : NodeMap)
      → k < length m
      → get_or (reap_shard t k m) i []
        ≡ (if k == i then retain (is_fresh t) (get_or m k []) else get_or m i [])
  unfolding reap_shard
  get_or-reap_shard k i m h = get_or-set m k i _ [] h

  round-width :
      (k : ℕ) (m : NodeMap) (os : List TableOp)
      → length (reap_shard t k (run_ops max_total m os)) ≡ length m
  round-width k m os = reap_shard-width k (run_ops max_total m os) ∙ run_ops-width max_total m os

  get_or-round :
      (k i : ℕ) (m : NodeMap) (os : List TableOp)
      → length m ≡ node_shard_count
      → k < node_shard_count
      → let s = shard_ops max_total i (get_or m i []) os in
        get_or (reap_shard t k (run_ops max_total m os)) i []
        ≡ (if k == i then retain (is_fresh t) s else s)
  get_or-round k i m os w h =
      get_or-reap_shard k i (run_ops max_total m os) (rw (run_ops-width max_total m os, w) h)
      ∙ ground (
        arith,
        get_or-run_ops max_total m os i w,
        ap (λ (j : ℕ). get_or (run_ops max_total m os) j []) {x = k} {y = i},
      )

  -- a shard that the walk has passed
  reap_walk_passed :
      (gaps : List (List TableOp)) (k i : ℕ) (m : NodeMap)
      → length m ≡ node_shard_count
      → k + length gaps ≤ node_shard_count
      → i < k
      → get_or (reap_walk max_total t gaps k m) i []
        ≡ shard_ops max_total i (get_or m i []) (joined gaps)
  unfolding reap_walk joined shard_ops
  reap_walk_passed [] k i m w fits past = refl
  reap_walk_passed (os ∷ gaps) k i m w fits past = ground (
    arith,
    reap_walk_passed gaps (k + 1) i (reap_shard t k (run_ops max_total m os))
        (round-width k m os ∙ w) (omega arith) (omega arith),
    get_or-round k i m os w (omega arith),
    shard_ops-append max_total i (get_or m i []) os (joined gaps),
  )

  -- a shard that the walk has still to reach
  reap_walk_at :
      (gaps : List (List TableOp)) (k j i : ℕ) (m : NodeMap)
      → length m ≡ node_shard_count
      → k + length gaps ≤ node_shard_count
      → j < length gaps
      → i ≡ k + j
      → get_or (reap_walk max_total t gaps k m) i []
        ≡ shard_ops max_total i
            (retain (is_fresh t) (shard_ops max_total i (get_or m i []) (ops_before j gaps)))
            (ops_after j gaps)
  unfolding reap_walk joined shard_ops
  reap_walk_at [] k j i m w fits within at = absurd (omega arith)
  reap_walk_at (os ∷ gaps) k zero i m w fits within at =
      reap_walk_passed gaps (k + 1) i (reap_shard t k (run_ops max_total m os))
        (round-width k m os ∙ w) (omega arith) (omega arith)
      ∙ ground (
        arith,
        get_or-round k i m os w (omega arith),
        shard_ops-append max_total i (get_or m i []) os [],
      )
  reap_walk_at (os ∷ gaps) k (suc j) i m w fits within at =
      reap_walk_at gaps (k + 1) j i (reap_shard t k (run_ops max_total m os))
        (round-width k m os ∙ w) (omega arith) (omega arith) (omega arith)
      ∙ ground (
        arith,
        get_or-round k i m os w (omega arith),
        shard_ops-append max_total i (get_or m i []) os (ops_before j gaps),
      )

  reap_stale-width : (m : NodeMap) → length (reap_stale m t).0 ≡ length m
  unfolding reap_stale sweep
  reap_stale-width m = length-map (retain (is_fresh t)) m

  get_or-reap_stale :
      (m : NodeMap) (i : ℕ) → get_or (reap_stale m t).0 i [] ≡ retain (is_fresh t) (get_or m i [])
  unfolding reap_stale
  get_or-reap_stale m i = get_or-sweep node_slot (is_fresh t) m i

  at_once :
      (m : NodeMap) (before later : List TableOp) (i : ℕ)
      → length m ≡ node_shard_count
      → get_or (run_ops max_total (reap_stale (run_ops max_total m before) t).0 later) i []
        ≡ shard_ops max_total i
            (retain (is_fresh t) (shard_ops max_total i (get_or m i []) before))
            later
  at_once m before later i w =
      get_or-run_ops max_total (reap_stale (run_ops max_total m before) t).0 later i
        (reap_stale-width (run_ops max_total m before) ∙ run_ops-width max_total m before ∙ w)
      ∙ ap (λ s. shard_ops max_total i s later)
          (get_or-reap_stale (run_ops max_total m before) i
            ∙ ap (retain (is_fresh t)) (get_or-run_ops max_total m before i w))

  -- A reap that takes the 64 locks one after the other, with any operations of other goroutines in
  -- between, leaves each id as a reap would that is done at once, at the moment when the walk holds
  -- the lock of that id's shard.
  pub get-reap_walk :
      (m : NodeMap) (gaps : List (List TableOp)) (q : ℕ)
      → length m ≡ node_shard_count
      → length gaps ≡ node_shard_count
      → let i = node_slot q in
        let reaped = (reap_stale (run_ops max_total m (ops_before i gaps)) t).0 in
        get (reap_walk max_total t gaps 0 m) q ≡ get (run_ops max_total reaped (ops_after i gaps)) q
  unfolding get load shard_of
  get-reap_walk m gaps q w all =
      let i = node_slot q in
      ap (λ s. lookup q s)
        (reap_walk_at gaps 0 i i m w (omega (arith, all)) (rw all (node_slot-lt q)) (omega arith)
          ∙ sym (at_once m (ops_before i gaps) (ops_after i gaps) i w))
