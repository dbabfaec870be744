-- ===== src/NodeMap/Walk/Listing.antt =====
-- nodes_shard.go: IDs beside other goroutines.
use beacon.Base.{
  ℕ, zero, suc, ◌+◌, ◌<◌, ◌≡◌, ◌↔◌, inl, inr, refl, sym, ap, ◌∙◌, Bool, true, List, [], ◌∷◌, ◌++◌,
  Mem, ◌==◌, length, get_or, has, nat_key, arith, Bool-cases, Bool-set, mem-keys, ==_iff,
}
use mathlib.Core.List.{mem-append, not-mem-nil, append-nil}
use mathlib.Core.Logic.Or
use beacon.Base.Shards.{load, shard_of}
use beacon.NodeMap.{NodeMap, node_shard_count, node_slot, has_node}
use beacon.NodeMap.Laws.{IsTable, node_slot-lt, upsert-IsTable, claim_notify-IsTable}
use beacon.NodeMap.Walk.{TableOp, upserted, notified, run_op, run_ops, ids_walk, joined, ops_before}

module _ (max_total : ℕ) (positive : 0 < max_total) where
  run_op-IsTable :
      (m : NodeMap) (o : TableOp) → IsTable max_total m → IsTable max_total (run_op max_total m o)
  unfolding run_op
  run_op-IsTable m (upserted id addr now) v = upsert-IsTable max_total m v id addr now positive
  run_op-IsTable m (notified id now gap) v = claim_notify-IsTable max_total m v id now gap

  run_ops-IsTable :
      (m : NodeMap) (os : List TableOp)
      → IsTable max_total m
      → IsTable max_total (run_ops max_total m os)
  unfolding run_ops
  run_ops-IsTable m [] v = v
  run_ops-IsTable m (o ∷ os) v = run_ops-IsTable (run_op max_total m o) os (run_op-IsTable m o v)

  run_ops-append :
      (m : NodeMap) (os ps : List TableOp)
      → run_ops max_total m (os ++ ps) ≡ run_ops max_total (run_ops max_total m os) ps
  unfolding run_ops
  run_ops-append m [] ps = refl
  run_ops-append m (o ∷ os) ps = run_ops-append (run_op max_total m o) os ps

  -- whether shard i has q when the walk reaches it, in round j
  abbrev found : List (List TableOp) → NodeMap → ℕ → ℕ → ℕ → Bool
  found gaps m j i q = has q (get_or (run_ops max_total m (ops_before j gaps)) i [])

  found-cons :
      (os : List TableOp) (gaps : List (List TableOp)) (j i q : ℕ) (m : NodeMap)
      → found (os ∷ gaps) m (suc j) i q ≡ found gaps (run_ops max_total m os) j i q
  unfolding joined
  found-cons os gaps j i q m =
      ap (λ u. has q (get_or u i [])) (run_ops-append m os (ops_before j gaps))

  found-head :
      (os : List TableOp) (gaps : List (List TableOp)) (i q : ℕ) (m : NodeMap)
      → found (os ∷ gaps) m 0 i q ≡ has q (get_or (run_ops max_total m os) i [])
  unfolding joined
  found-head os gaps i q m = ap (λ us. has q (get_or (run_ops max_total m us) i [])) (append-nil os)

  listed_cases :
      (P : Type 0) (q : ℕ) (gaps : List (List TableOp)) (k : ℕ) (m : NodeMap)
      → IsProp P
      → ((j i : ℕ) → i ≡ k + j → found gaps m j i q ≡ true → P)
      → Mem q (ids_walk max_total gaps k m)
      → P
  unfolding ids_walk
  listed_cases P q [] k m prop f h = absurd (not-mem-nil h)
  listed_cases P q (os ∷ gaps) k m prop f h =
      let m' = run_ops max_total m os in
      Or.elim prop (mem-append.0 h)
        (λ here.
          f 0 k (omega arith) (found-head os gaps k q m ∙ (mem-keys q (get_or m' k [])).0 here))
        (λ further.
          listed_cases P q gaps (k + 1) m' prop
            (λ j i at e. f (suc j) i (omega (arith, at)) (found-cons os gaps j i q m ∙ e)) further)

  found_listed :
      (q : ℕ) (gaps : List (List TableOp)) (k j i : ℕ) (m : NodeMap)
      → j < length gaps
      → i ≡ k + j
      → found gaps m j i q ≡ true
      → Mem q (ids_walk max_total gaps k m)
  unfolding ids_walk
  found_listed q [] k j i m within at h = absurd (omega arith)
  found_listed q (os ∷ gaps) k zero i m within at h =
      let m' = run_ops max_total m os in
      let here : i ≡ k = omega (arith, at) in
      mem-append.1
        (Or.inl ((mem-keys q (get_or m' k [])).1 (rw here at (sym (found-head os gaps i q m) ∙ h))))
  found_listed q (os ∷ gaps) k (suc j) i m within at h = mem-append.1 (
      Or.inr (
        found_listed q gaps (k + 1) j i (run_ops max_total m os) (omega arith) (omega (arith, at))
          (sym (found-cons os gaps j i q m) ∙ h)))

  -- With a positive cap, IDs, taking the 64 locks one after the other beside any operations of
  -- other goroutines, lists exactly the nodes that the table has when the walk holds the lock of
  -- their shard; so no node that stays is missed, and none is listed that was never there.
  pub mem-ids_walk :
      (m : NodeMap) (gaps : List (List TableOp)) (q : ℕ)
      → IsTable max_total m
      → length gaps ≡ node_shard_count
      → Mem q (ids_walk max_total gaps 0 m)
        ↔ (has_node (run_ops max_total m (ops_before (node_slot q) gaps)) q ≡ true)
  unfolding has_node load shard_of
  mem-ids_walk m gaps q v all = (
    listed_cases _ q gaps 0 m (Bool-set _ _) (λ j i at h. elim (Bool-cases (node_slot q == i)) [
      | inl e ↦
          let here : i ≡ node_slot q = sym ((==_iff (node_slot q) i).0 e) in
          let round : j ≡ node_slot q = omega (arith, at, here) in rw here at (rw round at h)
      | inr e ↦
          let w = run_ops-IsTable m (ops_before j gaps) v in
          cc (w.placed.placed i q (λ p. cc ((==_iff (node_slot q) i).1 p)))
    ]),
    found_listed q gaps 0 (node_slot q) (node_slot q) m (rw all (node_slot-lt q)) (omega arith),
  )
