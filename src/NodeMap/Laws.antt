-- ===== src/NodeMap/Laws.antt =====
-- nodes_shard.go: what the operations of the node table do to it, over well-formed tables.
use beacon.Base.{
  ℕ, ◌+◌, ◌/◌, ◌≤◌, ◌<◌, ◌≡◌, inl, inr, ap, false, not, ◌&&◌, none, some, [], ltb, leb, ◌==◌,
  if◌then◌else◌, length, get_or, Assoc, insert, keep_if, nat_key, arith, Bool-cases, Option-cases,
  if_keep, option_keep, Bool, Option, length-insert, get_or-set, get_or-replicate, lt→ltb,
  length-retain,
}
use beacon.Base.Shards.{
  IsPlaced, shard_of, load, store, load-store, store-IsPlaced, load-sweep, sweep-IsPlaced,
  empty_shards-IsPlaced, empty_shards, get_or-sweep,
}
use beacon.Net.{UdpAddr}
use beacon.NodeMap.{
  NodeMap, BeaconNode, node_shard_count, node_slot, new_node_map, upsert, get, snapshot,
  claim_notify, is_fresh, reap_stale,
}

-- 64 maps, each id once and in its own map, and no map above its share of the cap.
pub record IsTable (max_total : ℕ) (m : NodeMap) : Type 0 where
  pub placed : IsPlaced node_slot node_shard_count m
  pub bounded : (i : ℕ) → length (get_or m i []) ≤ max_total / node_shard_count

pub node_slot-lt : (id : ℕ) → node_slot id < node_shard_count
unfolding node_slot
node_slot-lt id = omega arith

pub new_node_map-IsTable : (max_total : ℕ) → IsTable max_total new_node_map
unfolding new_node_map empty_shards
new_node_map-IsTable max_total = record {
  placed = empty_shards-IsPlaced node_slot node_shard_count;
  bounded = λ i. rw (get_or-replicate {A = Assoc ℕ BeaconNode} 64 i []) (omega arith);
}

store-bounded :
    (max_total id : ℕ) (n : BeaconNode) (m : NodeMap)
    → IsTable max_total m
    → (load node_slot id m ≡ none → length (shard_of node_slot id m) < max_total / node_shard_count)
    → (i : ℕ) → length (get_or (store node_slot id n m) i []) ≤ max_total / node_shard_count
unfolding store shard_of load
store-bounded max_total id n m v room i =
    rw
      (get_or-set m (node_slot id) i (insert id n (get_or m (node_slot id) [])) []
        (rw v.placed.width (node_slot-lt id)))
      (ground (
        arith,
        length-insert id n (get_or m (node_slot id) []),
        v.bounded (node_slot id),
        v.bounded i,
        room,
      ))

store-IsTable :
    (max_total id : ℕ) (n : BeaconNode) (m : NodeMap)
    → IsTable max_total m
    → (load node_slot id m ≡ none → length (shard_of node_slot id m) < max_total / node_shard_count)
    → IsTable max_total (store node_slot id n m)
store-IsTable max_total id n m v room = record {
  placed = store-IsPlaced node_slot node_shard_count m v.placed id n (node_slot-lt id);
  bounded = store-bounded max_total id n m v room;
}

module _ (max_total : ℕ) (m : NodeMap) (v : IsTable max_total m) where
  -- With a positive cap, upsert keeps the table well formed, so no shard outgrows its share of the
  -- cap.
  pub upsert-IsTable :
      (id : ℕ) (addr : UdpAddr) (now : ℕ)
      → 0 < max_total
      → IsTable max_total (upsert m id addr now max_total).0
  unfolding upsert
  upsert-IsTable id addr now h = elim (Option-cases (load node_slot id m)) [
    | inl e ↦
        rw (e, upsert)
          elim (Bool-cases
            (leb (max_total / node_shard_count) (length (shard_of node_slot id m)))) [
              | inl full ↦ rw (lt→ltb _ _ h, full) v
              | inr room ↦
                  rw (lt→ltb _ _ h, room) (store-IsTable max_total id _ m v (λ _. ground arith))
            ]
    | inr (n, e) ↦ rw (e, upsert) (store-IsTable max_total id _ m v (λ q. cc))
  ]

  get-store :
      (id q : ℕ) (n : BeaconNode)
      → load node_slot q (store node_slot id n m) ≡ (if id == q then some n else load node_slot q m)
  get-store id q n = load-store node_slot node_shard_count m v.placed id q n (node_slot-lt id)

  -- In a well-formed table, after an upsert the id leads to the new address unless the upsert
  -- reports that its map is full; every other id leads where it did.
  pub snapshot-upsert :
      (id q : ℕ) (addr : UdpAddr) (now : ℕ)
      → let r = upsert m id addr now max_total in
        snapshot r.0 q ≡ (if (id == q) && not r.2 then some addr else snapshot m q)
  unfolding snapshot upsert
  snapshot-upsert id q addr now = elim (Option-cases (load node_slot id m)) [
    | inl e ↦
        ground
          (arith, e, get-store id q (record { addr = addr; last_seen = now; last_notify = none }))
    | inr (n, e) ↦ ground (arith, e, get-store id q (record n { addr = addr; last_seen = now }))
  ]

  -- In a well-formed table, a reap keeps exactly the nodes that were seen at the threshold or
  -- later, each as it was.
  pub get-reap_stale :
      (threshold q : ℕ)
      → get (reap_stale m threshold).0 q ≡ keep_if (is_fresh threshold q) (get m q)
  unfolding get reap_stale
  get-reap_stale threshold q =
      load-sweep node_slot node_shard_count m v.placed (is_fresh threshold) q

  pub reap_stale-IsTable : (threshold : ℕ) → IsTable max_total (reap_stale m threshold).0
  unfolding reap_stale
  reap_stale-IsTable threshold = record {
    placed = sweep-IsPlaced node_slot node_shard_count m v.placed (is_fresh threshold);
    bounded = λ i.
        rw get_or-sweep
          (omega (arith, length-retain (is_fresh threshold) (get_or m i []), v.bounded i));
  }

  pub claim_notify-IsTable : (id now gap : ℕ) → IsTable max_total (claim_notify m id now gap).0
  unfolding claim_notify
  claim_notify-IsTable id now gap = elim (Option-cases (load node_slot id m)) [
    | inl e ↦ rw (e, claim_notify) v
    | inr (n, e) ↦
        let kept = store-IsTable max_total id (record n { last_notify = some now }) m v (λ q. cc) in
        rw (e, claim_notify)
          (option_keep (λ (r : NodeMap × Option UdpAddr × Bool). IsTable max_total r.0)
            n.last_notify _ _ kept
            (λ last.
              if_keep (λ (r : NodeMap × Option UdpAddr × Bool). IsTable max_total r.0)
                (ltb now (last + gap)) _ _ v kept))
  ]

  -- A claim of one node's notify leaves every address as it is, and tells exactly the ids that the
  -- table has from the others.
  pub snapshot-claim_notify :
      (id q now gap : ℕ)
      → let r = claim_notify m id now gap in (snapshot r.0 q ≡ snapshot m q) × (r.1 ≡ snapshot m id)
  unfolding snapshot claim_notify
  snapshot-claim_notify id q now gap = elim (Option-cases (load node_slot id m)) [
    | inl e ↦ ground (arith, e)
    | inr (n, e) ↦ ground (
      arith,
      e,
      get-store id q (record n { last_notify = some now }),
      ap (λ (i : ℕ). load node_slot i m) {x = id} {y = q},
    )
  ]

  -- In a well-formed table, once a claim has gone through, the next claim of the same node is
  -- throttled exactly if it comes before `gap` is over.
  pub claim_notify_again :
      (id now later gap : ℕ) (addr : UdpAddr)
      → (claim_notify m id now gap).1 ≡ some addr
      → (claim_notify m id now gap).2 ≡ false
      → let m' = (claim_notify m id now gap).0 in
        (claim_notify m' id later gap).2 ≡ ltb later (now + gap)
  unfolding claim_notify
  claim_notify_again id now later gap addr found passed =
      elim (Option-cases (load node_slot id m)) [
        | inl e ↦ ground (arith, e)
        | inr (n, e) ↦ ground (arith, e, get-store id id (record n { last_notify = some now }))
      ]
