-- ===== src/Server/Gossip/Laws.antt =====
-- server.go: the sync message round trip, and what handleSync and sweepStaleGossip do to the routes.
use beacon.Base.{
  ℕ, zero, suc, ◌+◌, ◌*◌, ◌^◌, ◌≤◌, ◌<◌, ◌≡◌, inl, inr, refl, sym, ap, Bool, true, false, not, ◌&&◌,
  some, List, [], ◌∷◌, ◌==◌, ltb, if◌then◌else◌, length, take, has, is_some, keep_if, Assoc, lookup,
  insert, retain, Unique, All, arith, Bool-cases, Option-cases, nat_key, bytes_key, lookup-insert,
  insert-Unique, lookup-retain, retain-Unique, length-take, retain_all, same_bytes_refl, ==_iff,
}
use beacon.Net.{UdpAddr, addr_string}
use beacon.NodeMap.{NodeMap, has_node}
use beacon.Wire.{uint16, uint32, put_uint16, put_uint32}
use beacon.Server.{Server}
use beacon.Server.Gossip.{
  put_ids, max_gossip_ids, cap_ids, sync_body, get_ids, parse_sync, same_endpoint, publish,
  next_routes, handle_sync, is_known_gossip_peer, stale_sources, sweep_stale_gossip,
}

length-put_ids : (ids : List ℕ) → length (put_ids ids) ≡ 4 * length ids
unfolding put_ids put_uint32
length-put_ids [] = refl
length-put_ids (id ∷ ids) = omega (arith, length-put_ids ids)

get_ids-put_ids :
    (ids : List ℕ) → All (λ id. id < 2 ^ 32) ids → get_ids (length ids) (put_ids ids) ≡ ids
unfolding get_ids put_ids put_uint32 uint32
get_ids-put_ids [] h = refl
get_ids-put_ids (id ∷ ids) h = ground (arith, get_ids-put_ids ids h.1)

length-sync_body :
    (beacon_id : ℕ) (ids : List ℕ) → length (sync_body beacon_id ids) ≡ 6 + 4 * length ids
unfolding sync_body put_uint32 put_uint16
length-sync_body beacon_id ids = omega (arith, length-put_ids ids)

-- A sync message carries its node ids, of at most 65535, to the beacon that reads it.
pub parse_sync-sync_body :
    (beacon_id : ℕ) (ids : List ℕ)
    → length ids ≤ max_gossip_ids
    → All (λ id. id < 2 ^ 32) ids
    → parse_sync (sync_body beacon_id ids) ≡ some ids
unfolding parse_sync sync_body put_uint32 put_uint16 uint16
parse_sync-sync_body beacon_id ids h small =
    ground (arith, length-put_ids ids, get_ids-put_ids ids small)

take-All :
    (n : ℕ) (ids : List ℕ) → All (λ id. id < 2 ^ 32) ids → All (λ id. id < 2 ^ 32) (take n ids)
take-All zero ids h = tt
take-All (suc n) [] h = tt
take-All (suc n) (id ∷ ids) h = (h.0, take-All n ids h.1)

cap_ids_lem :
    (ids : List ℕ)
    → All (λ id. id < 2 ^ 32) ids
    → (length (cap_ids ids) ≤ max_gossip_ids) × All (λ id. id < 2 ^ 32) (cap_ids ids)
unfolding cap_ids
cap_ids_lem ids small = elim (Bool-cases (ltb max_gossip_ids (length ids))) [
  | inl e ↦
      rw (e, cap_ids)
        (omega (arith, length-take max_gossip_ids ids), take-All max_gossip_ids ids small)
  | inr e ↦ rw (e, cap_ids) (ground arith, small)
]

unfoldable pub contains : ℕ → List ℕ → Bool
contains id [] = false
contains id (j ∷ js) = if j == id then true else contains id js

module _ (nodes : NodeMap) (remote : UdpAddr) where
  publish-Unique :
      (ids : List ℕ) (next : Assoc ℕ UdpAddr) → Unique next → Unique (publish nodes remote ids next)
  unfolding publish
  publish-Unique [] next u = u
  publish-Unique (id ∷ ids) next u =
      publish-Unique ids _ (ground (arith, insert-Unique id remote next u))

  lookup-publish :
      (ids : List ℕ) (next : Assoc ℕ UdpAddr) (q : ℕ)
      → lookup q (publish nodes remote ids next)
        ≡ (if contains q ids && not (has_node nodes q) then some remote else lookup q next)
  unfolding publish contains
  lookup-publish [] next q = refl
  lookup-publish (id ∷ ids) next q =
      rw (lookup-publish ids (if has_node nodes id then next else insert id remote next) q)
        (ground (arith, lookup-insert id q remote next, ap (has_node nodes) {x = id} {y = q}))

  -- After a sync, an id leads to the sender if the message lists it and this beacon does not have
  -- the node itself; any other id keeps its route unless that led to the sender.
  pub lookup-next_routes :
      (ids : List ℕ) (cur : Assoc ℕ UdpAddr) (q : ℕ)
      → Unique cur
      → lookup q (next_routes nodes remote ids cur) ≡ (
          if contains q ids && not (has_node nodes q)
          then some remote
          else keep_if (λ addr. not (same_endpoint addr remote)) (lookup q cur))
  unfolding next_routes
  lookup-next_routes ids cur q u = rw (
    lookup-publish ids (retain (λ id addr. not (same_endpoint addr remote)) cur) q,
    lookup-retain (λ (id : ℕ) (addr : UdpAddr). not (same_endpoint addr remote)) q cur u,
  )

  next_routes-Unique :
      (ids : List ℕ) (cur : Assoc ℕ UdpAddr)
      → Unique cur
      → Unique (next_routes nodes remote ids cur)
  unfolding next_routes
  next_routes-Unique ids cur u = publish-Unique ids _ (retain-Unique _ cur u)

-- The gossip of one beacon, read by another that knows the sender or is not strict: the message of
-- a beacon with the given 32-bit ids makes each of the first 65535 of them lead to the sender,
-- unless the reader has the node itself. Every other route stays, but for those that led to the
-- sender.
pub handle_sync-sync_body :
    (s : Server) (beacon_id : ℕ) (ids : List ℕ) (remote : UdpAddr) (now q : ℕ)
    → All (λ id. id < 2 ^ 32) ids
    → Unique s.peer_nodes
    → (s.strict_gossip ≡ true → is_known_gossip_peer s remote ≡ true)
    → lookup q (handle_sync s (sync_body beacon_id (cap_ids ids)) remote now).peer_nodes ≡ (
        if contains q (cap_ids ids) && not (has_node s.nodes q)
        then some remote
        else keep_if (λ addr. not (same_endpoint addr remote)) (lookup q s.peer_nodes))
unfolding handle_sync
handle_sync-sync_body s beacon_id ids remote now q small u known =
    let c = cap_ids_lem ids small in
    let parsed = parse_sync-sync_body beacon_id (cap_ids ids) c.0 c.1 in
    ground (
      arith,
      parsed,
      length-sync_body beacon_id (cap_ids ids),
      lookup-next_routes s.nodes remote (cap_ids ids) s.peer_nodes q u,
    )

-- Each route leads to a source whose last sync is on record, so that it can expire.
pub record IsCovered (peer_nodes : Assoc ℕ UdpAddr) (gossip_seen : Assoc (List ℕ) ℕ) : Type 0 where
  pub routes : Unique peer_nodes
  pub sources : Unique gossip_seen
  pub seen :
      (id : ℕ) (addr : UdpAddr)
      → lookup id peer_nodes ≡ some addr
      → has (addr_string addr) gossip_seen ≡ true

abbrev pub CoveredRoutes : Server → Type 0
CoveredRoutes s = IsCovered s.peer_nodes s.gossip_seen

pub handle_sync_cases :
    (P : Server → Type 0) (s : Server) (d : List ℕ) (remote : UdpAddr) (now : ℕ)
    → P s
    → ((ids : List ℕ)
        → P (record s {
          peer_nodes = next_routes s.nodes remote ids s.peer_nodes;
          gossip_seen = insert (addr_string remote) now s.gossip_seen;
        }))
    → P (handle_sync s d remote now)
unfolding handle_sync
handle_sync_cases P s d remote now keep f = elim (Bool-cases (ltb (length d) 6)) [
  | inl e ↦ rw (e, handle_sync) keep
  | inr whole ↦ elim (Bool-cases (s.strict_gossip && not (is_known_gossip_peer s remote))) [
    | inl e ↦ rw (whole, e, handle_sync) keep
    | inr open_gate ↦ elim (Option-cases (parse_sync d)) [
      | inl e ↦ rw (whole, open_gate, e, handle_sync) keep
      | inr (ids, e) ↦ rw (whole, open_gate, e, handle_sync) (f ids)
    ]
  ]
]

pub handle_sync-IsCovered :
    (s : Server) (d : List ℕ) (remote : UdpAddr) (now : ℕ)
    → CoveredRoutes s
    → CoveredRoutes (handle_sync s d remote now)
handle_sync-IsCovered s d remote now v = handle_sync_cases CoveredRoutes s d remote now v λ ids.
    record {
      routes = next_routes-Unique s.nodes remote ids s.peer_nodes v.routes;
      sources = insert-Unique (addr_string remote) now s.gossip_seen v.sources;
      seen = λ id addr h.
          let new = lookup-insert (addr_string remote) (addr_string addr) now s.gossip_seen in
          let old = lookup-next_routes s.nodes remote ids s.peer_nodes id v.routes in
          ground (arith, new, old, h, v.seen id addr, same_bytes_refl (addr_string addr));
    }

-- the source of a route has not been heard since the cutoff
abbrev pub silent : Server → ℕ → UdpAddr → Bool
silent s cutoff addr =
    is_some (keep_if (λ last. ltb last cutoff) (lookup (addr_string addr) s.gossip_seen))

retain-true : (m : Assoc ℕ UdpAddr) → retain (λ id addr. true) m ≡ m
unfolding retain
retain-true [] = refl
retain-true ((id, a) ∷ m) = ap (◌∷◌ (id, a)) (retain-true m)

length-eq-zero : (m : Assoc (List ℕ) ℕ) → (length m == 0) ≡ true → m ≡ []
length-eq-zero [] h = refl
length-eq-zero (e ∷ m) h = absurd (ground arith)

-- Both early returns of the sweep leave what its loop would give.
sweep-routes :
    (s : Server) (cutoff : ℕ)
    → (sweep_stale_gossip s cutoff).peer_nodes
      ≡ retain
          (λ id addr. not (has (addr_string addr) (stale_sources cutoff s.gossip_seen)))
          s.peer_nodes
unfolding sweep_stale_gossip lookup
sweep-routes s cutoff =
    let stale = stale_sources cutoff s.gossip_seen in
    let next : Assoc ℕ UdpAddr =
      retain (λ id addr. not (has (addr_string addr) stale)) s.peer_nodes in
    elim (Bool-cases (length stale == 0)) [
      | inl e ↦ rw (length-eq-zero stale e) (sym (retain-true s.peer_nodes))
      | inr e ↦ elim (Bool-cases (length next == length s.peer_nodes)) [
        | inl l ↦ rw (e, l, sweep_stale_gossip) (sym (retain_all _ s.peer_nodes ((==_iff _ _).0 l)))
        | inr l ↦ rw (e, l, sweep_stale_gossip)
      ]
    ]

sweep-seen :
    (s : Server) (cutoff : ℕ)
    → (sweep_stale_gossip s cutoff).gossip_seen
      ≡ retain (λ source last. not (ltb last cutoff)) s.gossip_seen
unfolding sweep_stale_gossip
sweep-seen s cutoff = ground arith

-- If each route's source is on record, the sweep withdraws exactly the routes to sources that have
-- been silent since the cutoff.
pub lookup-sweep_stale_gossip :
    (s : Server) (cutoff q : ℕ)
    → CoveredRoutes s
    → lookup q (sweep_stale_gossip s cutoff).peer_nodes
      ≡ keep_if (λ addr. not (silent s cutoff addr)) (lookup q s.peer_nodes)
unfolding stale_sources
lookup-sweep_stale_gossip s cutoff q v = rw (sweep-routes s cutoff) (
    rw
      (lookup-retain
        (λ (id : ℕ) (addr : UdpAddr).
          not (has (addr_string addr) (stale_sources cutoff s.gossip_seen)))
        q s.peer_nodes v.routes)
      elim (Option-cases (lookup q s.peer_nodes)) [
        | inl e ↦ rw e
        | inr (a, e) ↦ rw e (
            ground (
              arith,
              lookup-retain (λ (source : List ℕ) (last : ℕ). ltb last cutoff) (addr_string a)
                  s.gossip_seen v.sources,
            ))
      ])

pub sweep_stale_gossip-IsCovered :
    (s : Server) (cutoff : ℕ) → CoveredRoutes s → CoveredRoutes (sweep_stale_gossip s cutoff)
sweep_stale_gossip-IsCovered s cutoff v = record {
  routes = rw (sweep-routes s cutoff) (retain-Unique _ s.peer_nodes v.routes);
  sources = rw (sweep-seen s cutoff) (retain-Unique _ s.gossip_seen v.sources);
  seen = λ id addr h. rw (sweep-seen s cutoff) (
      ground (
        arith,
        h,
        lookup-sweep_stale_gossip s cutoff id v,
        v.seen id addr,
        lookup-retain (λ (source : List ℕ) (last : ℕ). not (ltb last cutoff)) (addr_string addr)
            s.gossip_seen v.sources,
      ));
}
