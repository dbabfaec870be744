-- ===== src/Server/Life/Strict.antt =====
-- server.go: a beacon in strict gossip mode over its whole life.
use beacon.Base.{
  ℕ, ◌-◌, ◌==◌, not, arith, ltb, has, bytes_key, nat_key, ◌≡◌, refl, ap, ◌∙◌, inl, inr, Bool, true,
  false, Option, List, [], ◌∷◌, All, option_keep, length, retain, if_keep, Option-cases,
}
use beacon.Net.{UdpAddr, addr_string}
use beacon.Server.{Server, Protocol, write_to_udp}
use beacon.Server.Gossip.{
  any_equal, is_known_gossip_peer, send_gossip, write_all, sweep_stale_gossip, stale_sources,
  gossip_peer_ttl,
}
use beacon.Server.Packet.Laws.{handle_packet_from-gate, handle_packet_from_strict}
use beacon.Server.Calls.{
  registry, advertise, admin_token, breaker, punch_token, strict, healthy, key_lookup, whitelist,
  apply_setting, Call, setting, notify, command, discovered, sockets_open, enable_bridge,
  close_bridge, bridge_moves, after_call, touches_peers,
}
use beacon.Server.Config.{
  enable_compat_wss, close_compat_wss, set_registry, set_advertise_addr, set_registry_admin_token,
  set_breaker_allow, set_require_punch_token, set_authoritative_key_lookup, set_healthy,
  set_punch_whitelist,
}
use beacon.Server.Punch.{SendError, notify_node, send_punch_command, notify_min_interval}
use beacon.NodeMap.{claim_notify, snapshot}
use beacon.Server.Discover.{wire_ip}
use beacon.Wss.{WssServer}
use beacon.Server.Reap.{sweep_limiters, forget_unknown, reap_stale_nodes}
use beacon.Server.Relay.{dequeue}
use beacon.Server.Worker.{
  Sockets, Batch, WorkerEvent, worker_round, process_job, shutdown, timer_fired, job_ready, route,
}
use beacon.Server.Life.{
  Kept, dequeue_frame, flush-Kept, carry-Kept, Step, packet, work, reap, gossip, call, after_step,
  after_steps,
}

-- Only these addresses' gossip is taken, and none has come.
abbrev IsAlone : List UdpAddr → Server → Type 0
IsAlone peers s = (s.strict_gossip ≡ true) × (s.peers ≡ peers) × (s.peer_nodes ≡ [])

Kept-IsAlone : (peers : List UdpAddr) (s t : Server) → Kept s t → IsAlone peers s → IsAlone peers t
Kept-IsAlone peers s t h a = rw h.rest a

dequeue-IsAlone :
    (peers : List UdpAddr) (s : Server) (i : ℕ) → IsAlone peers s → IsAlone peers (dequeue s i).0
dequeue-IsAlone peers s i a = rw (dequeue_frame s i) a

worker_round-IsAlone :
    (p : Protocol) (k : Sockets) (i : ℕ) (peers : List UdpAddr) (s : Server) (b : Batch)
    (e : WorkerEvent)
    → IsAlone peers s
    → IsAlone peers (worker_round p k i (s, b) e).0
unfolding worker_round process_job
worker_round-IsAlone p k i peers s b shutdown a = Kept-IsAlone peers s _ (flush-Kept k s b.msgs) a
worker_round-IsAlone p k i peers s b timer_fired a =
    Kept-IsAlone peers s _ (flush-Kept k s b.msgs) a
worker_round-IsAlone p k i peers s b (job_ready wss_ok) a = elim (Option-cases (dequeue s i).1) [
  | inl e ↦ rw (e, worker_round) a
  | inr (job, e) ↦
      rw (e, worker_round)
        (Kept-IsAlone peers (dequeue s i).0 _
          (carry-Kept p k (dequeue s i).0 b job wss_ok (route p (dequeue s i).0 job))
          (dequeue-IsAlone peers s i a))
]

write_all-IsAlone :
    (peers : List UdpAddr) (s : Server) (msg : List ℕ) (to : List UdpAddr)
    → IsAlone peers s
    → IsAlone peers (write_all s msg to)
unfolding write_all write_to_udp
write_all-IsAlone peers s msg [] a = a
write_all-IsAlone peers s msg (addr ∷ to) a = write_all-IsAlone peers _ msg to a

gossip-IsAlone :
    (p : Protocol) (peers : List UdpAddr) (s : Server)
    → IsAlone peers s
    → IsAlone peers (send_gossip p s)
unfolding send_gossip
gossip-IsAlone p peers s a = write_all-IsAlone peers s _ s.peers a

sweep-IsAlone :
    (peers : List UdpAddr) (s : Server) (cutoff : ℕ)
    → IsAlone peers s
    → IsAlone peers (sweep_stale_gossip s cutoff)
unfolding sweep_stale_gossip retain
sweep-IsAlone peers s cutoff a =
    let stale = stale_sources cutoff s.gossip_seen in
    let keep = λ (id : ℕ) (addr : UdpAddr). not (has (addr_string addr) stale) in
    let seen = retain (λ source last. not (ltb last cutoff)) s.gossip_seen in
    if_keep (IsAlone peers) (length stale == 0) (record s { gossip_seen = seen }) _ a
      (if_keep (IsAlone peers) (length (retain keep s.peer_nodes) == length s.peer_nodes)
        (record s { gossip_seen = seen })
        (record s { gossip_seen = seen; peer_nodes = retain keep s.peer_nodes }) a
        (a.0, a.1, ap (retain keep) a.2))

reap-IsAlone :
    (peers : List UdpAddr) (s : Server) (now : ℕ)
    → IsAlone peers s
    → IsAlone peers (reap_stale_nodes s now)
unfolding reap_stale_nodes forget_unknown sweep_limiters
reap-IsAlone peers s now a = sweep-IsAlone peers _ (now - gossip_peer_ttl) a

after_call-IsAlone :
    (p : Protocol) (peers : List UdpAddr) (s : Server) (c : Call)
    → touches_peers c ≡ false
    → IsAlone peers s
    → IsAlone peers (after_call p s c)
unfolding after_call apply_setting set_registry set_advertise_addr set_registry_admin_token
    set_breaker_allow set_require_punch_token set_authoritative_key_lookup set_healthy
    set_punch_whitelist notify_node send_punch_command write_to_udp enable_compat_wss
    close_compat_wss touches_peers
after_call-IsAlone p peers s (setting (registry addr)) f a = a
after_call-IsAlone p peers s (setting (advertise addr)) f a = a
after_call-IsAlone p peers s (setting (admin_token token)) f a = a
after_call-IsAlone p peers s (setting (breaker fn)) f a = a
after_call-IsAlone p peers s (setting (punch_token v)) f a = a
after_call-IsAlone p peers s (setting (strict v)) f a = absurd (ground (arith, f))
after_call-IsAlone p peers s (setting (healthy ok)) f a = a
after_call-IsAlone p peers s (setting (key_lookup fn)) f a = a
after_call-IsAlone p peers s (setting (whitelist ips)) f a = a
after_call-IsAlone p peers s (notify id now) f a =
    let P = λ (r : Server × Option SendError). IsAlone peers r.0 in
    let c = claim_notify s.nodes id now notify_min_interval in
    if_keep P (not s.listening) _ _ a (option_keep P c.1 _ _ a (λ addr. if_keep P c.2 _ _ a a))
after_call-IsAlone p peers s (command id ip port) f a =
    let P = λ (r : Server × Option SendError). IsAlone peers r.0 in
    if_keep P s.listening _ _
      (option_keep P (snapshot s.nodes id) _ _ a
        (λ addr. option_keep P (wire_ip ip) _ _ a (λ w. a)))
      a
after_call-IsAlone p peers s (discovered resolve entries) f a = absurd (ground (arith, f))
after_call-IsAlone p peers s sockets_open f a = a
after_call-IsAlone p peers s (enable_bridge look_up) f a =
    option_keep (λ (r : Server × Bool). IsAlone peers r.0) s.wss_server _ _ a (λ w. a)
after_call-IsAlone p peers s close_bridge f a =
    option_keep (λ (r : Server × Option WssServer). IsAlone peers r.0) s.wss_server _ _ a (λ w. a)
after_call-IsAlone p peers s (bridge_moves g) f a = a

-- a datagram comes from none of these addresses, and a call leaves the peers and the mode
abbrev pub IsForeign : List UdpAddr → Step → Type 0
IsForeign peers (packet d remote bridge_peer now) = any_equal peers remote ≡ false
IsForeign peers (call c) = touches_peers c ≡ false
IsForeign peers _ = Unit

module _ (p : Protocol) (k : Sockets) (verify : List ℕ → List ℕ → List ℕ → Bool) where
  step-IsAlone :
      (peers : List UdpAddr) (s : Server) (e : Step)
      → IsForeign peers e
      → IsAlone peers s
      → IsAlone peers (after_step p k verify s e)
  unfolding after_step is_known_gossip_peer
  step-IsAlone peers s (packet d remote bridge_peer now) f a =
      let known = ap (λ ps. any_equal ps remote) a.1 ∙ f in
      let gate = handle_packet_from-gate p verify s d remote bridge_peer now in
      (
        gate.0 ∙ a.0,
        gate.1 ∙ a.1,
        (handle_packet_from_strict p verify s d remote bridge_peer now a.0 known).0 ∙ a.2,
      )
  step-IsAlone peers s (work i b e) f a = worker_round-IsAlone p k i peers s b e a
  step-IsAlone peers s (reap now) f a = reap-IsAlone peers s now a
  step-IsAlone peers s gossip f a = gossip-IsAlone p peers s a
  step-IsAlone peers s (call c) f a = after_call-IsAlone p peers s c f a

  steps-IsAlone :
      (peers : List UdpAddr) (s : Server) (es : List Step)
      → All (IsForeign peers) es
      → IsAlone peers s
      → IsAlone peers (after_steps p k verify s es)
  unfolding after_steps
  steps-IsAlone peers s [] f a = a
  steps-IsAlone peers s (e ∷ es) f a =
      steps-IsAlone peers (after_step p k verify s e) es f.1 (step-IsAlone peers s e f.0 a)

  -- In strict gossip mode, a beacon that knows no route to another beacon learns none from any
  -- steps whose datagrams come from outside its peer set and whose calls set neither the mode nor
  -- the peers.
  pub no_foreign_routes :
      (s : Server) (es : List Step)
      → s.strict_gossip ≡ true
      → s.peer_nodes ≡ []
      → All (IsForeign s.peers) es
      → (after_steps p k verify s es).peer_nodes ≡ []
  no_foreign_routes s es on empty f = (steps-IsAlone s.peers s es f (on, refl, empty)).2
