-- ===== src/Server/Introduction.antt =====
-- server.go: handleDiscover and handlePunchRequest together: a node that has discovered is
-- introduced to a node that asks for it.
use beacon.Base.{
  ℕ, ◌%◌, ◌^◌, ◌≤◌, ◌≡◌, ◌≢◌, ap, ◌∙◌, Bool, true, false, not, ◌&&◌, some, List, [], ◌∷◌, ◌++◌,
  length, drop, nat_key, arith,
}
use beacon.Net.{UdpAddr}
use beacon.Wire.{uint32}
use beacon.NodeMap.{NodeMap, upsert, snapshot}
use beacon.NodeMap.Laws.{IsTable, snapshot-upsert, upsert-IsTable}
use beacon.RateLimit.{discover_allow}
use beacon.Server.{
  Server, Protocol, beacon_discover, beacon_punch, breaker_open, Datagram, write_to_udp,
  discover_min_interval, max_beacon_nodes,
}
use beacon.Server.Discover.{
  wire_ip, endpoint_message, pin_key, update_endpoint, discover_reply, handle_discover,
}
use beacon.Server.Punch.{verify_punch_grant, punch_gate, coordinate, handle_punch_request}
use beacon.Server.Punch.Laws.{gate-keeps, gate-grant, coordinate_sent}

-- A discover of the node is taken in: it is whole, its switch is closed, its limit lets it pass and
-- its shard has room.
pub record IsTaken (s : Server) (d : List ℕ) (remote : UdpAddr) (now : ℕ) : Type 0 where
  pub whole : 4 ≤ length d
  pub switch_closed : breaker_open s beacon_discover ≡ false
  pub in_budget : (discover_allow s.discover_rl (uint32 d) discover_min_interval now).1 ≡ true
  pub room : (upsert s.nodes (uint32 d) remote now max_beacon_nodes).2 ≡ false

-- A punch request gets as far as the commands: it is whole, its switch is closed, its limits let it
-- pass, it has a grant where one is needed, and the requester's shard has room.
pub record IsGranted (verify : List ℕ → List ℕ → List ℕ → Bool) (s : Server) (d : List ℕ)
    (remote : UdpAddr) (now : ℕ) : Type 0 where
  pub whole : 8 ≤ length d
  pub switch_closed : breaker_open s beacon_punch ≡ false
  pub in_budget : (punch_gate s remote now).1 ≡ true
  pub granted :
      (s.require_punch_token
        && not (verify_punch_grant verify s (drop 8 d) (uint32 d) (uint32 (drop 4 d)) now))
      ≡ false
  pub room : (upsert s.nodes (uint32 d) remote now max_beacon_nodes).2 ≡ false

discover_table :
    (p : Protocol) (s : Server) (d : List ℕ) (remote : UdpAddr) (want_dest : Bool) (now : ℕ)
    → IsTaken s d remote now
    → let t = handle_discover p s d remote want_dest now in
      (t.nodes ≡ (upsert s.nodes (uint32 d) remote now max_beacon_nodes).0)
      × (t.listening ≡ s.listening)
unfolding handle_discover update_endpoint pin_key discover_reply write_to_udp
discover_table p s d remote want_dest now h =
    ground (arith, h.whole, h.switch_closed, h.in_budget, h.room)

-- what the gate keeps
gate_listening :
    (s : Server) (remote : UdpAddr) (now : ℕ) → (punch_gate s remote now).0.listening ≡ s.listening
unfolding punch_gate
gate_listening s remote now = ground arith

module _ (p : Protocol) (verify : List ℕ → List ℕ → List ℕ → Bool) where
  abbrev admitted_request : Server → List ℕ → UdpAddr → ℕ → Server
  admitted_request s d remote now =
      let g = (punch_gate s remote now).0 in
      record g { nodes = (upsert g.nodes (uint32 d) remote now max_beacon_nodes).0 }

  request_coordinates :
      (s : Server) (d : List ℕ) (remote : UdpAddr) (now : ℕ)
      → IsGranted verify s d remote now
      → handle_punch_request p verify s d remote now
        ≡ coordinate p (admitted_request s d remote now) (uint32 d) (uint32 (drop 4 d))
  unfolding handle_punch_request
  request_coordinates s d remote now h =
      let g = (punch_gate s remote now).0 in
      let keeps = gate-keeps s remote now in
      let allowed : (g.require_punch_token
            && not (verify_punch_grant verify g (drop 8 d) (uint32 d) (uint32 (drop 4 d)) now))
          ≡ false =
        rw (keeps.2, gate-grant verify s remote now (drop 8 d) (uint32 d) (uint32 (drop 4 d)))
          h.granted in
      ground (arith, h.whole, h.switch_closed, h.in_budget, allowed)

  -- If a beacon that listens takes in a discover of one node, and then a granted punch request of
  -- another node for it, then the requester is told the endpoint that the discover came from, the
  -- target is told the endpoint that the request came from, and the request sends nothing else. The
  -- table is well formed, and both endpoints have a wire form.
  pub introduced :
      (s : Server) (hello d : List ℕ) (target_addr requester_addr : UdpAddr) (want_dest : Bool)
      (now later : ℕ) (t_ip r_ip : List ℕ)
      → IsTable max_beacon_nodes s.nodes
      → s.listening ≡ true
      → IsTaken s hello target_addr now
      → IsGranted verify
          (handle_discover p s hello target_addr want_dest now)
          d
          requester_addr
          later
      → uint32 (drop 4 d) ≡ uint32 hello
      → uint32 d ≢ uint32 hello
      → wire_ip target_addr.ip ≡ some t_ip
      → wire_ip requester_addr.ip ≡ some r_ip
      → let t = handle_discover p s hello target_addr want_dest now in
        (handle_punch_request p verify t d requester_addr later).sent
        ≡ t.sent
          ++ (requester_addr, endpoint_message p.punch_command t_ip (target_addr.port % 2 ^ 16))
            ∷ (target_addr, endpoint_message p.punch_command r_ip (requester_addr.port % 2 ^ 16))
            ∷ []
  introduced s hello d target_addr requester_addr want_dest now later t_ip r_ip v up taken granted
        asks other wt wr =
      let t = handle_discover p s hello target_addr want_dest now in
      let after = discover_table p s hello target_addr want_dest now taken in
      let g = (punch_gate t requester_addr later).0 in
      let u = admitted_request t d requester_addr later in
      let requester = uint32 d in
      let target = uint32 hello in
      let n₁ = (upsert s.nodes target target_addr now max_beacon_nodes).0 in
      let n₂ = (upsert n₁ requester requester_addr later max_beacon_nodes).0 in
      let keeps = gate-keeps t requester_addr later in
      let table : g.nodes ≡ n₁ = keeps.1 ∙ after.0 in
      let v₁ = upsert-IsTable max_beacon_nodes s.nodes v target target_addr now (omega arith) in
      let full : (upsert n₁ requester requester_addr later max_beacon_nodes).2 ≡ false =
        rw after.0 at granted.room in
      let named = snapshot-upsert max_beacon_nodes s.nodes v target target target_addr now in
      let moved =
        λ (q : ℕ). snapshot-upsert max_beacon_nodes n₁ v₁ requester q requester_addr later in
      let known_r : snapshot n₂ requester ≡ some requester_addr =
        ground (arith, moved requester, full) in
      let known_t : snapshot n₂ target ≡ some target_addr =
        ground (arith, moved target, named, taken.room, other) in
      let by_table =
        ap (λ (m : NodeMap). (upsert m requester requester_addr later max_beacon_nodes).0) table in
      ap (λ (x : Server). x.sent) (request_coordinates t d requester_addr later granted)
      ∙ coordinate_sent p u requester (uint32 (drop 4 d)) requester_addr target_addr r_ip t_ip
          (gate_listening t requester_addr later ∙ after.1 ∙ up)
          (ap (λ (m : NodeMap). snapshot m requester) by_table ∙ known_r)
          (ap (λ (q : ℕ). snapshot u.nodes q) asks
            ∙ ap (λ (m : NodeMap). snapshot m target) by_table
            ∙ known_t)
          wr wt
      ∙ ap
          (λ (sent : List Datagram).
            sent
            ++ (requester_addr, endpoint_message p.punch_command t_ip (target_addr.port % 2 ^ 16))
              ∷ (target_addr, endpoint_message p.punch_command r_ip (requester_addr.port % 2 ^ 16))
              ∷ [])
          keeps.0
