-- ===== src/Server/Packet/Laws.antt =====
-- server.go: what no datagram can do, whatever its bytes. Pinned keys and the gossip of strict mode.
use beacon.Base.{
  ℕ, ◌≡◌, ◌⊎◌, inl, inr, refl, ap, ◌∙◌, Bool, true, false, not, ◌&&◌, some, List, if◌then◌else◌,
  ltb, length, has, lookup, insert, lookup-insert, nat_key, bytes_key, arith, if_keep, option_keep,
  Assoc, take, drop,
}
use beacon.Net.{UdpAddr}
use beacon.NodeMap.{snapshot}
use beacon.Wire.{uint32}
use beacon.RateLimit.{RelaySourceKey}
use beacon.Server.{Server, Protocol, write_to_udp, breaker_open, beacon_punch, beacon_discover}
use beacon.Server.Discover.{pin_key, update_endpoint, discover_reply, handle_discover}
use beacon.Server.Punch.{
  punch_gate, send_punch_command, coordinate, verify_punch_grant, handle_punch_request,
}
use beacon.Server.Relay.{dispatch_relay, enqueue}
use beacon.Server.Gossip.{is_known_gossip_peer, handle_sync}
use beacon.Server.Packet.Cases.{packet_cases}
use beacon.Server.Packet.{handle_packet_from, relay_source}

-- the maps of the mesh, the pinned keys, and what tells whose gossip is taken
abbrev Maps : Type 0
Maps = Assoc ℕ UdpAddr × Assoc (List ℕ) ℕ × Assoc ℕ (List ℕ) × Bool × List UdpAddr

abbrev maps : Server → Maps
maps s = (s.peer_nodes, s.gossip_seen, s.node_pub_keys, s.strict_gossip, s.peers)

-- s and t agree on them
abbrev Alike : Server → Server → Type 0
Alike s t = maps t ≡ maps s

gate-Alike : (s : Server) (remote : UdpAddr) (now : ℕ) → Alike s (punch_gate s remote now).0
unfolding punch_gate
gate-Alike s remote now = ground arith

command-Alike :
    (p : Protocol) (s : Server) (id : ℕ) (ip : List ℕ) (port : ℕ)
    → Alike s (send_punch_command p s id ip port).0
unfolding send_punch_command write_to_udp
command-Alike p s id ip port = ground arith

coordinate-Alike :
    (p : Protocol) (s : Server) (requester target : ℕ) → Alike s (coordinate p s requester target)
unfolding coordinate
coordinate-Alike p s requester target =
    option_keep (Alike s) (snapshot s.nodes target) _ _ refl λ t.
      option_keep (Alike s) (snapshot s.nodes requester) _ _ refl
        λ r. command-Alike p _ target _ _ ∙ command-Alike p s requester _ _

punch-Alike :
    (p : Protocol) (verify : List ℕ → List ℕ → List ℕ → Bool) (s : Server) (d : List ℕ)
    (remote : UdpAddr) (now : ℕ)
    → Alike s (handle_punch_request p verify s d remote now)
unfolding handle_punch_request
punch-Alike p verify s d remote now =
    let g = punch_gate s remote now in
    let same = gate-Alike s remote now in
    if_keep (Alike s) (ltb (length d) 8) _ _ refl (
      if_keep (Alike s) (breaker_open s beacon_punch) _ _ refl (
        if_keep (Alike s) (not g.1) _ _ same (
          if_keep (Alike s)
            (g.0.require_punch_token
              && not (verify_punch_grant verify g.0 (drop 8 d) (uint32 d) (uint32 (drop 4 d)) now))
            _ _ same (coordinate-Alike p _ (uint32 d) (uint32 (drop 4 d)) ∙ same))))

relay-Alike :
    (s : Server) (d : List ℕ) (src : RelaySourceKey) (now : ℕ)
    → Alike s (dispatch_relay s d src now)
unfolding dispatch_relay enqueue
relay-Alike s d src now = ground arith

update_endpoint-Alike :
    (s : Server) (id : ℕ) (remote : UdpAddr) (now : ℕ) → Alike s (update_endpoint s id remote now).0
unfolding update_endpoint
update_endpoint-Alike s id remote now = ground arith

reply-Alike : (p : Protocol) (s : Server) (remote : UdpAddr) → Alike s (discover_reply p s remote)
unfolding discover_reply write_to_udp
reply-Alike p s remote = ground arith

sync-pins :
    (s : Server) (d : List ℕ) (remote : UdpAddr) (now : ℕ)
    → (handle_sync s d remote now).node_pub_keys ≡ s.node_pub_keys
unfolding handle_sync
sync-pins s d remote now = ground arith

sync-strict :
    (s : Server) (d : List ℕ) (remote : UdpAddr) (now : ℕ)
    → s.strict_gossip ≡ true
    → is_known_gossip_peer s remote ≡ false
    → let t = handle_sync s d remote now in
      (t.peer_nodes ≡ s.peer_nodes) × (t.gossip_seen ≡ s.gossip_seen)
unfolding handle_sync
sync-strict s d remote now strict h = ground arith

-- A discover keeps the mesh, and its pins are those of pin_key or the old ones.
abbrev Pinned : Server → ℕ → List ℕ → Server → Type 0
Pinned s id d t = Alike s t ⊎ Alike (pin_key s id d) t

pin_key-want :
    (s : Server) (id : ℕ) (d : List ℕ) (m : Assoc ℕ (Unit {0}))
    → Alike (pin_key s id d) (pin_key (record s { dst_nodes = m }) id d)
unfolding pin_key
pin_key-want s id d m = ground arith

discover-Pinned :
    (p : Protocol) (s : Server) (d : List ℕ) (remote : UdpAddr) (want_dest : Bool) (now : ℕ)
    → Pinned s (uint32 d) d (handle_discover p s d remote want_dest now)
unfolding handle_discover
discover-Pinned p s d remote want_dest now =
    let id = uint32 d in
    let s₁ : Server = if want_dest then record s { dst_nodes = insert id tt s.dst_nodes } else s in
    let pin : Alike (pin_key s id d) (pin_key s₁ id d) =
      if_keep (λ t. Alike (pin_key s id d) (pin_key t id d)) want_dest
        (record s { dst_nodes = insert id tt s.dst_nodes }) s
        (pin_key-want s id d (insert id tt s.dst_nodes)) refl in
    let r = update_endpoint (pin_key s₁ id d) id remote now in
    let moved = update_endpoint-Alike (pin_key s₁ id d) id remote now ∙ pin in
    if_keep (Pinned s id d) (ltb (length d) 4) _ _ (inl refl) (
      if_keep (Pinned s id d) (breaker_open s beacon_discover) _ _ (inl refl)
        (if_keep (Pinned s id d) r.1 _ _ (inr moved) (inr (reply-Alike p r.0 remote ∙ moved))))

-- What pin_key does: the first key of an id that has none.
lookup-pin_key :
    (s : Server) (id q : ℕ) (d k : List ℕ)
    → lookup q s.node_pub_keys ≡ some k
    → lookup q (pin_key s id d).node_pub_keys ≡ some k
unfolding pin_key
lookup-pin_key s id q d k h = ground (
  arith,
  h,
  lookup-insert id q (take 32 (drop 4 d)) s.node_pub_keys,
  ap (λ (n : ℕ). has n s.node_pub_keys) {x = id} {y = q},
)

pin_key-mesh :
    (s : Server) (id : ℕ) (d : List ℕ)
    → ((pin_key s id d).peer_nodes ≡ s.peer_nodes) × ((pin_key s id d).gossip_seen ≡ s.gossip_seen)
unfolding pin_key
pin_key-mesh s id d = ground arith

-- s and t take gossip from the same addresses
abbrev pub SameGate : Server → Server → Type 0
SameGate s t = (t.strict_gossip ≡ s.strict_gossip) × (t.peers ≡ s.peers)

pin_key-gate : (s : Server) (id : ℕ) (d : List ℕ) → SameGate s (pin_key s id d)
unfolding pin_key
pin_key-gate s id d = ground arith

sync-gate :
    (s : Server) (d : List ℕ) (remote : UdpAddr) (now : ℕ) → SameGate s (handle_sync s d remote now)
unfolding handle_sync
sync-gate s d remote now = ground arith

module _ (p : Protocol) (verify : List ℕ → List ℕ → List ℕ → Bool) where
  pub handle_packet_from-gate :
      (s : Server) (d : List ℕ) (remote : UdpAddr) (bridge_peer now : ℕ)
      → SameGate s (handle_packet_from p verify s d remote bridge_peer now)
  handle_packet_from-gate s d remote bridge_peer now =
      let P = SameGate s in
      let alike : (u v : Server) → P u → Alike u v → P v =
        λ u v h e. (ap (λ (m : Maps). m.3) e ∙ h.0, ap (λ (m : Maps). m.4) e ∙ h.1) in
      packet_cases p verify P s d remote bridge_peer now (refl, refl)
        (λ body want_dest. elim (discover-Pinned p s body remote want_dest now) [
          | inl e ↦ alike s (handle_discover p s body remote want_dest now) (refl, refl) e
          | inr e ↦
              alike (pin_key s (uint32 body) body) (handle_discover p s body remote want_dest now)
                (pin_key-gate s (uint32 body) body) e
        ])
        (λ body.
          alike s (handle_punch_request p verify s body remote now) (refl, refl)
            (punch-Alike p verify s body remote now))
        (λ body.
          alike s (dispatch_relay s body (relay_source remote bridge_peer) now) (refl, refl)
            (relay-Alike s body (relay_source remote bridge_peer) now))
        (λ body. sync-gate s body remote now)

  -- A pinned key is replaced by no datagram and no bridged frame.
  pub handle_packet_from_pinned :
      (s : Server) (d : List ℕ) (remote : UdpAddr) (bridge_peer now id : ℕ) (k : List ℕ)
      → lookup id s.node_pub_keys ≡ some k
      → lookup id (handle_packet_from p verify s d remote bridge_peer now).node_pub_keys ≡ some k
  handle_packet_from_pinned s d remote bridge_peer now id k h =
      let P = λ (u : Server). lookup id u.node_pub_keys ≡ some k in
      let alike : (u v : Server) → P u → Alike u v → P v =
        λ u v h e. rw (ap (λ (m : Maps). m.2) e) h in
      packet_cases p verify P s d remote bridge_peer now h
        (λ body want_dest. elim (discover-Pinned p s body remote want_dest now) [
          | inl e ↦ alike s (handle_discover p s body remote want_dest now) h e
          | inr e ↦
              alike (pin_key s (uint32 body) body) (handle_discover p s body remote want_dest now)
                (lookup-pin_key s (uint32 body) id body k h) e
        ])
        (λ body.
          alike s (handle_punch_request p verify s body remote now) h
            (punch-Alike p verify s body remote now))
        (λ body.
          alike s (dispatch_relay s body (relay_source remote bridge_peer) now) h
            (relay-Alike s body (relay_source remote bridge_peer) now))
        (λ body. rw (sync-pins s body remote now) h)

  -- In strict mode, whatever an address sends that is no configured peer's, the routes to other
  -- beacons and the record of their gossip stay as they are.
  pub handle_packet_from_strict :
      (s : Server) (d : List ℕ) (remote : UdpAddr) (bridge_peer now : ℕ)
      → s.strict_gossip ≡ true
      → is_known_gossip_peer s remote ≡ false
      → let t = handle_packet_from p verify s d remote bridge_peer now in
        (t.peer_nodes ≡ s.peer_nodes) × (t.gossip_seen ≡ s.gossip_seen)
  handle_packet_from_strict s d remote bridge_peer now strict h =
      let P = λ (u : Server). (u.peer_nodes ≡ s.peer_nodes) × (u.gossip_seen ≡ s.gossip_seen) in
      let alike : (u v : Server) → P u → Alike u v → P v =
        λ u v h e. (ap (λ (m : Maps). m.0) e ∙ h.0, ap (λ (m : Maps). m.1) e ∙ h.1) in
      packet_cases p verify P s d remote bridge_peer now (refl, refl)
        (λ body want_dest. elim (discover-Pinned p s body remote want_dest now) [
          | inl e ↦ alike s (handle_discover p s body remote want_dest now) (refl, refl) e
          | inr e ↦
              alike (pin_key s (uint32 body) body) (handle_discover p s body remote want_dest now)
                (pin_key-mesh s (uint32 body) body) e
        ])
        (λ body.
          alike s (handle_punch_request p verify s body remote now) (refl, refl)
            (punch-Alike p verify s body remote now))
        (λ body.
          alike s (dispatch_relay s body (relay_source remote bridge_peer) now) (refl, refl)
            (relay-Alike s body (relay_source remote bridge_peer) now))
        (λ body. sync-strict s body remote now strict h)
