-- ===== src/Server/Discover.antt =====
-- server.go: handleDiscover, and the address form that discover replies and punch commands share.
pub mod Laws
use beacon.Base.{
  ℕ, ◌+◌, ◌%◌, ◌^◌, Bool, false, Option, none, some, List, ◌∷◌, ◌++◌, ltb, leb, if◌then◌else◌,
  length, take, drop, has, insert, nat_key,
}
use beacon.Net.{UdpAddr, to4, to16}
use beacon.Wire.{put_uint16, uint32}
use beacon.NodeMap.{upsert}
use beacon.RateLimit.{discover_allow}
use beacon.Server.{
  Server, Protocol, beacon_discover, breaker_open, write_to_udp, discover_min_interval,
  max_beacon_nodes, public_key_size,
}

-- `ip := x.To4(); if ip == nil { ip = x.To16() }`
unfoldable pub wire_ip : List ℕ → Option (List ℕ)
wire_ip ip = elim (to4 ip) [ some v4 ↦ some v4 | none ↦ to16 ip ]

-- [type(1)][iplen(1)][IP(4 or 16)][port(2)]
unfoldable pub endpoint_message : ℕ → List ℕ → ℕ → List ℕ
endpoint_message msg_type ip port =
    msg_type ∷ (length ip % 256) ∷ (ip ++ put_uint16 (port % 2 ^ 16))

-- nodePubKeys.LoadOrStore: the first key stays.
unfoldable pub pin_key : Server → ℕ → List ℕ → Server
pin_key s id d =
    if leb (4 + public_key_size) (length d)
    then if has id s.node_pub_keys
      then s
      else record s { node_pub_keys = insert id (take public_key_size (drop 4 d)) s.node_pub_keys }
    else s

-- the rate-limited endpoint update; `true` if the shard is at capacity
unfoldable pub update_endpoint : Server → ℕ → UdpAddr → ℕ → Server × Bool
update_endpoint s id remote now =
    let r = discover_allow s.discover_rl id discover_min_interval now in
    let s' = record s { discover_rl = r.0 } in
    let u = upsert s.nodes id remote now max_beacon_nodes in
    if r.1 then (record s' { nodes = u.0 }, u.2) else (s', false)

module _ (p : Protocol) where
  unfoldable pub discover_reply : Server → UdpAddr → Server
  discover_reply s remote = elim (wire_ip remote.ip) [
    | none ↦ s
    | some ip ↦
        if s.listening
        then write_to_udp s (endpoint_message p.discover_reply ip remote.port) remote
        else s
  ]

  unfoldable pub handle_discover : Server → List ℕ → UdpAddr → Bool → ℕ → Server
  handle_discover s d remote want_dest now =
      if ltb (length d) 4
      then s
      else if breaker_open s beacon_discover
      then s
      else let id = uint32 d in
        let s₁ = if want_dest then record s { dst_nodes = insert id tt s.dst_nodes } else s in
        let r = update_endpoint (pin_key s₁ id d) id remote now in
        if r.1 then r.0 else discover_reply r.0 remote
