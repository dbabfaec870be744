-- ===== src/Server/Gossip.antt =====
-- server.go: the peer mesh. sendGossip, handleSync and its peer-set gate, and sweepStaleGossip.
-- A map that is copied on write is the new map; the lock of the writers makes each a step.
pub mod Laws
use beacon.Base.{
  ℕ, zero, suc, ◌+◌, ◌*◌, ◌-◌, Bool, true, false, not, ◌&&◌, Option, none, some, List, [], ◌∷◌,
  ◌++◌, ltb, ◌==◌, if◌then◌else◌, length, take, drop, Assoc, has, lookup, insert, retain, nat_key,
  bytes_key,
}
use beacon.Net.{UdpAddr, ip_equal, addr_string}
use beacon.Wire.{put_uint16, put_uint32, uint16, uint32}
use beacon.NodeMap.{NodeMap, node_ids, has_node}
use beacon.RateLimit.{second}
use beacon.Server.{Server, Protocol, write_to_udp}

unfoldable pub put_ids : List ℕ → List ℕ
put_ids [] = []
put_ids (id ∷ ids) = put_uint32 id ++ put_ids ids

-- `if len(nodeIDs) > 65535 { nodeIDs = nodeIDs[:65535] }`
abbrev pub max_gossip_ids : ℕ
max_gossip_ids = 65535

unfoldable pub cap_ids : List ℕ → List ℕ
cap_ids ids = if ltb max_gossip_ids (length ids) then take max_gossip_ids ids else ids

-- the body behind the message type: [beaconID(4)][nodeCount(2)][nodeID(4)...]
unfoldable pub sync_body : ℕ → List ℕ → List ℕ
sync_body beacon_id ids = put_uint32 beacon_id ++ (put_uint16 (length ids) ++ put_ids ids)

unfoldable pub write_all : Server → List ℕ → List UdpAddr → Server
write_all s msg [] = s
write_all s msg (peer ∷ peers) = write_all (write_to_udp s msg peer) msg peers

unfoldable pub send_gossip : Protocol → Server → Server
send_gossip p s = write_all s (p.sync ∷ sync_body s.beacon_id (cap_ids (node_ids s.nodes))) s.peers

unfoldable pub any_equal : List UdpAddr → UdpAddr → Bool
any_equal [] remote = false
any_equal (p ∷ ps) remote = if ip_equal p.ip remote.ip then true else any_equal ps remote

-- isKnownGossipPeer, of an address that is not nil
unfoldable pub is_known_gossip_peer : Server → UdpAddr → Bool
is_known_gossip_peer s remote = any_equal s.peers remote

unfoldable pub get_ids : ℕ → List ℕ → List ℕ
get_ids zero d = []
get_ids (suc n) d = uint32 d ∷ get_ids n (drop 4 d)

-- The node ids of a message of at least six bytes, unless it is shorter than its count says.
unfoldable pub parse_sync : List ℕ → Option (List ℕ)
parse_sync d =
    let count = uint16 (drop 4 d) in
    if ltb (length d) (6 + 4 * count) then none else some (get_ids count (drop 6 d))

-- `addr.IP.Equal(remote.IP) && addr.Port == remote.Port`
abbrev pub same_endpoint : UdpAddr → UdpAddr → Bool
same_endpoint a b = ip_equal a.ip b.ip && (a.port == b.port)

-- the loop over nodeIDs
unfoldable pub publish : NodeMap → UdpAddr → List ℕ → Assoc ℕ UdpAddr → Assoc ℕ UdpAddr
publish nodes remote [] next = next
publish nodes remote (id ∷ ids) next =
    publish nodes remote ids (if has_node nodes id then next else insert id remote next)

-- both loops
unfoldable pub next_routes : NodeMap → UdpAddr → List ℕ → Assoc ℕ UdpAddr → Assoc ℕ UdpAddr
next_routes nodes remote ids cur =
    publish nodes remote ids (retain (λ id addr. not (same_endpoint addr remote)) cur)

unfoldable pub handle_sync : Server → List ℕ → UdpAddr → ℕ → Server
handle_sync s d remote now =
    if ltb (length d) 6
    then s
    else if s.strict_gossip && not (is_known_gossip_peer s remote)
    then s
    else elim (parse_sync d) [
      | none ↦ s
      | some ids ↦ record s {
        peer_nodes = next_routes s.nodes remote ids s.peer_nodes;
        gossip_seen = insert (addr_string remote) now s.gossip_seen;
      }
    ]

abbrev pub gossip_peer_ttl : ℕ
gossip_peer_ttl = 90 * second

-- the sources whose last sync is before the cutoff
unfoldable pub stale_sources : ℕ → Assoc (List ℕ) ℕ → Assoc (List ℕ) ℕ
stale_sources cutoff seen = retain (λ source last. ltb last cutoff) seen

unfoldable pub sweep_stale_gossip : Server → ℕ → Server
sweep_stale_gossip s cutoff =
    let stale = stale_sources cutoff s.gossip_seen in
    let s' = record s {
      gossip_seen = retain (λ source last. not (ltb last cutoff)) s.gossip_seen;
    } in
    if length stale == 0
    then s'
    else let next = retain (λ id addr. not (has (addr_string addr) stale)) s.peer_nodes in
      if length next == length s.peer_nodes then s' else record s' { peer_nodes = next }
