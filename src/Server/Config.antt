-- ===== src/Server/Config.antt =====
-- server.go: the setters, the accessors, and the peer list that registryDiscover takes over.
use beacon.Base.{
  ℕ, Bool, true, false, ◌||◌, Option, none, some, List, [], ◌∷◌, ltb, ◌==◌, if◌then◌else◌, length,
  Assoc, insert, same_bytes, bytes_key,
}
use mathlib.Core.List.{reverse}
use beacon.Net.{UdpAddr, codes}
use beacon.NodeMap.{node_count}
use beacon.Wss.{WssServer, is_connected, new_wss, close_wss}
use beacon.Wss.Metrics.{Metrics, no_metrics, metrics}
use beacon.Server.{Server, Switch}

unfoldable pub set_registry : Server → List ℕ → Server
set_registry s addr = record s { registry_addr = addr }

unfoldable pub set_advertise_addr : Server → List ℕ → Server
set_advertise_addr s addr = record s { advertise_addr = addr }

unfoldable pub set_registry_admin_token : Server → List ℕ → Server
set_registry_admin_token s token = record s { registry_admin_token = token }

unfoldable pub set_breaker_allow : Server → Option (Switch → Bool) → Server
set_breaker_allow s fn = record s { breaker_allow = fn }

unfoldable pub set_require_punch_token : Server → Bool → Server
set_require_punch_token s v = record s { require_punch_token = v }

unfoldable pub set_strict_gossip : Server → Bool → Server
set_strict_gossip s v = record s { strict_gossip = v }

unfoldable pub set_authoritative_key_lookup : Server → Option (ℕ → Option (List ℕ)) → Server
set_authoritative_key_lookup s fn = record s { auth_key_lookup = fn }

unfoldable pub set_healthy : Server → Bool → Server
set_healthy s ok = record s { health_ok = ok }

abbrev is_space : ℕ → Bool
is_space c = (c == 0x20) || (c == 0x09) || (c == 0x0a) || (c == 0x0b) || (c == 0x0c) || (c == 0x0d)

unfoldable pub trim_left : List ℕ → List ℕ
trim_left [] = []
trim_left (c ∷ cs) = if is_space c then trim_left cs else c ∷ cs

-- strings.TrimSpace of ASCII text
unfoldable pub trim_space : List ℕ → List ℕ
trim_space cs = reverse (trim_left (reverse (trim_left cs)))

abbrev pub is_wildcard : List ℕ → Bool
is_wildcard ip = same_bytes ip (codes "*") || same_bytes ip (codes "all")

-- The loop of SetPunchWhitelist, over the map and the flag.
unfoldable pub read_whitelist :
    List (List ℕ) → Assoc (List ℕ) (Unit {0}) → Bool → Assoc (List ℕ) (Unit {0}) × Bool
read_whitelist [] m all = (m, all)
read_whitelist (ip ∷ ips) m all =
    let t = trim_space ip in
    let skip = (length t == 0) || is_wildcard t in
    read_whitelist ips (if skip then m else insert t tt m) (is_wildcard t || all)

unfoldable pub set_punch_whitelist : Server → List (List ℕ) → Server
set_punch_whitelist s ips =
    let r = read_whitelist ips [] false in
    record s { punch_whitelist = r.0; punch_whitelist_all = r.1 }

-- An entry of the registry's `beacons` that is a JSON object: `bid` and `baddr`.
pub record BeaconEntry : Type 0 where
  pub id : ℕ
  pub addr : List ℕ

-- `resolve` stands for net.ResolveUDPAddr.
unfoldable pub discovered_peers : (List ℕ → Option UdpAddr) → ℕ → List BeaconEntry → List UdpAddr
discovered_peers resolve self [] = []
discovered_peers resolve self (b ∷ bs) =
    let rest = discovered_peers resolve self bs in
    if (b.id == self) || (length b.addr == 0)
    then rest
    else elim (resolve b.addr) [ some a ↦ a ∷ rest | none ↦ rest ]

-- The end of registryDiscover. It is skipped with no registry address or for beacon 0.
unfoldable pub registry_discovered : (List ℕ → Option UdpAddr) → Server → List BeaconEntry → Server
registry_discovered resolve s entries =
    if (length s.registry_addr == 0) || (s.beacon_id == 0)
    then s
    else record s { peers = discovered_peers resolve s.beacon_id entries }

-- EnableCompatWSS, where the listener starts; `false` is the error of a second call.
unfoldable pub enable_compat_wss : Server → (ℕ → Option (List ℕ)) → Server × Bool
enable_compat_wss s look_up = elim s.wss_server [
  | some w ↦ (s, false)
  | none ↦ (record s { auth_key_lookup = some look_up; wss_server = some (new_wss 0) }, true)
]

-- CloseCompatWSS. The second result is the bridge that it has closed, if there was one.
unfoldable pub close_compat_wss : Server → Server × Option WssServer
close_compat_wss s = elim s.wss_server [
  | none ↦ (s, none)
  | some w ↦ (record s { wss_server = none }, some (close_wss w))
]

unfoldable pub wss_is_connected : Server → ℕ → Bool
wss_is_connected s id = elim s.wss_server [ none ↦ false | some w ↦ is_connected w id ]

unfoldable pub local_node_count : Server → ℕ
local_node_count s = node_count s.nodes

unfoldable pub peer_node_count : Server → ℕ
peer_node_count s = length s.peer_nodes

-- WSSMetrics: zero values without a bridge
unfoldable pub wss_metrics : Server → Metrics
wss_metrics s = elim s.wss_server [ none ↦ no_metrics | some w ↦ metrics w ]

-- the handler that ServeHealth installs for /healthz: status and body
unfoldable pub healthz : Server → ℕ × List ℕ
healthz s = (200, codes "ok")

-- the counters that relayStatsLoop logs at a tick: forwarded, dropped and not found, if one is not 0
unfoldable pub relay_stats : Server → Option (ℕ × ℕ × ℕ)
relay_stats s =
    if ltb 0 s.relay_forwarded || ltb 0 s.relay_dropped || ltb 0 s.relay_not_found
    then some (s.relay_forwarded, s.relay_dropped, s.relay_not_found)
    else none
