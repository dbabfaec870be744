-- ===== src/Server/Calls/Valid.antt =====
-- server.go: what every call keeps.
use beacon.Base.{ℕ, ◌≡◌, refl, Bool, not, ◌||◌, ◌==◌, Option, length, option_keep, if_keep}
use beacon.Wss.{WssServer}
use beacon.NodeMap.{claim_notify}
use beacon.NodeMap.Laws.{IsTable, claim_notify-IsTable}
use beacon.Server.{Server, Protocol, max_beacon_nodes, write_to_udp}
use beacon.Server.Punch.{SendError, notify_node, notify_min_interval}
use beacon.Server.Config.{
  registry_discovered, discovered_peers, enable_compat_wss, close_compat_wss, set_registry,
  set_advertise_addr, set_registry_admin_token, set_breaker_allow, set_require_punch_token,
  set_strict_gossip, set_authoritative_key_lookup, set_healthy, set_punch_whitelist,
}
use beacon.Server.Calls.{
  Setting, registry, advertise, admin_token, breaker, punch_token, strict, healthy, key_lookup,
  whitelist, apply_setting, Call, setting, notify, command, discovered, sockets_open, enable_bridge,
  close_bridge, bridge_moves, after_call,
}
use beacon.Server.Packet.Valid.{IsValid, send_punch_command-IsValid}

-- t differs from s in none of the parts that IsValid is about, but for the table.
record KeepsValid (s t : Server) : Type 0 where
  table : IsTable max_beacon_nodes s.nodes → IsTable max_beacon_nodes t.nodes
  rest : t ≡ record t {
    discover_rl = s.discover_rl;
    punch_rl = s.punch_rl;
    relay_rl = s.relay_rl;
    relay_queues = s.relay_queues;
    peer_nodes = s.peer_nodes;
    gossip_seen = s.gossip_seen;
    node_pub_keys = s.node_pub_keys;
    dst_nodes = s.dst_nodes;
  }

KeepsValid-IsValid : (s t : Server) → KeepsValid s t → IsValid s → IsValid t
KeepsValid-IsValid s t h v = rw h.rest (record {
  table = h.table v.table;
  discover_ok = v.discover_ok;
  punch_ok = v.punch_ok;
  relay_ok = v.relay_ok;
  routed = v.routed;
  covered = v.covered;
  pinned_once = v.pinned_once;
  wanted_once = v.wanted_once;
})

apply_setting-KeepsValid : (s : Server) (x : Setting) → KeepsValid s (apply_setting s x)
unfolding apply_setting set_registry set_advertise_addr set_registry_admin_token set_breaker_allow
    set_require_punch_token set_strict_gossip set_authoritative_key_lookup set_healthy
    set_punch_whitelist
apply_setting-KeepsValid s (registry addr) = record { table = λ v. v; rest = refl }
apply_setting-KeepsValid s (advertise addr) = record { table = λ v. v; rest = refl }
apply_setting-KeepsValid s (admin_token token) = record { table = λ v. v; rest = refl }
apply_setting-KeepsValid s (breaker fn) = record { table = λ v. v; rest = refl }
apply_setting-KeepsValid s (punch_token v) = record { table = λ v. v; rest = refl }
apply_setting-KeepsValid s (strict v) = record { table = λ v. v; rest = refl }
apply_setting-KeepsValid s (healthy ok) = record { table = λ v. v; rest = refl }
apply_setting-KeepsValid s (key_lookup fn) = record { table = λ v. v; rest = refl }
apply_setting-KeepsValid s (whitelist ips) = record { table = λ v. v; rest = refl }

notify_node-KeepsValid : (s : Server) (id now : ℕ) → KeepsValid s (notify_node s id now).0
unfolding notify_node write_to_udp
notify_node-KeepsValid s id now =
    let P = λ (r : Server × Option SendError). KeepsValid s r.0 in
    let c = claim_notify s.nodes id now notify_min_interval in
    let kept = λ (v : IsTable max_beacon_nodes s.nodes).
      claim_notify-IsTable max_beacon_nodes s.nodes v id now notify_min_interval in
    if_keep P (not s.listening) _ _ (record { table = λ v. v; rest = refl })
      (option_keep P c.1 _ _ (record { table = kept; rest = refl })
        (λ addr.
          if_keep P c.2 _ _ (record { table = kept; rest = refl })
            (record { table = kept; rest = refl })))

pub after_call-IsValid :
    (p : Protocol) (s : Server) (c : Call) → IsValid s → IsValid (after_call p s c)
unfolding after_call registry_discovered enable_compat_wss close_compat_wss
after_call-IsValid p s (setting x) v = KeepsValid-IsValid s _ (apply_setting-KeepsValid s x) v
after_call-IsValid p s (notify id now) v =
    KeepsValid-IsValid s _ (notify_node-KeepsValid s id now) v
after_call-IsValid p s (command id ip port) v = send_punch_command-IsValid p s id ip port v
after_call-IsValid p s (discovered resolve entries) v =
    KeepsValid-IsValid s _
      (if_keep (KeepsValid s) ((length s.registry_addr == 0) || (s.beacon_id == 0)) s
        (record s { peers = discovered_peers resolve s.beacon_id entries })
        (record { table = λ t. t; rest = refl }) (record { table = λ t. t; rest = refl }))
      v
after_call-IsValid p s sockets_open v =
    KeepsValid-IsValid s _ (record { table = λ t. t; rest = refl }) v
after_call-IsValid p s (enable_bridge look_up) v =
    option_keep (λ (r : Server × Bool). IsValid r.0) s.wss_server _ _
      (KeepsValid-IsValid s _ (record { table = λ t. t; rest = refl }) v) (λ w. v)
after_call-IsValid p s close_bridge v =
    option_keep (λ (r : Server × Option WssServer). IsValid r.0) s.wss_server _ _ v
      (λ w. KeepsValid-IsValid s _ (record { table = λ t. t; rest = refl }) v)
after_call-IsValid p s (bridge_moves f) v =
    KeepsValid-IsValid s _ (record { table = λ t. t; rest = refl }) v
