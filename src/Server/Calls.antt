-- ===== src/Server/Calls.antt =====
-- server.go: what the program around a beacon calls, and what its other goroutines do to the state
-- beside the handlers.
pub mod Valid
use beacon.Base.{ℕ, Bool, true, false, Option, none, some, List}
use beacon.Net.{UdpAddr}
use beacon.Wss.{WssServer}
use beacon.Server.{Server, Protocol, Switch}
use beacon.Server.Punch.{send_punch_command, notify_node}
use beacon.Server.Config.{
  BeaconEntry, set_registry, set_advertise_addr, set_registry_admin_token, set_breaker_allow,
  set_require_punch_token, set_strict_gossip, set_authoritative_key_lookup, set_healthy,
  set_punch_whitelist, registry_discovered, enable_compat_wss, close_compat_wss,
}

-- a setter, with its argument
pub data Setting : Type 0 where
  registry advertise admin_token : List ℕ → Setting
  breaker : Option (Switch → Bool) → Setting
  punch_token strict healthy : Bool → Setting
  key_lookup : Option (ℕ → Option (List ℕ)) → Setting
  whitelist : List (List ℕ) → Setting

unfoldable pub apply_setting : Server → Setting → Server
apply_setting s (registry addr) = set_registry s addr
apply_setting s (advertise addr) = set_advertise_addr s addr
apply_setting s (admin_token token) = set_registry_admin_token s token
apply_setting s (breaker fn) = set_breaker_allow s fn
apply_setting s (punch_token v) = set_require_punch_token s v
apply_setting s (strict v) = set_strict_gossip s v
apply_setting s (healthy ok) = set_healthy s ok
apply_setting s (key_lookup fn) = set_authoritative_key_lookup s fn
apply_setting s (whitelist ips) = set_punch_whitelist s ips

-- A setter, NotifyNode at a time, SendPunchCommand, the end of registryDiscover, the sockets of
-- ListenAndServe, EnableCompatWSS, CloseCompatWSS, or any step of the bridge.
pub data Call : Type 0 where
  setting : Setting → Call
  notify : ℕ → ℕ → Call
  command : ℕ → List ℕ → ℕ → Call
  discovered : (List ℕ → Option UdpAddr) → List BeaconEntry → Call
  sockets_open : Call
  enable_bridge : (ℕ → Option (List ℕ)) → Call
  close_bridge : Call
  bridge_moves : (WssServer → WssServer) → Call

-- the bridge after a step of its own, if there is one
unfoldable pub moved_bridge : Option WssServer → (WssServer → WssServer) → Option WssServer
moved_bridge none f = none
moved_bridge (some w) f = some (f w)

unfoldable pub after_call : Protocol → Server → Call → Server
after_call p s (setting x) = apply_setting s x
after_call p s (notify id now) = (notify_node s id now).0
after_call p s (command id ip port) = (send_punch_command p s id ip port).0
after_call p s (discovered resolve entries) = registry_discovered resolve s entries
after_call p s sockets_open = record s { listening = true }
after_call p s (enable_bridge look_up) = (enable_compat_wss s look_up).0
after_call p s close_bridge = (close_compat_wss s).0
after_call p s (bridge_moves f) = record s { wss_server = moved_bridge s.wss_server f }

-- whether a call sets the gossip mode or the peers
unfoldable pub touches_peers : Call → Bool
touches_peers (setting (strict v)) = true
touches_peers (discovered resolve entries) = true
touches_peers _ = false
