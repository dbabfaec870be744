-- ===== src/Server/Delivery/Bridge.antt =====
-- server.go and wss/server.go: a relay frame of a node on the bridge for another node on it.
use beacon.Base.{◌≡◌, ◌≢◌, true, some, nat_key, arith}
use beacon.Wss.{WssServer, is_connected}
use beacon.Server.{Server, Protocol, RelayJob}
use beacon.Server.Worker.{route, to_wss}

-- A relay frame is not taken for a message that is tried before it.
pub record IsApart (p : Protocol) : Type 0 where
  pub not_discover : p.relay ≢ p.discover
  pub not_discover_ex : p.relay ≢ p.discover_ex
  pub not_punch_request : p.relay ≢ p.punch_request

pub by_bridge :
    (p : Protocol) (s : Server) (job : RelayJob) (w : WssServer)
    → s.wss_server ≡ some w
    → is_connected w job.dest_id ≡ true
    → route p s job ≡ to_wss w
unfolding route
by_bridge p s job w bridge connected = ground (arith, bridge, connected)
