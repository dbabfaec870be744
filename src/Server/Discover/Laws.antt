-- ===== src/Server/Discover/Laws.antt =====
-- server.go: what handleDiscover answers.
use beacon.Base.{◌≡◌, nat_key}
use beacon.Server.{Server}

-- s and t have the same socket, table and discover limiter, and have sent the same
abbrev Beside : Server → Server → Type 0
Beside s t =
    (t.sent ≡ s.sent)
    × (t.listening ≡ s.listening)
    × (t.nodes ≡ s.nodes)
    × (t.discover_rl ≡ s.discover_rl)
