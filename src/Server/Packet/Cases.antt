-- ===== src/Server/Packet/Cases.antt =====
-- server.go: handlePacketFrom as a case distinction, for proofs about every datagram.
use beacon.Base.{ℕ, Bool, true, false, List, [], ◌∷◌, ◌==◌, if_keep}
use beacon.Net.{UdpAddr}
use beacon.Server.{Server, Protocol}
use beacon.Server.Discover.{handle_discover}
use beacon.Server.Punch.{handle_punch_request}
use beacon.Server.Relay.{dispatch_relay}
use beacon.Server.Gossip.{handle_sync}
use beacon.Server.Packet.{handle_packet_from, relay_source}

module _ (p : Protocol) (verify : List ℕ → List ℕ → List ℕ → Bool) (P : Server → Type 0) where
  -- What holds of the old state and of the outcome of each handler holds of the new state.
  pub packet_cases :
      (s : Server) (d : List ℕ) (remote : UdpAddr) (bridge_peer now : ℕ)
      → P s
      → ((body : List ℕ) (want_dest : Bool) → P (handle_discover p s body remote want_dest now))
      → ((body : List ℕ) → P (handle_punch_request p verify s body remote now))
      → ((body : List ℕ) → P (dispatch_relay s body (relay_source remote bridge_peer) now))
      → ((body : List ℕ) → P (handle_sync s body remote now))
      → P (handle_packet_from p verify s d remote bridge_peer now)
  unfolding handle_packet_from
  packet_cases s [] remote bridge_peer now keep discover punch relay sync = keep
  packet_cases s (t ∷ d) remote bridge_peer now keep discover punch relay sync =
      if_keep P (t == p.discover) _ _ (discover d false) (
        if_keep P (t == p.discover_ex) _ _ (discover d true) (
          if_keep P (t == p.punch_request) _ _ (punch d)
            (if_keep P (t == p.relay) _ _ (relay d) (if_keep P (t == p.sync) _ _ (sync d) keep))))
