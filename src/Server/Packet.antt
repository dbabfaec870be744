-- ===== src/Server/Packet.antt =====
-- server.go: handlePacketFrom and handlePacket, the dispatch of an inbound datagram or frame.
pub mod Cases
pub mod Valid
pub mod Laws
use beacon.Base.{
  ℕ, zero, suc, ◌%◌, ◌^◌, Bool, true, false, not, Option, none, some, List, [], ◌∷◌, ◌==◌,
  if◌then◌else◌,
}
use beacon.Net.{UdpAddr}
use beacon.RateLimit.{RelaySourceKey, relay_source_for_bridge, relay_source_for_udp}
use beacon.Server.{Server, Protocol}
use beacon.Server.Discover.{handle_discover}
use beacon.Server.Punch.{handle_punch_request}
use beacon.Server.Relay.{dispatch_relay}
use beacon.Server.Gossip.{handle_sync}

-- whom a relay frame is charged to
unfoldable pub relay_source : UdpAddr → ℕ → RelaySourceKey
relay_source remote bridge_peer =
    if not (bridge_peer == 0)
    then relay_source_for_bridge bridge_peer
    else relay_source_for_udp (some remote)

module _ (p : Protocol) (verify : List ℕ → List ℕ → List ℕ → Bool) where
  unfoldable pub handle_packet_from : Server → List ℕ → UdpAddr → ℕ → ℕ → Server
  handle_packet_from s [] remote bridge_peer now = s
  handle_packet_from s (msg_type ∷ d) remote bridge_peer now =
      if msg_type == p.discover
      then handle_discover p s d remote false now
      else if msg_type == p.discover_ex
      then handle_discover p s d remote true now
      else if msg_type == p.punch_request
      then handle_punch_request p verify s d remote now
      else if msg_type == p.relay
      then dispatch_relay s d (relay_source remote bridge_peer) now
      else if msg_type == p.sync
      then handle_sync s d remote now
      else s

  unfoldable pub handle_packet : Server → List ℕ → UdpAddr → ℕ → Server
  handle_packet s d remote now = handle_packet_from s d remote 0 now

-- the synthetic address of a frame from the WSS bridge: 192.0.2.1, in the 16-byte form of
-- net.ParseIP, and the low bits of the peer's id
unfoldable pub synthetic_addr : ℕ → UdpAddr
synthetic_addr sender_id = record {
  ip = 0 ∷ 0 ∷ 0 ∷ 0 ∷ 0 ∷ 0 ∷ 0 ∷ 0 ∷ 0 ∷ 0 ∷ 0xff ∷ 0xff ∷ 192 ∷ 0 ∷ 2 ∷ 1 ∷ [];
  port = sender_id % 2 ^ 16;
  zone = [];
}

-- the OnFrame callback that EnableCompatWSS installs
unfoldable pub on_wss_frame :
    Protocol → (List ℕ → List ℕ → List ℕ → Bool) → Server → ℕ → List ℕ → ℕ → Server
on_wss_frame p verify s sender_id frame now =
    handle_packet_from p verify s frame (synthetic_addr sender_id) sender_id now
