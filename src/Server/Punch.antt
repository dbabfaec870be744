-- ===== src/Server/Punch.antt =====
-- server.go: hole punching. handlePunchRequest with its rate limits and grant check,
-- SendPunchCommand, and NotifyNode.
pub mod Laws
pub mod Grants
use beacon.Base.{
  ℕ, ◌+◌, ◌*◌, ◌/◌, ◌%◌, ◌^◌, Bool, true, false, not, ◌||◌, ◌&&◌, Option, none, some, List, [], ◌∷◌,
  ◌++◌, ltb, leb, ◌==◌, if◌then◌else◌, length, take, drop, has, lookup, nat_key, bytes_key,
}
use beacon.Net.{UdpAddr, codes, decimal, ip_string}
use beacon.Wire.{uint32, uint64}
use beacon.NodeMap.{upsert, snapshot, claim_notify}
use beacon.RateLimit.{punch_allow, second}
use beacon.Server.{
  Server, Protocol, beacon_punch, breaker_open, write_to_udp, max_beacon_nodes, public_key_size,
  signature_size, max_punch_per_second, punch_per_source_interval,
}
use beacon.Server.Discover.{wire_ip, endpoint_message}

pub data SendError : Type 0 where
  not_listening node_not_found cannot_encode : SendError

abbrev punch_grant_expiry_size : ℕ
punch_grant_expiry_size = 8

abbrev pub punch_grant_trailer_size : ℕ
punch_grant_trailer_size = punch_grant_expiry_size + signature_size

unfoldable pub target_pub_key : Server → ℕ → Option (List ℕ)
target_pub_key s id = elim s.auth_key_lookup [
  | some look_up ↦ look_up id
  | none ↦ lookup id s.node_pub_keys
]

-- fmt.Sprintf("punch-grant:%d:%d:%d", requesterID, targetID, expiry), for an expiry of at least 0
unfoldable pub grant_preimage : ℕ → ℕ → ℕ → List ℕ
grant_preimage requester target expiry =
    codes "punch-grant:"
    ++ (decimal requester ++ (b':' ∷ (decimal target ++ (b':' ∷ decimal expiry))))

-- time.Now().Unix() > int64(raw): a raw value from 2 ^ 63 on is negative.
abbrev pub expired : ℕ → ℕ → Bool
expired raw now = leb (2 ^ 63) raw || ltb raw (now / second)

-- `verify` stands for ed25519.Verify of a key, a message and a signature.
module _ (verify : List ℕ → List ℕ → List ℕ → Bool) where
  unfoldable pub verify_punch_grant : Server → List ℕ → ℕ → ℕ → ℕ → Bool
  verify_punch_grant s trailer requester target now =
      if ltb (length trailer) punch_grant_trailer_size
      then false
      else let expiry = uint64 trailer in
        let sig = take signature_size (drop punch_grant_expiry_size trailer) in
        if expired expiry now then false else elim (target_pub_key s target) [
          | none ↦ false
          | some pub_key ↦
              (length pub_key == public_key_size)
              && verify pub_key (grant_preimage requester target expiry) sig
        ]

-- What the rate limits do with a request: the new state, and whether it goes on.
unfoldable pub punch_gate : Server → UdpAddr → ℕ → Server × Bool
punch_gate s remote now =
    let source_key = ip_string remote.ip in
    if s.punch_whitelist_all || has source_key s.punch_whitelist
    then (s, true)
    else if ltb now (s.last_punch_time + second / max_punch_per_second)
    then (s, false)
    else let r = punch_allow s.punch_rl source_key punch_per_source_interval now in
      if r.1
      then (record s { punch_rl = r.0; last_punch_time = now }, true)
      else (record s { punch_rl = r.0 }, false)

module _ (p : Protocol) where
  unfoldable pub send_punch_command : Server → ℕ → List ℕ → ℕ → Server × Option SendError
  send_punch_command s id target_ip target_port =
      if s.listening
      then elim (snapshot s.nodes id) [
        | none ↦ (s, some node_not_found)
        | some node_addr ↦ elim (wire_ip target_ip) [
          | none ↦ (s, some cannot_encode)
          | some ip ↦
              (write_to_udp s (endpoint_message p.punch_command ip target_port) node_addr, none)
        ]
      ]
      else (s, some not_listening)

  -- The first address if the table has the node, else the one at hand.
  abbrev pub latest : Server → ℕ → UdpAddr → UdpAddr
  latest s id at_hand = elim (snapshot s.nodes id) [ some a ↦ a | none ↦ at_hand ]

  -- both commands: the requester is told first
  unfoldable pub coordinate : Server → ℕ → ℕ → Server
  coordinate s requester target = elim (snapshot s.nodes target) [
    | none ↦ s
    | some target_addr ↦ elim (snapshot s.nodes requester) [
      | none ↦ s
      | some requester_addr ↦
          let t = latest s target target_addr in
          let s₁ = (send_punch_command s requester t.ip (t.port % 2 ^ 16)).0 in
          let r = latest s₁ requester requester_addr in
          (send_punch_command s₁ target r.ip (r.port % 2 ^ 16)).0
    ]
  ]

  module _ (verify : List ℕ → List ℕ → List ℕ → Bool) where
    unfoldable pub handle_punch_request : Server → List ℕ → UdpAddr → ℕ → Server
    handle_punch_request s d remote now =
        if ltb (length d) 8
        then s
        else if breaker_open s beacon_punch
        then s
        else let g = punch_gate s remote now in
          let requester = uint32 d in
          let target = uint32 (drop 4 d) in
          if not g.1
          then g.0
          else if g.0.require_punch_token
              && not (verify_punch_grant verify g.0 (drop 8 d) requester target now)
          then g.0
          else let u = upsert g.0.nodes requester remote now max_beacon_nodes in
            coordinate (record g.0 { nodes = u.0 }) requester target

-- MsgNotify, NotifyKindHandshake and notifyMinInterval
abbrev pub msg_notify : ℕ
msg_notify = 0x0A

abbrev pub notify_kind_handshake : ℕ
notify_kind_handshake = 0x01

abbrev pub notify_min_interval : ℕ
notify_min_interval = second

unfoldable pub notify_node : Server → ℕ → ℕ → Server × Option SendError
notify_node s id now =
    if not s.listening
    then (s, some not_listening)
    else let c = claim_notify s.nodes id now notify_min_interval in
      let s' = record s { nodes = c.0 } in
      elim c.1 [
        | none ↦ (s', some node_not_found)
        | some addr ↦
            if c.2
            then (s', none)
            else (write_to_udp s' (msg_notify ∷ notify_kind_handshake ∷ []) addr, none)
      ]
