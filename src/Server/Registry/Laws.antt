-- ===== src/Server/Registry/Laws.antt =====
-- server.go, registryDiscover: what it takes from the registry.
use beacon.Base.{
  take-append, drop-append, ℕ, ◌≤◌, ◌<◌, ◌≢◌, refl, none, [], ◌∷◌, map, if◌then◌else◌, ◌≡◌, ◌⊎◌,
  inl, inr, true, ◌||◌, Option, some, List, ◌++◌, length, length-append, ◌==◌, arith, Option-cases,
  Bool-cases,
}
use beacon.Net.{UdpAddr}
use beacon.Wire.{put_uint32, uint32-put_uint32}
use beacon.Server.{Server}
use beacon.Server.Config.{registry_discovered, discovered_peers}
use beacon.Server.Registry.{
  Listed, other_value, object, entries_of, RegistryCodec, Registry, max_response, framed,
  read_frame, recv_msg, listed_beacons, registry_discover,
}

-- A body of at most 1 MB, framed and followed by anything, is read back, and what followed is
-- left.
pub read_frame-framed :
    (body rest : List ℕ)
    → length body ≤ max_response
    → read_frame (framed body ++ rest) ≡ some (body, rest)
unfolding read_frame framed put_uint32
read_frame-framed body rest small = ground (
  arith,
  small,
  uint32-put_uint32 (length body) (body ++ rest) (omega (arith, small)),
  length-append body rest,
  take-append body rest,
  drop-append body rest,
)

recv_msg-framed :
    (c : RegistryCodec) (body rest : List ℕ) (ls : List Listed)
    → length body ≤ max_response
    → c.beacons body ≡ some ls
    → recv_msg c (framed body ++ rest) ≡ some (ls, rest)
unfolding recv_msg
recv_msg-framed c body rest ls small parsed =
    ground (arith, read_frame-framed body rest small, parsed)

-- A nonempty address that resolves.
abbrev resolved : (List ℕ → Option UdpAddr) → List ℕ → Option UdpAddr
resolved resolve [] = none
resolved resolve (c ∷ cs) = resolve (c ∷ cs)

-- The peer that an element of the list stands for, in the list of beacon `self`: an object with an
-- address, of another beacon.
abbrev pub peer_of : (List ℕ → Option UdpAddr) → ℕ → Listed → Option UdpAddr
peer_of resolve self other_value = none
peer_of resolve self (object id none) = none
peer_of resolve self (object none (some addr)) = resolved resolve addr
peer_of resolve self (object (some id) (some addr)) =
    if id == self then none else resolved resolve addr

abbrev pub somes : List (Option UdpAddr) → List UdpAddr
somes [] = []
somes (none ∷ xs) = somes xs
somes (some x ∷ xs) = x ∷ somes xs

discovered_peers-entries_of :
    (resolve : List ℕ → Option UdpAddr) (self : ℕ) (ls : List Listed)
    → self ≢ 0
    → discovered_peers resolve self (entries_of ls) ≡ somes (map (peer_of resolve self) ls)
unfolding discovered_peers entries_of
discovered_peers-entries_of resolve self [] known = refl
discovered_peers-entries_of resolve self (other_value ∷ ls) known =
    discovered_peers-entries_of resolve self ls known
discovered_peers-entries_of resolve self (object none none ∷ ls) known =
    ground (arith, known, discovered_peers-entries_of resolve self ls known)
discovered_peers-entries_of resolve self (object (some id) none ∷ ls) known =
    ground (arith, known, discovered_peers-entries_of resolve self ls known)
discovered_peers-entries_of resolve self (object none (some []) ∷ ls) known =
    ground (arith, known, discovered_peers-entries_of resolve self ls known)
discovered_peers-entries_of resolve self (object none (some (c ∷ cs)) ∷ ls) known =
    ground (arith, known, discovered_peers-entries_of resolve self ls known)
discovered_peers-entries_of resolve self (object (some id) (some []) ∷ ls) known =
    ground (arith, known, discovered_peers-entries_of resolve self ls known)
discovered_peers-entries_of resolve self (object (some id) (some (c ∷ cs)) ∷ ls) known =
    ground (arith, known, discovered_peers-entries_of resolve self ls known)

-- If a beacon has an id and the address of a registry, which is reached, takes both requests, and
-- answers with two framed bodies of at most 1 MB that parse, then registryDiscover changes nothing
-- but the peers: they become, in order, the addresses that resolve, of the listed objects with an
-- address and another id than the beacon's.
pub registry_discover_answered :
    (c : RegistryCodec) (resolve : List ℕ → Option UdpAddr) (s : Server) (tcp_ip : Option (List ℕ))
    (answer listing left : List ℕ) (first ls : List Listed)
    → 0 < length s.registry_addr
    → s.beacon_id ≢ 0
    → length answer ≤ max_response
    → length listing ≤ max_response
    → c.beacons answer ≡ some first
    → c.beacons listing ≡ some ls
    → registry_discover c resolve s (record {
      reached = true;
      tcp_ip = tcp_ip;
      register_written = true;
      list_written = true;
      stream = framed answer ++ (framed listing ++ left);
    })
      ≡ record s { peers = somes (map (peer_of resolve s.beacon_id) ls) }
unfolding registry_discover listed_beacons registry_discovered
registry_discover_answered c resolve s tcp_ip answer listing left first ls reg known ha hl pa pl =
    ground (
      arith,
      reg,
      known,
      recv_msg-framed c answer (framed listing ++ left) first ha pa,
      recv_msg-framed c listing left ls hl pl,
      discovered_peers-entries_of resolve s.beacon_id ls known,
    )

-- Whatever the registry does, registryDiscover leaves the server as it was, or changes nothing but
-- its peers.
pub registry_discover_cases :
    (c : RegistryCodec) (resolve : List ℕ → Option UdpAddr) (s : Server) (r : Registry)
    → (registry_discover c resolve s r ≡ s)
      ⊎ ((ls : List Listed) × (listed_beacons c r ≡ some ls)
          × (registry_discover c resolve s r
              ≡ record s { peers = discovered_peers resolve s.beacon_id (entries_of ls) }))
unfolding registry_discover registry_discovered
registry_discover_cases c resolve s r = elim (Option-cases (listed_beacons c r)) [
  | inl e ↦ inl (ground (arith, e))
  | inr (ls, e) ↦ elim (Bool-cases ((length s.registry_addr == 0) || (s.beacon_id == 0))) [
    | inl off ↦ inl (ground (arith, off))
    | inr on ↦ inr (ls, e, ground (arith, on, e))
  ]
]
