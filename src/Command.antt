-- ===== src/Command.antt =====
-- cmd/beacon/main.go: from the command line and the environment to the server that starts.
pub mod Laws
pub mod Strict
use beacon.Base.{
  ℕ, ◌%◌, ◌^◌, Bool, true, false, ◌||◌, Option, none, some, List, [], ◌∷◌, ◌==◌, if◌then◌else◌,
  length, same_bytes,
}
use beacon.Net.{UdpAddr, codes}
use beacon.Server.{Server, new_with_peers}
use beacon.Server.Config.{
  trim_space, set_registry, set_advertise_addr, set_registry_admin_token, set_punch_whitelist,
  set_require_punch_token, set_strict_gossip,
}

pub record Flags : Type 0 where
  pub config_path : List ℕ
  pub addr : List ℕ
  pub advertise_addr : List ℕ
  pub beacon_id : ℕ
  pub peers : List ℕ
  pub health_addr : List ℕ
  pub registry_addr : List ℕ
  pub registry_admin_token : List ℕ
  pub punch_whitelist : List ℕ
  pub require_punch_token : Bool
  pub strict_gossip : Bool

abbrev pub comma : ℕ
comma = 0x2c

abbrev pub add_to_first : ℕ → List (List ℕ) → List (List ℕ)
add_to_first c [] = (c ∷ []) ∷ []
add_to_first c (w ∷ ws) = (c ∷ w) ∷ ws

-- strings.Split with a one-byte separator
unfoldable pub split : List ℕ → ℕ → List (List ℕ)
split [] sep = [] ∷ []
split (c ∷ cs) sep = let rest = split cs sep in if c == sep then [] ∷ rest else add_to_first c rest

abbrev pub is_empty : List ℕ → Bool
is_empty cs = length cs == 0

-- the loop over the parts of -peers
unfoldable pub trimmed_parts : List (List ℕ) → List (List ℕ)
trimmed_parts [] = []
trimmed_parts (p ∷ ps) =
    let rest = trimmed_parts ps in let t = trim_space p in if is_empty t then rest else t ∷ rest

unfoldable pub peer_list : Flags → List (List ℕ)
peer_list f = if is_empty f.peers then [] else trimmed_parts (split f.peers comma)

-- the flag, or else the environment
unfoldable pub whitelist_source : Flags → (List ℕ → List ℕ) → List ℕ
whitelist_source f getenv =
    if is_empty f.punch_whitelist
    then getenv (codes "BEACON_PUNCH_WHITELIST")
    else f.punch_whitelist

abbrev pub switched_on : Bool → List ℕ → Bool
switched_on flag value = flag || same_bytes value (codes "1")

unfoldable pub with_registry : Flags → Server → Server
with_registry f s =
    let s1 = if is_empty f.registry_addr then s else set_registry s f.registry_addr in
    let s2 = if is_empty f.advertise_addr then s1 else set_advertise_addr s1 f.advertise_addr in
    if is_empty f.registry_admin_token
    then s2
    else set_registry_admin_token s2 f.registry_admin_token

unfoldable pub with_whitelist : List ℕ → Server → Server
with_whitelist wl_src s = if is_empty wl_src then s else set_punch_whitelist s (split wl_src comma)

unfoldable pub with_punch_token : Flags → (List ℕ → List ℕ) → Server → Server
with_punch_token f getenv s =
    if switched_on f.require_punch_token (getenv (codes "BEACON_REQUIRE_PUNCH_TOKEN"))
    then set_require_punch_token s true
    else s

unfoldable pub with_strict_gossip : Flags → (List ℕ → List ℕ) → Server → Server
with_strict_gossip f getenv s =
    if switched_on f.strict_gossip (getenv (codes "BEACON_STRICT_GOSSIP"))
    then set_strict_gossip s true
    else s

-- The setters, in the order of main.
unfoldable pub apply_flags : Flags → (List ℕ → List ℕ) → Server → Server
apply_flags f getenv s =
    with_strict_gossip f getenv
      (with_punch_token f getenv (with_whitelist (whitelist_source f getenv) (with_registry f s)))

-- The flags after the configuration file. `load_config` stands for config.Load with
-- config.ApplyToFlags: `none` ends the program.
unfoldable pub configured : (List ℕ → Flags → Option Flags) → Flags → Option Flags
configured load_config flags =
    if is_empty flags.config_path then some flags else load_config flags.config_path flags

-- main up to ListenAndServe.
unfoldable pub start :
    (List ℕ → Flags → Option Flags)
    → (List ℕ → Option UdpAddr)
    → ℕ
    → (List ℕ → List ℕ)
    → Flags
    → Option Server
start load_config resolve num_cpu getenv flags = elim (configured load_config flags) [
  | none ↦ none
  | some f ↦
      some
        (apply_flags f getenv (new_with_peers resolve num_cpu (f.beacon_id % 2 ^ 32) (peer_list f)))
]

-- what main starts once the server is set up, each with its address
pub data Service : Type 0 where
  serve_health serve_relay : List ℕ → Service

-- The goroutines of main: the health endpoint if it has an address, and ListenAndServe.
unfoldable pub services : Flags → List Service
services f =
    if is_empty f.health_addr
    then serve_relay f.addr ∷ []
    else serve_health f.health_addr ∷ serve_relay f.addr ∷ []
