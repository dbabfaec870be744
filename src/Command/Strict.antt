-- ===== src/Command/Strict.antt =====
-- cmd/beacon/main.go with server.go: a beacon that starts with -strict-gossip.
use beacon.Base.{
  ℕ, ◌≡◌, refl, ap, ◌∙◌, Bool, true, Option, some, ◌%◌, ◌^◌, List, [], All, if_keep_by, arith,
}
use beacon.Net.{UdpAddr, codes}
use beacon.Server.{Server, Protocol, new_with_peers}
use beacon.Server.Config.{
  set_registry, set_advertise_addr, set_registry_admin_token, set_punch_whitelist,
  set_require_punch_token, set_strict_gossip,
}
use beacon.Server.Worker.{Sockets}
use beacon.Server.Life.{Step, after_steps}
use beacon.Server.Life.Strict.{IsForeign, no_foreign_routes}
use beacon.Command.{
  Flags, apply_flags, with_registry, with_whitelist, with_punch_token, with_strict_gossip,
  switched_on, whitelist_source, peer_list, start, configured,
}

registry-routes : (f : Flags) (s : Server) → (with_registry f s).peer_nodes ≡ s.peer_nodes
unfolding with_registry set_registry set_advertise_addr set_registry_admin_token
registry-routes f s = ground arith

whitelist-routes : (src : List ℕ) (s : Server) → (with_whitelist src s).peer_nodes ≡ s.peer_nodes
unfolding with_whitelist set_punch_whitelist
whitelist-routes src s = ground arith

token-routes :
    (f : Flags) (getenv : List ℕ → List ℕ) (s : Server)
    → (with_punch_token f getenv s).peer_nodes ≡ s.peer_nodes
unfolding with_punch_token set_require_punch_token
token-routes f getenv s = ground arith

strict-routes :
    (f : Flags) (getenv : List ℕ → List ℕ) (s : Server)
    → (with_strict_gossip f getenv s).peer_nodes ≡ s.peer_nodes
unfolding with_strict_gossip set_strict_gossip
strict-routes f getenv s = ground arith

apply_flags-routes :
    (f : Flags) (getenv : List ℕ → List ℕ) (s : Server)
    → (apply_flags f getenv s).peer_nodes ≡ s.peer_nodes
unfolding apply_flags
apply_flags-routes f getenv s =
    let a = with_registry f s in
    let b = with_whitelist (whitelist_source f getenv) a in
    strict-routes f getenv (with_punch_token f getenv b)
    ∙ (token-routes f getenv b
        ∙ (whitelist-routes (whitelist_source f getenv) a ∙ registry-routes f s))

strict_on :
    (f : Flags) (getenv : List ℕ → List ℕ) (s : Server)
    → switched_on f.strict_gossip (getenv (codes "BEACON_STRICT_GOSSIP")) ≡ true
    → (apply_flags f getenv s).strict_gossip ≡ true
unfolding apply_flags with_strict_gossip set_strict_gossip
strict_on f getenv s on =
    if_keep_by (λ (t : Server). t.strict_gossip ≡ true)
      (switched_on f.strict_gossip (getenv (codes "BEACON_STRICT_GOSSIP"))) _ _ (λ _. refl)
      (λ off. absurd (ground (arith, on, off)))

no_routes :
    (resolve : List ℕ → Option UdpAddr) (num_cpu id : ℕ) (peers : List (List ℕ))
    → (new_with_peers resolve num_cpu id peers).peer_nodes ≡ []
unfolding new_with_peers
no_routes resolve num_cpu id peers = refl

started_server :
    (load_config : List ℕ → Flags → Option Flags) (resolve : List ℕ → Option UdpAddr) (num_cpu : ℕ)
    (getenv : List ℕ → List ℕ) (flags f : Flags) (s : Server)
    → configured load_config flags ≡ some f
    → start load_config resolve num_cpu getenv flags ≡ some s
    → s ≡ apply_flags f getenv (new_with_peers resolve num_cpu (f.beacon_id % 2 ^ 32) (peer_list f))
unfolding start
started_server load_config resolve num_cpu getenv flags f s loaded started =
    ground (arith, loaded, started)

-- A beacon whose flags, after the configuration file, or whose environment ask for strict gossip
-- has no route to another beacon after any steps whose datagrams all come from outside its peer
-- set and whose calls set neither the mode nor the peers.
pub strict_start :
    (p : Protocol) (k : Sockets) (verify : List ℕ → List ℕ → List ℕ → Bool)
    (load_config : List ℕ → Flags → Option Flags) (resolve : List ℕ → Option UdpAddr) (num_cpu : ℕ)
    (getenv : List ℕ → List ℕ) (flags f : Flags) (s : Server) (es : List Step)
    → configured load_config flags ≡ some f
    → switched_on f.strict_gossip (getenv (codes "BEACON_STRICT_GOSSIP")) ≡ true
    → start load_config resolve num_cpu getenv flags ≡ some s
    → All (IsForeign s.peers) es
    → (after_steps p k verify s es).peer_nodes ≡ []
strict_start p k verify load_config resolve num_cpu getenv flags f s es loaded on started foreign =
    let e = started_server load_config resolve num_cpu getenv flags f s loaded started in
    let s0 = new_with_peers resolve num_cpu (f.beacon_id % 2 ^ 32) (peer_list f) in
    no_foreign_routes p k verify s es
      (ap (λ (t : Server). t.strict_gossip) e ∙ strict_on f getenv s0 on)
      (ap (λ (t : Server). t.peer_nodes) e
        ∙ (apply_flags-routes f getenv s0
            ∙ no_routes resolve num_cpu (f.beacon_id % 2 ^ 32) (peer_list f)))
      foreign
