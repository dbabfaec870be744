-- ===== src/Wss/Upgrading/Excess.antt =====
-- wss/server.go: upgrades that all pass the capacity check before one of them is installed.
use beacon.Base.{
  ℕ, zero, suc, ◌+◌, ◌≤◌, ◌<◌, ◌^◌, ◌≡◌, refl, ap, ◌∙◌, Assoc, true, false, none, some, List, [],
  ◌∷◌, ◌==◌, if◌then◌else◌, length, lookup, nat_key, arith, length-insert, lookup-insert,
}
use beacon.Wss.{WssServer, new_wss, peer_count, bump, at_capacity, install, replaced}
use beacon.Wss.Upgrading.{
  Upgrade, admitted, accepted, authenticated, UpgradeOutcome, IsOutcome, check_capacity, advance,
  Concurrent, at_start, request, progress,
}

-- n calls, of the nodes n to 1, that are about to install their peers
abbrev waiting : ℕ → List Upgrade
waiting zero = []
waiting (suc n) = authenticated (suc n) ∷ waiting n

-- n calls of an open bridge are about to install their peers, and none of their nodes has one.
record Crowd (cap limit n : ℕ) : Type 0 where
  server : WssServer
  reached : Concurrent cap limit server (waiting n)
  bound : server.max_peers ≡ cap
  is_open : server.closed ≡ false
  free : (id : ℕ) → id ≤ n → lookup id server.peers ≡ none

length-waiting : (n : ℕ) → length (waiting n) ≡ n
length-waiting zero = refl
length-waiting (suc n) = omega (arith, length-waiting n)

install_free :
    (s : WssServer) (id : ℕ)
    → s.closed ≡ false
    → lookup id s.peers ≡ none
    → let t = (install s id).0 in
      (t.max_peers ≡ s.max_peers)
      × (t.closed ≡ false)
      × (length t.peers ≡ length s.peers + 1)
      × ((j : ℕ)
          → lookup j t.peers ≡ (if id == j then some (length s.objects) else lookup j s.peers))
unfolding install replaced
install_free s id opened free = ground (
  arith,
  opened,
  free,
  length-insert id (length s.objects) s.peers,
  λ (j : ℕ). lookup-insert id j (length s.objects) s.peers,
)

module _ (cap limit : ℕ) (positive : 0 < cap) (ids : limit < 2 ^ 32) where
  -- one more call reaches the installation
  join :
      (n : ℕ) (c : Crowd cap limit n)
      → n < limit
      → c.server.peers ≡ []
      → (d : Crowd cap limit (suc n)) × (d.server.peers ≡ [])
  unfolding check_capacity at_capacity peer_count advance lookup
  join n c room none_yet =
      let go : UpgradeOutcome = record { accept_ok = true; auth = some (suc n) } in
      let ok : IsOutcome go = λ id e. ground (arith, e, room, ids) in
      let passes : check_capacity c.server ≡ (c.server, admitted ∷ []) =
        ground (arith, c.bound, none_yet) in
      let r = request c.server (waiting n) c.reached (rw (length-waiting n) room) in
      let r₁ = progress c.server [] admitted (waiting n) go ok (rw passes at r) in
      let s₁ : WssServer = record c.server { upgrade_ok = bump c.server.upgrade_ok } in
      let r₂ = progress s₁ [] accepted (waiting n) go ok r₁ in
      (
        record {
          server = record s₁ { auth_ok = bump c.server.auth_ok };
          reached = r₂;
          bound = c.bound;
          is_open = c.is_open;
          free = λ id lt. rw none_yet;
        },
        none_yet,
      )

  gather : (n : ℕ) → n ≤ limit → (c : Crowd cap limit n) × (c.server.peers ≡ [])
  unfolding new_wss lookup
  gather zero h = (
    record {
      server = new_wss cap;
      reached = at_start;
      bound = refl;
      is_open = refl;
      free = λ id lt. refl;
    },
    refl,
  )
  gather (suc n) h = let c = gather n (omega arith) in join n c.0 (omega arith) c.1

  -- all of them install their peers
  enter :
      (n : ℕ) (c : Crowd cap limit n)
      → (s : WssServer) × Concurrent cap limit s [] × (peer_count s ≡ peer_count c.server + n)
  unfolding peer_count advance
  enter zero c = (c.server, c.reached, omega arith)
  enter (suc n) c =
      let s = c.server in
      let go : UpgradeOutcome = record { accept_ok = true; auth = none } in
      let none_here : IsOutcome go = λ id e. absurd (ground (arith, e)) in
      let i = install_free s (suc n) c.is_open (c.free (suc n) (omega arith)) in
      let rest : Crowd cap limit n = record {
        server = (install s (suc n)).0;
        reached = progress s [] (authenticated (suc n)) (waiting n) go none_here c.reached;
        bound = i.0 ∙ c.bound;
        is_open = i.1;
        free = λ id lt. ground (arith, i.3 id, c.free id (omega (arith, lt)));
      } in
      let e = enter n rest in (e.0, e.1, omega (arith, e.2, i.2))

  -- However small the positive bound on the peers, if `limit` upgrades may run at a time, fewer
  -- than there are node ids, some interleaving of them, of different nodes, ends with `limit`
  -- peers.
  pub peer_count-excess : (s : WssServer) × Concurrent cap limit s [] × (peer_count s ≡ limit)
  unfolding peer_count
  peer_count-excess =
      let c = gather limit (omega arith) in
      let e = enter limit c.0 in
      (e.0, e.1, omega (arith, e.2, ap (λ (m : Assoc ℕ ℕ). length m) c.1))
