-- ===== src/Wss/Laws.antt =====
-- wss/server.go: connections that replace one another. Upgrades, writes and the read loops of all
-- peers take steps in any interleaving.
use beacon.Base.{
  ℕ, ◌+◌, ◌%◌, ◌^◌, ◌<◌, ◌≡◌, ◌≢◌, inl, inr, refl, ap, ◌∙◌, Bool, true, false, Option, some, List,
  [], ◌∷◌, ◌++◌, ◌==◌, if◌then◌else◌, length, get_or, lookup, insert, Unique, nat_key, arith,
  Option-cases, get_or-set, length-append, lookup-insert, insert-Unique, lookup-erase, if_keep,
  if_keep_by, none, get_or-snoc,
}
use beacon.Wss.{
  WssServer, Peer, peer_at, shut_peer, is_installed, drop_peer, write_frame, replaced, install,
  peer_gen_for_node, is_connected, frame_round, loop_head, ReadEvent, after_read, no_peer,
  binary_frame, past_test, pass_on, new_wss, close_wss,
}
use beacon.Wss.Closing.{
  IsBridge, Closes, Closes-IsBridge, Closes-refl, shut_peer-Closes, write_frame-Closes,
  loop_head-Closes, pass_on-Closes, after_read-Closes, close_wss-Closes,
}

replaced-Closes : (s : WssServer) (id : ℕ) → IsBridge s → Closes s (replaced s id)
unfolding replaced
replaced-Closes s id v = elim (Option-cases (lookup id s.peers)) [
  | inl e ↦ rw (e, replaced) (Closes-refl s s refl refl refl)
  | inr (h, e) ↦ rw (e, replaced) (shut_peer-Closes s h (v.installed id h e).0)
]

-- a new peer
module _ (s : WssServer) (v : IsBridge s) (p : Peer) where
  abbrev pushed : WssServer
  pushed = record s {
    peer_gen = p.gen;
    objects = s.objects ++ p ∷ [];
    peers = insert p.node_id (length s.objects) s.peers;
  }

  peer_at-pushed : (j : ℕ) → peer_at pushed j ≡ (if j == length s.objects then p else peer_at s j)
  unfolding peer_at
  peer_at-pushed j = get_or-snoc s.objects p no_peer j

  -- its generation is above all others
  pushed-IsBridge : s.peer_gen < p.gen → IsBridge pushed
  pushed-IsBridge fresh = record {
    unique = insert-Unique p.node_id (length s.objects) s.peers v.unique;
    installed = λ id h e. ground (
      arith,
      e,
      length-append s.objects (p ∷ []),
      lookup-insert p.node_id id (length s.objects) s.peers,
      v.installed id h,
      peer_at-pushed h,
    );
    newest = λ id h j e lt same. ground (
      arith,
      e,
      lt,
      same,
      length-append s.objects (p ∷ []),
      lookup-insert p.node_id id (length s.objects) s.peers,
      v.newest id h j,
      peer_at-pushed j,
    );
    rising = λ i j lt bound. ground (
      arith,
      length-append s.objects (p ∷ []),
      v.rising i j,
      v.issued i,
      peer_at-pushed i,
      peer_at-pushed j,
    );
    issued =
        λ j bound. ground (arith, length-append s.objects (p ∷ []), v.issued j, peer_at-pushed j);
  }

  is_connected-pushed :
      (q : ℕ)
      → p.closed ≡ false
      → is_connected pushed q ≡ (if p.node_id == q then true else is_connected s q)
  unfolding is_connected
  is_connected-pushed q live = elim (Option-cases (lookup q s.peers)) [
    | inl e ↦ ground (
      arith,
      e,
      live,
      lookup-insert p.node_id q (length s.objects) s.peers,
      peer_at-pushed (length s.objects),
    )
    | inr (h, e) ↦ ground (
      arith,
      e,
      live,
      lookup-insert p.node_id q (length s.objects) s.peers,
      v.installed q h e,
      peer_at-pushed h,
      peer_at-pushed (length s.objects),
    )
  ]

is_connected-replaced :
    (s : WssServer) (id q : ℕ)
    → IsBridge s
    → id ≢ q
    → is_connected (replaced s id) q ≡ is_connected s q
unfolding is_connected replaced shut_peer peer_at
is_connected-replaced s id q v other = elim (Option-cases (lookup id s.peers)) [
  | inl e ↦ rw (e, replaced)
  | inr (old, e) ↦ elim (Option-cases (lookup q s.peers)) [
    | inl n ↦ ground (arith, e, n)
    | inr (h, n) ↦ ground (
      arith,
      e,
      n,
      other,
      v.installed id old e,
      v.installed q h n,
      get_or-set s.objects old h (record (peer_at s old) { closed = true; conn_open = false })
          no_peer (v.installed id old e).0,
      ap (λ (i : ℕ). (get_or s.objects i no_peer).node_id) {x = old} {y = h},
    )
  ]
]

install-IsBridge :
    (s : WssServer) (id : ℕ) → IsBridge s → s.peer_gen + 1 < 2 ^ 32 → IsBridge (install s id).0
unfolding install
install-IsBridge s id v room =
    let c = replaced-Closes s id v in
    let p : Peer = record {
      node_id = id;
      closed = false;
      conn_open = true;
      gen = (s.peer_gen + 1) % 2 ^ 32;
    } in
    if_keep (λ (r : WssServer × Option ℕ). IsBridge r.0) s.closed _ _ v
      (pushed-IsBridge (replaced s id) (Closes-IsBridge s (replaced s id) v c) p
        (rw c.counter (omega arith)))

replaced-IsBridge : (s : WssServer) (id : ℕ) → IsBridge s → IsBridge (replaced s id)
replaced-IsBridge s id v = Closes-IsBridge s (replaced s id) v (replaced-Closes s id v)

replaced_shut :
    (s : WssServer) (id h : ℕ)
    → h < length s.objects
    → lookup id s.peers ≡ some h
    → (peer_at (replaced s id) h).closed ≡ true
unfolding peer_at shut_peer replaced
replaced_shut s id h bound found =
    rw (found, replaced)
      (ground (
        arith,
        get_or-set s.objects h h (record (peer_at s h) { closed = true; conn_open = false }) no_peer
            bound,
      ))

-- What an upgrade does to the peers that were there: it closes one at most.
module _ (s : WssServer) (id h : ℕ) (v : IsBridge s) (bound : h < length s.objects) where
  abbrev newcomer : Peer
  newcomer = record {
    node_id = id;
    closed = false;
    conn_open = true;
    gen = (s.peer_gen + 1) % 2 ^ 32;
  }

  -- whether r is a state where peer h is closed
  abbrev Shut : WssServer × Option ℕ → Type 0
  Shut r = (h < length r.0.objects) × ((peer_at r.0 h).closed ≡ true)

  pushed-Shut :
      (peer_at (replaced s id) h).closed ≡ true
      → Shut (pushed (replaced s id) (replaced-IsBridge s id v) newcomer, none)
  pushed-Shut shut =
      let c = replaced-Closes s id v in
      let at = peer_at-pushed (replaced s id) (replaced-IsBridge s id v) newcomer h in
      let long = length-append (replaced s id).objects (newcomer ∷ []) in
      (omega (arith, long, c.width, bound), ground (arith, at, shut, c.width, bound))

  pub install_closed : (peer_at s h).closed ≡ true → Shut (install s id)
  unfolding install
  install_closed shut =
      if_keep Shut s.closed _ _ (bound, shut) (pushed-Shut ((replaced-Closes s id v).shut h shut))

  pub install_closes : s.closed ≡ false → lookup id s.peers ≡ some h → Shut (install s id)
  unfolding install
  install_closes running found =
      if_keep_by Shut s.closed _ _ (λ on. absurd (ground (arith, on, running)))
        (λ off. pushed-Shut (replaced_shut s id h bound found))

-- A step of the bridge: an authenticated upgrade, while the 32-bit generation does not wrap around;
-- a write of a relay worker; the head of a peer's read loop; a read of it with its tests; what
-- follows a frame that passed them; Close.
pub data BridgeStep : WssServer → WssServer → Type 0 where
  upgrade : (s : WssServer) (id : ℕ) → s.peer_gen + 1 < 2 ^ 32 → BridgeStep s (install s id).0
  write :
      (s : WssServer) (dest : ℕ) (frame : List ℕ) (write_ok : Bool)
      → BridgeStep s (write_frame s dest frame write_ok).0
  head : (s : WssServer) (h : ℕ) → h < length s.objects → BridgeStep s (loop_head s h).0
  read :
      (s : WssServer) (h : ℕ) (e : ReadEvent)
      → h < length s.objects
      → BridgeStep s (after_read s h e).0
  pass : (s : WssServer) → BridgeStep s (pass_on s)
  close : (s : WssServer) → BridgeStep s (close_wss s)

-- what a new bridge becomes
pub data Reachable : WssServer → Type 0 where
  at_start : (max_peers : ℕ) → Reachable (new_wss max_peers)
  later : (s t : WssServer) → Reachable s → BridgeStep s t → Reachable t

pub step-IsBridge : (s t : WssServer) → BridgeStep s t → IsBridge s → IsBridge t
step-IsBridge _ _ (upgrade s id room) v = install-IsBridge s id v room
step-IsBridge _ _ (write s dest frame ok) v =
    Closes-IsBridge s _ v (write_frame-Closes s dest frame ok v)
step-IsBridge _ _ (head s h bound) v = Closes-IsBridge s _ v (loop_head-Closes s h bound)
step-IsBridge _ _ (read s h e bound) v = Closes-IsBridge s _ v (after_read-Closes s h e bound)
step-IsBridge _ _ (pass s) v = Closes-IsBridge s _ v (pass_on-Closes s)
step-IsBridge _ _ (close s) v = Closes-IsBridge s (close_wss s) v (close_wss-Closes s)

new_wss-IsBridge : (max_peers : ℕ) → IsBridge (new_wss max_peers)
unfolding new_wss peer_at Unique lookup
new_wss-IsBridge max_peers = record {
  unique = tt;
  installed = λ id h e. absurd (ground (arith, e));
  newest = λ id h j e lt same. absurd (ground (arith, e));
  rising = λ i j lt bound. absurd (omega arith);
  issued = λ j bound. absurd (omega arith);
}

pub Reachable-IsBridge : (s : WssServer) → Reachable s → IsBridge s
Reachable-IsBridge _ (at_start max_peers) = new_wss-IsBridge max_peers
Reachable-IsBridge _ (later s t r e) = step-IsBridge s t e (Reachable-IsBridge s r)

gen_of_installed :
    (s : WssServer) (id h : ℕ)
    → lookup id s.peers ≡ some h
    → peer_gen_for_node s id ≡ (peer_at s h).gen
unfolding peer_gen_for_node
gen_of_installed s id h e = rw (e, peer_gen_for_node)

-- In a bridge that is reached by any upgrades, while the 32-bit generation does not wrap around,
-- writes, reads and Close: of all connections that were ever accepted for a node with an installed
-- one, a frame passes its tests on none but the installed one, and goes on as it was read, under
-- the node's id.
pub after_read_installed :
    (s : WssServer) (id h g : ℕ) (sender : ℕ) (body frame : List ℕ)
    → Reachable s
    → lookup id s.peers ≡ some h
    → g < length s.objects
    → (peer_at s g).node_id ≡ id
    → (after_read s g (binary_frame body)).1 ≡ past_test sender frame
    → (g ≡ h) × (sender ≡ id) × (frame ≡ body)
unfolding after_read frame_round
after_read_installed s id h g sender body frame r e bound same passes =
    let v = Reachable-IsBridge s r in
    let current : peer_gen_for_node s (peer_at s g).node_id ≡ (peer_at s h).gen =
      ap (peer_gen_for_node s) same ∙ gen_of_installed s id h e in
    ground (
      arith,
      passes,
      current,
      same,
      v.newest id h g e bound same,
      v.rising g h,
      (v.installed id h e).0,
    )

-- In a reachable bridge, the end of the read loop of any connection but the installed one of a
-- node leaves the installed one on the map.
pub lookup-drop_peer :
    (s : WssServer) (id h g : ℕ)
    → Reachable s
    → lookup id s.peers ≡ some h
    → g ≢ h
    → lookup id (drop_peer s g).peers ≡ some h
unfolding drop_peer shut_peer is_installed
lookup-drop_peer s id h g r e other =
    let v = Reachable-IsBridge s r in
    let node = (peer_at s g).node_id in
    ground (
      arith,
      e,
      other,
      lookup-erase node id s.peers v.unique,
      ap (λ (q : ℕ). lookup q s.peers) {x = node} {y = id},
    )

-- In a reachable bridge that is not closed, an upgrade gives its node a live connection, and
-- leaves every other node as connected as it was.
pub is_connected-install :
    (s : WssServer) (id q : ℕ)
    → Reachable s
    → s.closed ≡ false
    → is_connected (install s id).0 q ≡ (if id == q then true else is_connected s q)
unfolding install
is_connected-install s id q r running =
    let v = Reachable-IsBridge s r in
    let c = replaced-Closes s id v in
    let p : Peer = record {
      node_id = id;
      closed = false;
      conn_open = true;
      gen = (s.peer_gen + 1) % 2 ^ 32;
    } in
    let pushed =
      is_connected-pushed (replaced s id) (Closes-IsBridge s (replaced s id) v c) p q refl in
    ground (arith, running, pushed, is_connected-replaced s id q v)
