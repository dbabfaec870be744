-- ===== src/Wss/Upgrading/Bound.antt =====
-- wss/server.go: how many peers there can be when upgrades run beside one another.
use beacon.Base.{
  ℕ, ◌+◌, ◌≤◌, ◌<◌, ◌≡◌, inl, inr, refl, ◌∙◌, Bool, true, List, [], ◌∷◌, ◌++◌, length, Assoc,
  lookup, erase, nat_key, arith, Option-cases, length-append, length-insert, option_keep,
}
use beacon.Wss.{
  WssServer, new_wss, peer_count, peer_at, bump, at_capacity, install, replaced, shut_peer,
  drop_peer, write_frame, loop_head, after_read, pass_on, frame_round, deadline_exceeded,
  read_failed, text_frame, binary_frame, shut_all, close_wss, handle_upgrade,
}
use beacon.Wss.Upgrading.{
  Upgrade, admitted, accepted, authenticated, UpgradeOutcome, check_capacity, advance, finish,
  Elsewhere, write, head, read, pass, close, Concurrent, at_start, request, progress, elsewhere,
}

-- A call that runs alone does what handle_upgrade says.
pub finish-check_capacity :
    (s : WssServer) (o : UpgradeOutcome)
    → finish 3 (check_capacity s) o ≡ (handle_upgrade s o.accept_ok o.auth).0
unfolding finish check_capacity advance handle_upgrade
finish-check_capacity s o = ground arith

-- t has the bound of s and no more peers
abbrev NoMore : WssServer → WssServer → Type 0
NoMore s t = (t.max_peers ≡ s.max_peers) × (length t.peers ≤ length s.peers)

length-erase : (k : ℕ) (m : Assoc ℕ ℕ) → length (erase k m) ≤ length m
unfolding erase
length-erase k [] = omega arith
length-erase k ((j, h) ∷ m) = ground (arith, length-erase k m)

shut_peer-NoMore : (s : WssServer) (h : ℕ) → NoMore s (shut_peer s h)
unfolding shut_peer
shut_peer-NoMore s h = (refl, omega arith)

drop_peer-NoMore : (s : WssServer) (h : ℕ) → NoMore s (drop_peer s h)
unfolding drop_peer shut_peer
drop_peer-NoMore s h = ground (arith, length-erase (peer_at s h).node_id s.peers)

shut_all_peers :
    (s : WssServer) (ps : Assoc ℕ ℕ)
    → ((shut_all s ps).max_peers ≡ s.max_peers) × ((shut_all s ps).peers ≡ s.peers)
unfolding shut_all shut_peer
shut_all_peers s [] = (refl, refl)
shut_all_peers s ((id, h) ∷ ps) = shut_all_peers (shut_peer s h) ps

Elsewhere-NoMore : (s t : WssServer) → Elsewhere s t → NoMore s t
unfolding write_frame loop_head after_read frame_round pass_on close_wss
Elsewhere-NoMore _ _ (write s dest frame ok) =
    option_keep (λ (r : WssServer × Bool). NoMore s r.0) (lookup dest s.peers) _ _
      (refl, omega arith) (λ h. ground (arith, drop_peer-NoMore s h))
Elsewhere-NoMore _ _ (head s h) = ground (arith, drop_peer-NoMore s h)
Elsewhere-NoMore _ _ (read s h deadline_exceeded) =
    drop_peer-NoMore (record s { idle_disconns = bump s.idle_disconns }) h
Elsewhere-NoMore _ _ (read s h read_failed) = drop_peer-NoMore s h
Elsewhere-NoMore _ _ (read s h text_frame) = (refl, omega arith)
Elsewhere-NoMore _ _ (read s h (binary_frame body)) = ground (arith, drop_peer-NoMore s h)
Elsewhere-NoMore _ _ (pass s) = (refl, omega arith)
Elsewhere-NoMore _ _ (close s) =
    ground (arith, shut_all_peers (record s { closed = true; peers = [] }) s.peers)

replaced-peers :
    (s : WssServer) (id : ℕ)
    → ((replaced s id).peers ≡ s.peers) × ((replaced s id).max_peers ≡ s.max_peers)
unfolding replaced shut_peer
replaced-peers s id = elim (Option-cases (lookup id s.peers)) [
  | inl e ↦ rw (e, replaced) (refl, refl)
  | inr (h, e) ↦ rw (e, replaced) (refl, refl)
]

install_grows :
    (s : WssServer) (id : ℕ)
    → ((install s id).0.max_peers ≡ s.max_peers)
      × (length (install s id).0.peers ≤ length s.peers + 1)
unfolding install
install_grows s id =
    ground (arith, replaced-peers s id, length-insert id (length (replaced s id).objects) s.peers)

-- a step of a call
advance_grows :
    (s : WssServer) (u : Upgrade) (o : UpgradeOutcome)
    → ((advance s u o).0.max_peers ≡ s.max_peers)
      × (length (advance s u o).0.peers + length (advance s u o).1 ≤ length s.peers + 1)
unfolding advance
advance_grows s admitted o = ground arith
advance_grows s accepted o = ground arith
advance_grows s (authenticated id) o =
    ((install_grows s id).0, omega (arith, (install_grows s id).1))

module _ (cap limit : ℕ) (positive : 0 < cap) (some_limit : 0 < limit) where
  bounded :
      (s : WssServer) (us : List Upgrade)
      → Concurrent cap limit s us
      → (s.max_peers ≡ cap) × (length s.peers + length us < cap + limit)
  unfolding new_wss check_capacity at_capacity peer_count
  bounded _ _ at_start = (refl, omega arith)
  bounded _ _ (request s us r room) = ground (arith, bounded s us r)
  bounded _ _ (progress s before u later o ok r) =
      let b = bounded s (before ++ u ∷ later) r in
      let g = advance_grows s u o in
      (
        g.0 ∙ b.0,
        omega (
          arith,
          b.1,
          g.1,
          length-append before (u ∷ later),
          length-append before ((advance s u o).1 ++ later),
          length-append (advance s u o).1 later,
        ),
      )
  bounded _ _ (elsewhere s t us r e) =
      let b = bounded s us r in
      let f = Elsewhere-NoMore s t e in (f.0 ∙ b.0, omega (arith, f.1, b.1))

  -- In any interleaving in which at most `limit` upgrades run at a time, a bridge with a positive
  -- bound on its peers holds fewer peers than the bound and `limit` together.
  pub peer_count-lt :
      (s : WssServer) (us : List Upgrade) → Concurrent cap limit s us → peer_count s < cap + limit
  unfolding peer_count
  peer_count-lt s us r = omega (arith, (bounded s us r).1)
