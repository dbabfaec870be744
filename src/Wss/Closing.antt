-- ===== src/Wss/Closing.antt =====
-- wss/server.go: what closing, writing and reading do to the peers. None adds a peer or changes
-- whose peer one is.
use beacon.Base.{
  ℕ, zero, suc, ◌≤◌, ◌<◌, ◌≡◌, inl, inr, refl, sym, ap, ◌∙◌, Bool, true, ◌&&◌, some, List, [], ◌∷◌,
  ltb, if◌then◌else◌, length, get_or, set, Assoc, lookup, erase, Unique, nat_key, arith, Bool-cases,
  Option-cases, get_or-set, length-set, lookup-erase, erase-Unique, if_keep,
}
use beacon.Wss.{
  WssServer, Peer, peer_at, shut_peer, is_installed, drop_peer, write_frame, peer_gen_for_node,
  frame_round, loop_head, ReadEvent, after_read, no_peer, deadline_exceeded, read_failed,
  text_frame, binary_frame, shut_all, close_wss, pass_on, bump, max_frame_size,
}

-- An installed peer is the newest of its node, and generations rise from peer to peer.
pub record IsBridge (s : WssServer) : Type 0 where
  pub unique : Unique s.peers
  pub installed :
      (id h : ℕ)
      → lookup id s.peers ≡ some h
      → (h < length s.objects) × ((peer_at s h).node_id ≡ id)
  pub newest :
      (id h j : ℕ)
      → lookup id s.peers ≡ some h
      → j < length s.objects
      → (peer_at s j).node_id ≡ id
      → j ≤ h
  pub rising : (i j : ℕ) → i < j → j < length s.objects → (peer_at s i).gen < (peer_at s j).gen
  pub issued : (j : ℕ) → j < length s.objects → (peer_at s j).gen ≤ s.peer_gen

-- t is s with some peers closed or taken off the map.
pub record Closes (s t : WssServer) : Type 0 where
  pub width : length t.objects ≡ length s.objects
  pub ids : (j : ℕ) → (peer_at t j).node_id ≡ (peer_at s j).node_id
  pub gens : (j : ℕ) → (peer_at t j).gen ≡ (peer_at s j).gen
  pub counter : t.peer_gen ≡ s.peer_gen
  pub unique : Unique s.peers → Unique t.peers
  pub shut : (j : ℕ) → (peer_at s j).closed ≡ true → (peer_at t j).closed ≡ true
  pub fewer : (id h : ℕ) → Unique s.peers → lookup id t.peers ≡ some h → lookup id s.peers ≡ some h

pub Closes-IsBridge : (s t : WssServer) → IsBridge s → Closes s t → IsBridge t
Closes-IsBridge s t v c = record {
  unique = c.unique v.unique;
  installed = λ id h e.
      let old = v.installed id h (c.fewer id h v.unique e) in (rw c.width old.0, c.ids h ∙ old.1);
  newest = λ id h j e lt same.
      v.newest id h j (c.fewer id h v.unique e) (rw⁻¹ c.width lt) (sym (c.ids j) ∙ same);
  rising = λ i j lt bound. rw (c.gens i, c.gens j) (v.rising i j lt (rw⁻¹ c.width bound));
  issued = λ j bound. rw (c.gens j, c.counter) (v.issued j (rw⁻¹ c.width bound));
}

pub Closes-trans : (s t u : WssServer) → Closes s t → Closes t u → Closes s u
Closes-trans s t u a b = record {
  width = b.width ∙ a.width;
  ids = λ j. b.ids j ∙ a.ids j;
  gens = λ j. b.gens j ∙ a.gens j;
  counter = b.counter ∙ a.counter;
  unique = λ v. b.unique (a.unique v);
  shut = λ j c. b.shut j (a.shut j c);
  fewer = λ id h v e. a.fewer id h v (b.fewer id h (a.unique v) e);
}

pub Closes-refl :
    (s t : WssServer)
    → t.objects ≡ s.objects
    → t.peers ≡ s.peers
    → t.peer_gen ≡ s.peer_gen
    → Closes s t
unfolding peer_at
Closes-refl s t o p g = record {
  width = ap length o;
  ids = λ j. rw o;
  gens = λ j. rw o;
  counter = g;
  unique = λ v. rw p v;
  shut = λ j c. rw o c;
  fewer = λ id h v e. rw⁻¹ p e;
}

pub shut_peer-Closes : (s : WssServer) (h : ℕ) → h < length s.objects → Closes s (shut_peer s h)
unfolding shut_peer peer_at
shut_peer-Closes s h bound = record {
  width = length-set _ _ _;
  ids = λ j.
      rw (get_or-set s.objects h j _ _ bound)
        (ground (arith, ap (λ (i : ℕ). get_or s.objects i no_peer) {x = h} {y = j}));
  gens = λ j.
      rw (get_or-set s.objects h j _ _ bound)
        (ground (arith, ap (λ (i : ℕ). get_or s.objects i no_peer) {x = h} {y = j}));
  counter = refl;
  unique = λ v. v;
  shut = λ j c. rw (get_or-set s.objects h j _ _ bound) (ground (arith, c));
  fewer = λ id g v e. e;
}

set_past_end : (xs : List Peer) (i : ℕ) (p : Peer) → length xs ≤ i → set xs i p ≡ xs
set_past_end [] i p h = refl
set_past_end (x ∷ xs) zero p h = absurd (omega arith)
set_past_end (x ∷ xs) (suc i) p h = ap (◌∷◌ x) (set_past_end xs i p (omega arith))

shut_any-Closes : (s : WssServer) (h : ℕ) → Closes s (shut_peer s h)
unfolding shut_peer
shut_any-Closes s h = elim (Bool-cases (ltb h (length s.objects))) [
  | inl inside ↦ shut_peer-Closes s h (ground arith)
  | inr past ↦ Closes-refl s (shut_peer s h) (set_past_end s.objects h _ (ground arith)) refl refl
]

shut_all-Closes : (s : WssServer) (ps : Assoc ℕ ℕ) → Closes s (shut_all s ps)
unfolding shut_all
shut_all-Closes s [] = Closes-refl s s refl refl refl
shut_all-Closes s ((id, h) ∷ ps) =
    Closes-trans s (shut_peer s h) _ (shut_any-Closes s h) (shut_all-Closes (shut_peer s h) ps)

pub close_wss-Closes : (s : WssServer) → Closes s (close_wss s)
unfolding close_wss peer_at Unique lookup
close_wss-Closes s =
    let s₁ : WssServer = record s { closed = true; peers = [] } in
    let emptied : Closes s s₁ = record {
      width = refl;
      ids = λ j. refl;
      gens = λ j. refl;
      counter = refl;
      unique = λ v. tt;
      shut = λ j c. c;
      fewer = λ q g v e. absurd (ground (arith, e));
    } in
    if_keep (Closes s) s.closed s (shut_all s₁ s.peers) (Closes-refl s s refl refl refl)
      (Closes-trans s s₁ _ emptied (shut_all-Closes s₁ s.peers))

unhook-Closes : (s : WssServer) (id : ℕ) → Closes s (record s { peers = erase id s.peers })
unfolding peer_at
unhook-Closes s id = record {
  width = refl;
  ids = λ j. refl;
  gens = λ j. refl;
  counter = refl;
  unique = λ v. erase-Unique id s.peers v;
  shut = λ j c. c;
  fewer = λ q g v e. ground (arith, e, lookup-erase id q s.peers v);
}

drop_peer-Closes : (s : WssServer) (h : ℕ) → h < length s.objects → Closes s (drop_peer s h)
unfolding drop_peer
drop_peer-Closes s h bound =
    let id = (peer_at s h).node_id in
    let off = λ (t : WssServer). Closes s t × (h < length t.objects) in
    let s₁ : WssServer = if is_installed s id h then record s { peers = erase id s.peers } else s in
    let unhooked : off s₁ =
      if_keep off (is_installed s id h) (record s { peers = erase id s.peers }) s
        (unhook-Closes s id, bound) (Closes-refl s s refl refl refl, bound) in
    if_keep (Closes s) (peer_at s h).closed s₁ (shut_peer s₁ h) unhooked.0
      (Closes-trans s s₁ (shut_peer s₁ h) unhooked.0 (shut_peer-Closes s₁ h unhooked.1))

pub write_frame-Closes :
    (s : WssServer) (dest : ℕ) (frame : List ℕ) (write_ok : Bool)
    → IsBridge s
    → Closes s (write_frame s dest frame write_ok).0
unfolding write_frame
write_frame-Closes s dest frame write_ok v = elim (Option-cases (lookup dest s.peers)) [
  | inl e ↦ rw (e, write_frame) (Closes-refl s s refl refl refl)
  | inr (h, e) ↦ elim (Bool-cases (peer_at s h).closed) [
    | inl c ↦ rw (e, c, write_frame) (Closes-refl s s refl refl refl)
    | inr c ↦ elim (Bool-cases write_ok) [
      | inl ok ↦ rw (e, c, ok, write_frame) (Closes-refl s _ refl refl refl)
      | inr bad ↦ rw (e, c, bad, write_frame) (drop_peer-Closes s h (v.installed dest h e).0)
    ]
  ]
]

pub loop_head-Closes : (s : WssServer) (h : ℕ) → h < length s.objects → Closes s (loop_head s h).0
unfolding loop_head
loop_head-Closes s h bound = elim (Bool-cases (peer_at s h).closed) [
  | inl c ↦ rw (c, loop_head) (drop_peer-Closes s h bound)
  | inr c ↦ rw (c, loop_head) (Closes-refl s s refl refl refl)
]

pub pass_on-Closes : (s : WssServer) → Closes s (pass_on s)
unfolding pass_on
pass_on-Closes s = Closes-refl s _ refl refl refl

pub after_read-Closes :
    (s : WssServer) (h : ℕ) (e : ReadEvent) → h < length s.objects → Closes s (after_read s h e).0
unfolding after_read frame_round
after_read-Closes s h deadline_exceeded bound =
    let s₁ : WssServer = record s { idle_disconns = bump s.idle_disconns } in
    Closes-trans s s₁ (drop_peer s₁ h) (Closes-refl s s₁ refl refl refl)
      (drop_peer-Closes s₁ h bound)
after_read-Closes s h read_failed bound = drop_peer-Closes s h bound
after_read-Closes s h text_frame bound = Closes-refl s s refl refl refl
after_read-Closes s h (binary_frame body) bound =
    let g = peer_gen_for_node s (peer_at s h).node_id in
    elim (Bool-cases (ltb max_frame_size (length body))) [
      | inl big ↦ rw (big, frame_round) (drop_peer-Closes s h bound)
      | inr fits ↦ elim (Bool-cases (ltb 0 g && ltb (peer_at s h).gen g)) [
        | inl old ↦ rw (fits, old, frame_round) (Closes-refl s s refl refl refl)
        | inr new ↦ rw (fits, new, frame_round) (Closes-refl s _ refl refl refl)
      ]
    ]
