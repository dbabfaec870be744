-- ===== src/Wss.antt =====
-- wss/server.go: the peers of the compat WSS bridge. A *wssPeer is its index in `objects`, since
-- the map and the read loops share it. Each step holds the lock that the source takes. What the
-- websocket library does is an input: the outcome of a write, the event that a read returns.
pub mod Config
pub mod Metrics
pub mod Auth
pub mod Admit
pub mod Upgrading
pub mod Closing
pub mod Laws
pub mod Reading
pub mod Transport
use beacon.Base.{
  ℕ, ◌+◌, ◌*◌, ◌%◌, ◌^◌, Bool, true, false, not, ◌&&◌, Option, none, some, List, [], ◌∷◌, ◌++◌, ltb,
  leb, ◌==◌, if◌then◌else◌, length, get_or, set, Assoc, lookup, insert, erase, nat_key,
}

pub record Peer : Type 0 where
  pub node_id : ℕ
  pub closed : Bool
  pub conn_open : Bool
  pub gen : ℕ

pub record WssServer : Type 0 where
  pub max_peers : ℕ
  pub peers : Assoc ℕ ℕ
  pub closed : Bool
  pub peer_gen : ℕ
  pub objects : List Peer
  -- the frames written, each with the peer that it was written to
  pub written : List (ℕ × List ℕ)
  pub upgrade_ok : ℕ
  pub upgrade_fail : ℕ
  pub auth_ok : ℕ
  pub auth_fail : ℕ
  pub frames_in : ℕ
  pub frames_out : ℕ
  pub idle_disconns : ℕ

abbrev pub max_frame_size : ℕ
max_frame_size = 64 * 1024

-- atomic.Uint64.Add(1)
abbrev pub bump : ℕ → ℕ
bump n = (n + 1) % 2 ^ 64

-- what an index outside `objects` would read
abbrev pub no_peer : Peer
no_peer = record { node_id = 0; closed = true; conn_open = false; gen = 0 }

unfoldable pub peer_at : WssServer → ℕ → Peer
peer_at s h = get_or s.objects h no_peer

unfoldable pub new_wss : ℕ → WssServer
new_wss max_peers = record {
  max_peers = max_peers;
  peers = [];
  closed = false;
  peer_gen = 0;
  objects = [];
  written = [];
  upgrade_ok = 0;
  upgrade_fail = 0;
  auth_ok = 0;
  auth_fail = 0;
  frames_in = 0;
  frames_out = 0;
  idle_disconns = 0;
}

unfoldable pub is_connected : WssServer → ℕ → Bool
is_connected s id = elim (lookup id s.peers) [ some h ↦ not (peer_at s h).closed | none ↦ false ]

unfoldable pub peer_count : WssServer → ℕ
peer_count s = length s.peers

-- p.closed.Store(true) and p.conn.Close
unfoldable pub shut_peer : WssServer → ℕ → WssServer
shut_peer s h = record s {
  objects = set s.objects h (record (peer_at s h) { closed = true; conn_open = false });
}

unfoldable pub is_installed : WssServer → ℕ → ℕ → Bool
is_installed s id h = elim (lookup id s.peers) [ some g ↦ g == h | none ↦ false ]

-- The connection is closed only if it was not marked closed before.
unfoldable pub drop_peer : WssServer → ℕ → WssServer
drop_peer s h =
    let id = (peer_at s h).node_id in
    let s' = if is_installed s id h then record s { peers = erase id s.peers } else s in
    if (peer_at s h).closed then s' else shut_peer s' h

unfoldable pub write_frame : WssServer → ℕ → List ℕ → Bool → WssServer × Bool
write_frame s dest frame write_ok = elim (lookup dest s.peers) [
  | none ↦ (s, false)
  | some h ↦
      if (peer_at s h).closed
      then (s, false)
      else if write_ok
      then (
        record s { written = s.written ++ (h, frame) ∷ []; frames_out = bump s.frames_out },
        true,
      )
      else (drop_peer s h, false)
]

-- the capacity check of handleUpgrade
unfoldable pub at_capacity : WssServer → Bool
at_capacity s = ltb 0 s.max_peers && leb s.max_peers (peer_count s)

-- Any prior peer of the node is marked closed, and its connection is closed.
unfoldable pub replaced : WssServer → ℕ → WssServer
replaced s id = elim (lookup id s.peers) [ some old ↦ shut_peer s old | none ↦ s ]

-- The part of handleUpgrade after authentication. `none`: the server is closed.
unfoldable pub install : WssServer → ℕ → WssServer × Option ℕ
install s id =
    if s.closed
    then (s, none)
    else let s' = replaced s id in
      let gen = (s.peer_gen + 1) % 2 ^ 32 in
      let h = length s'.objects in
      let p : Peer = record { node_id = id; closed = false; conn_open = true; gen = gen } in
      (
        record s' { peer_gen = gen; objects = s'.objects ++ p ∷ []; peers = insert id h s'.peers },
        some h,
      )

-- handleUpgrade up to its read loop, with no other goroutine between the capacity check and the
-- installation: `accepted` is the outcome of websocket.Accept, `auth` that of runAuth.
unfoldable pub handle_upgrade : WssServer → Bool → Option ℕ → WssServer × Option ℕ
handle_upgrade s accepted auth =
    if at_capacity s
    then (record s { upgrade_fail = bump s.upgrade_fail }, none)
    else if accepted
    then elim auth [
      | none ↦ (record s { upgrade_ok = bump s.upgrade_ok; auth_fail = bump s.auth_fail }, none)
      | some id ↦ install (record s { upgrade_ok = bump s.upgrade_ok; auth_ok = bump s.auth_ok }) id
    ]
    else (record s { upgrade_fail = bump s.upgrade_fail }, none)

unfoldable pub peer_gen_for_node : WssServer → ℕ → ℕ
peer_gen_for_node s id = elim (lookup id s.peers) [ some h ↦ (peer_at s h).gen | none ↦ 0 ]

-- what one p.conn.Read returns
pub data ReadEvent : Type 0 where
  deadline_exceeded read_failed text_frame : ReadEvent
  binary_frame : List ℕ → ReadEvent

-- how a read of peerReadLoop ends: the loop is left, goes on, or has a frame, with its sender, that
-- has passed the generation test
pub data Round : Type 0 where
  leave go_on : Round
  past_test : ℕ → List ℕ → Round

-- The tests of a frame. The lock is given back after the last of them.
unfoldable pub frame_round : WssServer → ℕ → List ℕ → WssServer × Round
frame_round s h body =
    let p = peer_at s h in
    let g = peer_gen_for_node s p.node_id in
    if ltb max_frame_size (length body)
    then (drop_peer s h, leave)
    else if ltb 0 g && ltb p.gen g
    then (s, go_on)
    else (s, past_test p.node_id body)

-- What peerReadLoop does to the bridge with a frame that is past its tests; OnFrame is the caller's.
-- Other goroutines may run in between.
unfoldable pub pass_on : WssServer → WssServer
pass_on s = record s { frames_in = bump s.frames_in }

-- The head of peerReadLoop for peer h: `true` if it leaves the loop, which runs the deferred
-- dropPeer. Other goroutines may run between the head and the return of the read.
unfoldable pub loop_head : WssServer → ℕ → WssServer × Bool
loop_head s h = if (peer_at s h).closed then (drop_peer s h, true) else (s, false)

-- The tests of a round, from what the read returned.
unfoldable pub after_read : WssServer → ℕ → ReadEvent → WssServer × Round
after_read s h deadline_exceeded =
    (drop_peer (record s { idle_disconns = bump s.idle_disconns }) h, leave)
after_read s h read_failed = (drop_peer s h, leave)
after_read s h text_frame = (s, go_on)
after_read s h (binary_frame body) = frame_round s h body

unfoldable pub shut_all : WssServer → Assoc ℕ ℕ → WssServer
shut_all s [] = s
shut_all s ((id, h) ∷ ps) = shut_all (shut_peer s h) ps

-- Close: the map becomes nil, which reads as empty.
unfoldable pub close_wss : WssServer → WssServer
close_wss s = if s.closed then s else shut_all (record s { closed = true; peers = [] }) s.peers
