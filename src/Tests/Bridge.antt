-- ===== src/Tests/Bridge.antt =====
-- The WSS bridge at a concrete input: node 4 connects twice.
use beacon.Base.{ℕ, ◌≡◌, ◌≤◌, refl, List, [], ◌∷◌, ◌++◌, length, lookup, insert, nat_key, arith}
use beacon.Wss.Reading.{
  here, own, Position, dispatching, loop_step, frames_left, replaced_dispatches,
}
use beacon.Wss.{
  WssServer, new_wss, install, replaced, shut_peer, peer_at, after_read, frame_round,
  peer_gen_for_node, deadline_exceeded,
}
use beacon.Wss.Laws.{Reachable, at_start, later, upgrade, after_read_installed}

abbrev once : WssServer
once = (install (new_wss 2) 4).0

abbrev twice : WssServer
twice = (install once 4).0

-- the definitions that a run computes with
unfoldable program : Unit {0}
unfolding new_wss install replaced shut_peer peer_at lookup insert after_read frame_round
    peer_gen_for_node
program = tt

abbrev newer : ℕ
newer = 1

abbrev frame : List ℕ
frame = 65 ∷ []

twice-Reachable : Reachable twice
unfolding program
twice-Reachable =
    later once twice (later (new_wss 2) once (at_start 2) (upgrade (new_wss 2) 4 (omega arith)))
      (upgrade once 4 (omega arith))

after_read_installed_example :
    (newer ≡ newer) × ((peer_at twice newer).node_id ≡ 4) × (frame ≡ frame)
unfolding program
after_read_installed_example =
    after_read_installed twice 4 newer newer 4 frame frame twice-Reachable refl (omega arith) refl
      refl

once-Reachable : Reachable once
unfolding new_wss
once-Reachable = later (new_wss 2) once (at_start 2) (upgrade (new_wss 2) 4 (omega arith))

-- the first connection has a frame past its tests when the second replaces it
abbrev late : Position
late = dispatching 4 frame

abbrev dispatched : WssServer × Position × List (ℕ × List ℕ)
dispatched = loop_step twice 0 late deadline_exceeded

replaced_dispatches_example :
    (length ([] ++ dispatched.2) ≤ 1) × (length ([] ++ dispatched.2) ≤ frames_left late)
unfolding program
replaced_dispatches_example =
    replaced_dispatches once dispatched.0 4 0 late dispatched.1 ([] ++ dispatched.2) once-Reachable
      refl refl (omega arith) (own twice late [] deadline_exceeded here)
