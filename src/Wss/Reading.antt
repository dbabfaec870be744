-- ===== src/Wss/Reading.antt =====
-- wss/server.go, peerReadLoop: the read loop of one connection as a goroutine that takes its steps
-- beside all others.
use beacon.Base.{
  ℕ, ◌+◌, ◌^◌, ◌≤◌, ◌<◌, ◌≡◌, Bool, true, false, some, List, [], ◌∷◌, ◌++◌, if◌then◌else◌, length,
  lookup, nat_key, arith, length-append,
}
use beacon.Wss.{
  WssServer, peer_at, install, ReadEvent, Round, leave, go_on, past_test, loop_head, after_read,
  pass_on,
}
use beacon.Wss.Closing.{
  IsBridge, Closes, loop_head-Closes, after_read-Closes, pass_on-Closes, write_frame-Closes,
  close_wss-Closes, Closes-IsBridge,
}
use beacon.Wss.Laws.{
  BridgeStep, upgrade, write, head, read, pass, close, install_closed, install_closes, Reachable,
  Reachable-IsBridge, step-IsBridge,
}

-- where the loop stands: before the test of `closed`, in the read, between the tests of a frame and
-- its dispatch, past its end
pub data Position : Type 0 where
  at_head reading ended : Position
  dispatching : ℕ → List ℕ → Position

abbrev after_head : WssServer × Bool → WssServer × Position
after_head r = (r.0, if r.1 then ended else reading)

abbrev position_of : Round → Position
position_of leave = ended
position_of go_on = at_head
position_of (past_test sender body) = dispatching sender body

-- A step of the loop of peer h. `e` is what a read returns. The last result is what OnFrame is
-- called with.
unfoldable pub loop_step :
    WssServer → ℕ → Position → ReadEvent → WssServer × Position × List (ℕ × List ℕ)
loop_step s h at_head e = let r = after_head (loop_head s h) in (r.0, r.1, [])
loop_step s h reading e = let r = after_read s h e in (r.0, position_of r.1, [])
loop_step s h (dispatching sender body) e = (pass_on s, at_head, (sender, body) ∷ [])
loop_step s h ended e = (s, ended, [])

-- What the bridge, the loop of peer h and the frames that it has dispatched since s become, with
-- any steps of the bridge in between.
pub data Alongside (h : ℕ) (s : WssServer) (from : Position)
    : WssServer → Position → List (ℕ × List ℕ) → Type 0 where
  here : Alongside h s from s from []
  own :
      (t : WssServer) (now : Position) (out : List (ℕ × List ℕ)) (e : ReadEvent)
      → Alongside h s from t now out
      → Alongside h s from
          (loop_step t h now e).0
          (loop_step t h now e).1
          (out ++ (loop_step t h now e).2)
  other :
      (t u : WssServer) (now : Position) (out : List (ℕ × List ℕ))
      → Alongside h s from t now out
      → BridgeStep t u
      → Alongside h s from u now out

-- how many frames the loop of a closed connection may dispatch
abbrev pub frames_left : Position → ℕ
frames_left at_head = 0
frames_left reading = 1
frames_left (dispatching sender body) = 1
frames_left ended = 0

one_left : (at : Position) → frames_left at ≤ 1
one_left at_head = omega arith
one_left reading = omega arith
one_left (dispatching sender body) = omega arith
one_left ended = omega arith

position_left : (r : Round) → 0 + frames_left (position_of r) ≤ 1
position_left leave = omega arith
position_left go_on = omega arith
position_left (past_test sender body) = omega arith

-- the connection of peer h is closed
abbrev IsShut : ℕ → WssServer → Type 0
IsShut h s = IsBridge s × (h < length s.objects) × ((peer_at s h).closed ≡ true)

Closes-IsShut : (h : ℕ) (s t : WssServer) → Closes s t → IsShut h s → IsShut h t
Closes-IsShut h s t c v = (Closes-IsBridge s t v.0 c, rw c.width v.1, c.shut h v.2)

step-IsShut : (h : ℕ) (s t : WssServer) → BridgeStep s t → IsShut h s → IsShut h t
step-IsShut h _ _ (upgrade s id room) v =
    let c = install_closed s id h v.0 v.1 v.2 in
    (step-IsBridge s _ (upgrade s id room) v.0, c.0, c.1)
step-IsShut h _ _ (write s dest frame ok) v =
    Closes-IsShut h s _ (write_frame-Closes s dest frame ok v.0) v
step-IsShut h _ _ (head s g bound) v = Closes-IsShut h s _ (loop_head-Closes s g bound) v
step-IsShut h _ _ (read s g e bound) v = Closes-IsShut h s _ (after_read-Closes s g e bound) v
step-IsShut h _ _ (pass s) v = Closes-IsShut h s _ (pass_on-Closes s) v
step-IsShut h _ _ (close s) v = Closes-IsShut h s _ (close_wss-Closes s) v

-- a step of the loop keeps the connection closed and spends what is left
loop_step_spends :
    (h : ℕ) (s : WssServer) (now : Position) (e : ReadEvent)
    → IsShut h s
    → let r = loop_step s h now e in IsShut h r.0 × (length r.2 + frames_left r.1 ≤ frames_left now)
unfolding loop_step loop_head
loop_step_spends h s at_head e v =
    (Closes-IsShut h s _ (loop_head-Closes s h v.1) v, ground (arith, v.2))
loop_step_spends h s reading e v =
    (Closes-IsShut h s _ (after_read-Closes s h e v.1) v, position_left (after_read s h e).1)
loop_step_spends h s (dispatching sender body) e v =
    (Closes-IsShut h s _ (pass_on-Closes s) v, omega arith)
loop_step_spends h s ended e v = (v, omega arith)

beside_spends :
    (h : ℕ) (s : WssServer) (from : Position) (t : WssServer) (now : Position)
    (out : List (ℕ × List ℕ))
    → IsShut h s
    → Alongside h s from t now out
    → IsShut h t × (length out + frames_left now ≤ frames_left from)
beside_spends h s from _ _ _ v here = (v, omega arith)
beside_spends h s from _ _ _ v (own t now out e b) =
    let old = beside_spends h s from t now out v b in
    let r = loop_step_spends h t now e old.0 in
    (r.0, omega (arith, r.1, old.1, length-append out (loop_step t h now e).2))
beside_spends h s from _ _ _ v (other t u now out b e) =
    let old = beside_spends h s from t now out v b in (step-IsShut h t u e old.0, old.1)

-- In a bridge that is reached by any upgrades, while the 32-bit generation does not wrap around,
-- writes, reads and Close, and that is not closed: after an upgrade has replaced a connection of
-- its node, the read loop of the old one dispatches at most one more frame, whatever the bridge
-- does in between, and none if it stood before its test of `closed` or past its end.
pub replaced_dispatches :
    (s t : WssServer) (id h : ℕ) (from now : Position) (out : List (ℕ × List ℕ))
    → Reachable s
    → s.closed ≡ false
    → lookup id s.peers ≡ some h
    → s.peer_gen + 1 < 2 ^ 32
    → Alongside h (install s id).0 from t now out
    → (length out ≤ 1) × (length out ≤ frames_left from)
replaced_dispatches s t id h from now out r running found room b =
    let v = Reachable-IsBridge s r in
    let bound = (v.installed id h found).0 in
    let after = step-IsBridge s _ (upgrade s id room) v in
    let c = install_closes s id h v bound running found in
    let at_start : IsShut h (install s id).0 = (after, c.0, c.1) in
    let spent = (beside_spends h (install s id).0 from t now out at_start b).1 in
    (omega (arith, spent, one_left from), omega (arith, spent))
