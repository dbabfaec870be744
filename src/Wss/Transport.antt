-- ===== src/Wss/Transport.antt =====
-- wss/internal/daemonwss/wss.go: the daemon's side of the bridge. Its supervisor goroutine, Close,
-- Send and Recv take steps in any interleaving. What a read, a timer, a dial or a write comes to is
-- an input. A *websocket.Conn is its index in `conns`.
pub mod Taken
pub mod Laws
pub mod Reached
pub mod Queue
pub mod Closing
pub mod Stuck
pub mod Leak
pub mod Returning
pub mod Backoff
use beacon.Base.{
  ℕ, ◌+◌, ◌*◌, Bool, true, false, not, ◌&&◌, ◌||◌, Option, none, some, List, [], ◌∷◌, ◌++◌, ltb,
  ◌==◌, if◌then◌else◌, length, get_or, set,
}

pub data RecvItem : Type 0 where
  frame : List ℕ → RecvItem
  closed_error : RecvItem

-- where the supervisor stands, drainReads and sleepOrClosed included
pub data Place : Type 0 where
  at_head load_conn sleeping dialling exited : Place
  drain_head reading read_failed drained forgetting dropping installing : ℕ → Place
  queueing : ℕ → List ℕ → Place
  dialled : Option ℕ → Place

-- where the one call of Close that runs stands
pub data Closer : Type 0 where
  not_called stored cancelled waiting closing_recv returned : Closer
  took : Option ℕ → Closer

pub record Transport : Type 0 where
  pub recv_buffer : ℕ
  pub closed : Bool
  pub conn : Option ℕ
  -- the connections that were dialled: whether each is open
  pub conns : List Bool
  -- recvCh
  pub recv : List RecvItem
  pub recv_open : Bool
  pub backoff : ℕ
  pub place : Place
  pub closer : Closer
  -- the frames written, each with its connection
  pub written : List (ℕ × List ℕ)

-- in milliseconds
abbrev pub min_backoff : ℕ
min_backoff = 250

abbrev pub max_backoff : ℕ
max_backoff = 30_000

abbrev pub default_recv_buffer : ℕ
default_recv_buffer = 256

-- what conn.Read comes to
pub data ReadAnswer : Type 0 where
  read_error read_other : ReadAnswer
  read_binary : List ℕ → ReadAnswer

-- what wakes sleepOrClosed: the backoff timer, or its ticker
pub data Wake : Type 0 where
  timer tick : Wake

-- What the supervisor waits for: a read, the backoff, whether a dial succeeds. `go` is a step that
-- waits for nothing.
pub data Answer : Type 0 where
  go : Answer
  read : ReadAnswer → Answer
  woken : Wake → Answer
  dial : Bool → Answer

abbrev pub on_go : Answer → Option Transport → Option Transport
on_go go x = x
on_go _ x = none

abbrev pub on_read : Answer → (ReadAnswer → Option Transport) → Option Transport
on_read (read r) x = x r
on_read _ x = none

abbrev pub on_woken : Answer → (Wake → Option Transport) → Option Transport
on_woken (woken w) x = x w
on_woken _ x = none

abbrev pub on_dial : Answer → (Bool → Option Transport) → Option Transport
on_dial (dial success) x = x success
on_dial _ x = none

abbrev pub goto : Transport → Place → Option Transport
goto t p = some (record t { place = p })

abbrev pub full : Transport → Bool
full t = not (ltb (length t.recv) t.recv_buffer)

abbrev pub shut : List Bool → ℕ → List Bool
shut conns h = set conns h false

abbrev pub holds : Option ℕ → ℕ → Bool
holds none h = false
holds (some g) h = g == h

unfoldable pub next_backoff : ℕ → ℕ
next_backoff b = let d = b * 2 in if ltb max_backoff d then max_backoff else d

unfoldable pub read_leads_to : ℕ → ReadAnswer → Place
read_leads_to h read_error = read_failed h
read_leads_to h read_other = drain_head h
read_leads_to h (read_binary body) = queueing h body

-- sleepOrClosed
unfoldable pub after_wake : Bool → Wake → Place
after_wake closed timer = dialling
after_wake closed tick = if closed then exited else sleeping

unfoldable pub after_dial : Transport → Bool → Transport
after_dial t true = record t {
  place = dialled (some (length t.conns));
  conns = t.conns ++ true ∷ [];
}
after_dial t false = record t { place = dialled none }

-- One step of the supervisor; `none`: the step does not wait for such an answer, or it is blocked.
-- A send on a full recvCh is blocked, since superviseDoneCh is closed only when supervise returns.
unfoldable pub step_at : Place → Answer → Transport → Option Transport
step_at at_head a t = on_go a (goto t (if t.closed then exited else load_conn))
step_at load_conn a t = on_go a (goto t (elim t.conn [ some h ↦ drain_head h | none ↦ sleeping ]))
step_at (drain_head h) a t = on_go a (goto t (if t.closed then drained h else reading h))
step_at (reading h) a t = on_read a (λ r. goto t (read_leads_to h r))
step_at (read_failed h) a t = on_go a (
    if t.closed && not (full t)
    then some (record t { place = drained h; recv = t.recv ++ closed_error ∷ [] })
    else goto t (drained h))
step_at (queueing h body) a t = on_go a (
    if full t
    then none
    else some (record t { place = drain_head h; recv = t.recv ++ frame body ∷ [] }))
step_at (drained h) a t = on_go a (goto t (if t.closed then exited else forgetting h))
step_at (forgetting h) a t =
    on_go a (some (record t { place = dropping h; conn = if holds t.conn h then none else t.conn }))
step_at (dropping h) a t = on_go a (some (record t { place = sleeping; conns = shut t.conns h }))
step_at sleeping a t = on_woken a (λ w. goto t (after_wake t.closed w))
step_at dialling a t = on_dial a (λ success. some (after_dial t success))
step_at (dialled none) a t = on_go a (
    if t.closed
    then goto t exited
    else some (record t { place = at_head; backoff = next_backoff t.backoff }))
step_at (dialled (some h)) a t = on_go a (
    if t.closed
    then some (record t { place = exited; conns = shut t.conns h })
    else goto t (installing h))
step_at (installing h) a t =
    on_go a (some (record t { place = at_head; conn = some h; backoff = min_backoff }))
step_at exited a t = none

unfoldable pub supervise_step : Transport → Answer → Option Transport
supervise_step t a = step_at t.place a t

abbrev has_exited : Place → Bool
has_exited exited = true
has_exited _ = false

-- One step of Close, in closeOnce.Do. Cancelling lifetimeCtx makes a read or dial return; which
-- answer it returns is left open.
unfoldable pub close_at : Closer → Transport → Option Transport
close_at not_called t = some (record t { closed = true; closer = stored })
close_at stored t = some (record t { closer = cancelled })
close_at cancelled t = some (record t { conn = none; closer = took t.conn })
close_at (took none) t = some (record t { closer = waiting })
close_at (took (some h)) t = some (record t { closer = waiting; conns = shut t.conns h })
close_at waiting t = if has_exited t.place then some (record t { closer = closing_recv }) else none
close_at closing_recv t = some (record t { recv_open = false; closer = returned })
close_at returned t = none

unfoldable pub close_step : Transport → Option Transport
close_step t = close_at t.closer t

pub data SendResult : Type 0 where
  sent : ℕ → SendResult
  err_closed err_reconnecting err_send : SendResult

-- Send up to its write: an error, or the connection to write to.
pub data SendStart : Type 0 where
  refused : SendResult → SendStart
  write_to : ℕ → SendStart

unfoldable pub send_start : Transport → SendStart
send_start t =
    if t.closed
    then refused err_closed
    else elim t.conn [ none ↦ refused err_reconnecting | some h ↦ write_to h ]

-- The rest of Send, from the outcome of the write to connection h.
unfoldable pub send_end : Transport → ℕ → List ℕ → Bool → Transport × SendResult
send_end t h body write_ok =
    if write_ok
    then (record t { written = t.written ++ (h, body) ∷ [] }, sent (length body))
    else if t.closed
    then (t, err_closed)
    else (record t { conn = if holds t.conn h then none else t.conn }, err_send)

unfoldable pub receive_from : List RecvItem → Transport → Option (Transport × RecvItem)
receive_from (item ∷ rest) t = some (record t { recv = rest }, item)
receive_from [] t = if t.recv_open then none else some (t, closed_error)

-- Recv; `none` while it blocks.
unfoldable pub receive : Transport → Option (Transport × RecvItem)
receive t = receive_from t.recv t

-- the Transport that Dial makes, from cfg.RecvBuffer
unfoldable pub dialled_transport : ℕ → Transport
dialled_transport recv_buffer = record {
  recv_buffer = if recv_buffer == 0 then default_recv_buffer else recv_buffer;
  closed = false;
  conn = some 0;
  conns = true ∷ [];
  recv = [];
  recv_open = true;
  backoff = min_backoff;
  place = at_head;
  closer = not_called;
  written = [];
}

-- who takes a step
pub data Event : Type 0 where
  supervisor : Answer → Event
  closer_goes receiver_goes : Event
  send_ends : ℕ → List ℕ → Bool → Event

abbrev pub or_stay : Transport → Option Transport → Transport
or_stay t none = t
or_stay t (some u) = u

abbrev pub left_by : Transport → Option (Transport × RecvItem) → Transport
left_by t none = t
left_by t (some r) = r.0

-- A step that is blocked leaves the state as it is.
unfoldable pub after : Transport → Event → Transport
after t (supervisor a) = or_stay t (supervise_step t a)
after t closer_goes = or_stay t (close_step t)
after t receiver_goes = left_by t (receive t)
after t (send_ends h body write_ok) = (send_end t h body write_ok).0

unfoldable pub after_all : Transport → List Event → Transport
after_all t [] = t
after_all t (e ∷ es) = after_all (after t e) es
