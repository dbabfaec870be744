-- ===== src/Wss/Transport/Laws.antt =====
-- wss/internal/daemonwss/wss.go: what every interleaving of the daemon's transport keeps.
use beacon.Base.{
  ℕ, ◌<◌, ◌≤◌, ◌≡◌, refl, ap, Bool, true, false, not, ◌&&◌, Option, none, some, List, [], ◌∷◌, ◌++◌,
  length, tests, if_keep, if_keep_by, option_keep, arith, length-append,
}
use beacon.Wss.Transport.Taken.{
  IfTaken, on_go-IfTaken, on_read-IfTaken, on_woken-IfTaken, on_dial-IfTaken, if-IfTaken,
}
use beacon.Wss.Transport.{
  RecvItem, frame, closed_error, Place, at_head, load_conn, sleeping, dialling, exited, drain_head,
  reading, read_failed, drained, forgetting, dropping, installing, queueing, dialled, Closer,
  not_called, closing_recv, returned, Transport, min_backoff, max_backoff, Answer, ReadAnswer,
  read_error, read_other, read_binary, Wake, timer, tick, full, next_backoff, read_leads_to,
  after_wake, after_dial, step_at, has_exited,
}

abbrev pub called : Closer → Bool
called not_called = false
called _ = true

abbrev pub past_wait : Closer → Bool
past_wait closing_recv = true
past_wait returned = true
past_wait _ = false

abbrev pub is_returned : Closer → Bool
is_returned returned = true
is_returned _ = false

-- recvCh holds no more than its buffer and is closed once Close has returned, which is not before
-- the supervisor has; the supervisor returns only for Close; the backoff stays in its range.
pub record IsTransport (t : Transport) : Type 0 where
  pub bounded : length t.recv ≤ t.recv_buffer
  pub some_buffer : 0 < t.recv_buffer
  pub exits_on_close : has_exited t.place ≡ true → t.closed ≡ true
  pub closed_by_close : t.closed ≡ called t.closer
  pub waited : past_wait t.closer ≡ true → has_exited t.place ≡ true
  pub recv_closed : t.recv_open ≡ not (is_returned t.closer)
  pub backoff_range : (min_backoff ≤ t.backoff) × (t.backoff ≤ max_backoff)

-- a step to another place, which may change the connections
move :
    (t : Transport) (q : Place) (c : Option ℕ) (cs : List Bool)
    → has_exited t.place ≡ false
    → (has_exited q ≡ true → t.closed ≡ true)
    → IsTransport t
    → IsTransport (record t { place = q; conn = c; conns = cs })
move t q c cs running late v = record {
  bounded = v.bounded;
  some_buffer = v.some_buffer;
  exits_on_close = late;
  closed_by_close = v.closed_by_close;
  waited = λ w. absurd (ground (arith, running, v.waited w));
  recv_closed = v.recv_closed;
  backoff_range = v.backoff_range;
}

goes :
    (t : Transport) (q : Place)
    → has_exited t.place ≡ false
    → has_exited q ≡ false
    → IsTransport t
    → IsTransport (record t { place = q })
goes t q running runs v =
    move t q t.conn t.conns running (λ late. absurd (ground (arith, late, runs))) v

read_leads_to_runs : (h : ℕ) (r : ReadAnswer) → has_exited (read_leads_to h r) ≡ false
unfolding read_leads_to
read_leads_to_runs h read_error = refl
read_leads_to_runs h read_other = refl
read_leads_to_runs h (read_binary body) = refl

after_wake_exits :
    (closed : Bool) (w : Wake) → has_exited (after_wake closed w) ≡ true → closed ≡ true
unfolding after_wake
after_wake_exits closed timer e = absurd (ground (arith, e))
after_wake_exits true tick e = refl
after_wake_exits false tick e = e

push_recv :
    (t : Transport) (item : RecvItem)
    → full t ≡ false
    → IsTransport t
    → IsTransport (record t { recv = t.recv ++ item ∷ [] })
push_recv t item room v = record {
  bounded = grind (tests, room, length-append t.recv (item ∷ []));
  some_buffer = v.some_buffer;
  exits_on_close = v.exits_on_close;
  closed_by_close = v.closed_by_close;
  waited = v.waited;
  recv_closed = v.recv_closed;
  backoff_range = v.backoff_range;
}

set_backoff :
    (t : Transport) (b : ℕ)
    → (min_backoff ≤ b) × (b ≤ max_backoff)
    → IsTransport t
    → IsTransport (record t { backoff = b })
set_backoff t b range v = record {
  bounded = v.bounded;
  some_buffer = v.some_buffer;
  exits_on_close = v.exits_on_close;
  closed_by_close = v.closed_by_close;
  waited = v.waited;
  recv_closed = v.recv_closed;
  backoff_range = range;
}

next_backoff_range :
    (b : ℕ) → min_backoff ≤ b → (min_backoff ≤ next_backoff b) × (next_backoff b ≤ max_backoff)
unfolding next_backoff
next_backoff_range b h = (grind (tests, h), grind (tests, h))

after_dial-IsTransport :
    (t : Transport) (s : Bool)
    → has_exited t.place ≡ false
    → IsTransport t
    → IsTransport (after_dial t s)
unfolding after_dial
after_dial-IsTransport t true r v =
    move t (dialled (some (length t.conns))) t.conn _ r (λ z. absurd (ground (arith, z))) v
after_dial-IsTransport t false r v = goes t (dialled none) r refl v

pub step_at-IsTransport :
    (p : Place) (a : Answer) (t : Transport)
    → t.place ≡ p
    → IsTransport t
    → IfTaken IsTransport (step_at p a t)
unfolding step_at
step_at-IsTransport at_head a t e v = on_go-IfTaken IsTransport a _ (
    if_keep_by (λ q. IsTransport (record t { place = q })) t.closed _ _
      (λ c. move t exited t.conn t.conns (ap has_exited e) (λ _. c) v)
      (λ _. move t load_conn t.conn t.conns (ap has_exited e) (λ z. absurd (ground (arith, z))) v))
step_at-IsTransport load_conn a t e v = on_go-IfTaken IsTransport a _ (
    option_keep (λ q. IsTransport (record t { place = q })) t.conn _ _
      (goes t sleeping (ap has_exited e) refl v)
      (λ h. goes t (drain_head h) (ap has_exited e) refl v))
step_at-IsTransport (drain_head h) a t e v = on_go-IfTaken IsTransport a _ (
    if_keep (λ q. IsTransport (record t { place = q })) t.closed _ _
      (goes t (drained h) (ap has_exited e) refl v) (goes t (reading h) (ap has_exited e) refl v))
step_at-IsTransport (reading h) a t e v =
    on_read-IfTaken IsTransport a _
      (λ r. goes t (read_leads_to h r) (ap has_exited e) (read_leads_to_runs h r) v)
step_at-IsTransport (read_failed h) a t e v = on_go-IfTaken IsTransport a _ (
    if-IfTaken IsTransport (t.closed && not (full t)) _ _
      (λ c.
        push_recv (record t { place = drained h }) closed_error (ground (arith, c))
          (goes t (drained h) (ap has_exited e) refl v))
      (λ _. goes t (drained h) (ap has_exited e) refl v))
step_at-IsTransport (queueing h body) a t e v = on_go-IfTaken IsTransport a _ (
    if-IfTaken IsTransport (full t) _ _ (λ _. tt)
      (λ c.
        push_recv (record t { place = drain_head h }) (frame body) c
          (goes t (drain_head h) (ap has_exited e) refl v)))
step_at-IsTransport (drained h) a t e v = on_go-IfTaken IsTransport a _ (
    if_keep_by (λ q. IsTransport (record t { place = q })) t.closed _ _
      (λ c. move t exited t.conn t.conns (ap has_exited e) (λ _. c) v)
      (λ _. goes t (forgetting h) (ap has_exited e) refl v))
step_at-IsTransport (forgetting h) a t e v =
    on_go-IfTaken IsTransport a _
      (move t (dropping h) _ t.conns (ap has_exited e) (λ z. absurd (ground (arith, z))) v)
step_at-IsTransport (dropping h) a t e v =
    on_go-IfTaken IsTransport a _
      (move t sleeping t.conn _ (ap has_exited e) (λ z. absurd (ground (arith, z))) v)
step_at-IsTransport sleeping a t e v = on_woken-IfTaken IsTransport a _ (λ w.
    move t (after_wake t.closed w) t.conn t.conns (ap has_exited e) (after_wake_exits t.closed w) v)
step_at-IsTransport dialling a t e v =
    on_dial-IfTaken IsTransport a _ (λ s. after_dial-IsTransport t s (ap has_exited e) v)
step_at-IsTransport (dialled none) a t e v = on_go-IfTaken IsTransport a _ (
    if-IfTaken IsTransport t.closed _ _
      (λ c. move t exited t.conn t.conns (ap has_exited e) (λ _. c) v)
      (λ _.
        set_backoff (record t { place = at_head }) (next_backoff t.backoff)
          (next_backoff_range t.backoff v.backoff_range.0)
          (goes t at_head (ap has_exited e) refl v)))
step_at-IsTransport (dialled (some h)) a t e v = on_go-IfTaken IsTransport a _ (
    if-IfTaken IsTransport t.closed _ _ (λ c. move t exited t.conn _ (ap has_exited e) (λ _. c) v)
      (λ _. goes t (installing h) (ap has_exited e) refl v))
step_at-IsTransport (installing h) a t e v = on_go-IfTaken IsTransport a _ (
    set_backoff (record t { place = at_head; conn = some h }) min_backoff (omega arith, omega arith)
      (move t at_head (some h) t.conns (ap has_exited e) (λ z. absurd (ground (arith, z))) v))
step_at-IsTransport exited a t e v = tt
