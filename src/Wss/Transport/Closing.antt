-- ===== src/Wss/Transport/Closing.antt =====
-- wss/internal/daemonwss/wss.go: how the supervisor goroutine comes to its end.
use beacon.Base.{
  ℕ, ◌+◌, ◌<◌, ◌≤◌, ◌≡◌, refl, ap, Bool, true, false, not, ◌&&◌, Option, none, some, List, [], ◌∷◌,
  if◌then◌else◌, is_some, if_keep, option_keep, arith,
}
use beacon.Wss.Transport.Taken.{
  IfTaken, or_stay-IfTaken, on_go-IfTaken, on_read-IfTaken, on_woken-IfTaken, on_dial-IfTaken,
  if-IfTaken,
}
use beacon.Wss.Transport.{
  RecvItem, Place, at_head, load_conn, sleeping, dialling, exited, drain_head, reading, read_failed,
  drained, forgetting, dropping, installing, queueing, dialled, Closer, not_called, stored,
  cancelled, waiting, closing_recv, returned, took, Transport, Answer, ReadAnswer, read_error,
  read_other, read_binary, Wake, timer, tick, full, read_leads_to, after_wake, after_dial, step_at,
  supervise_step, has_exited, close_at, close_step, receive, receive_from, left_by, Event,
  supervisor, closer_goes, receiver_goes, send_ends, or_stay, after, send_end, SendResult,
}

-- how many more steps the supervisor can take, once Close was called
abbrev pub steps_left : Place → ℕ
steps_left exited = 0
steps_left at_head = 1
steps_left (drained h) = 1
steps_left (dialled o) = 1
steps_left (drain_head h) = 2
steps_left (read_failed h) = 2
steps_left (installing h) = 2
steps_left dialling = 2
steps_left (queueing h body) = 3
steps_left sleeping = 3
steps_left (reading h) = 4
steps_left load_conn = 4
steps_left (dropping h) = 4
steps_left (forgetting h) = 5

abbrev pub IsCloser : ℕ → Transport → Type 0
IsCloser n t = (t.closed ≡ true) × (steps_left t.place < n)

dial_steps_left : (t : Transport) (s : Bool) → t.closed ≡ true → IsCloser 2 (after_dial t s)
unfolding after_dial
dial_steps_left t true closed = (closed, omega arith)
dial_steps_left t false closed = (closed, omega arith)

wake_steps_left : (closed : Bool) (w : Wake) → closed ≡ true → steps_left (after_wake closed w) < 3
unfolding after_wake
wake_steps_left closed timer e = omega arith
wake_steps_left true tick e = omega arith
wake_steps_left false tick e = absurd (ground (arith, e))

read_steps_left : (h : ℕ) (r : ReadAnswer) → steps_left (read_leads_to h r) < 4
unfolding read_leads_to
read_steps_left h read_error = omega arith
read_steps_left h read_other = omega arith
read_steps_left h (read_binary body) = omega arith

module _ (t : Transport) (closed : t.closed ≡ true) (a : Answer) where
  step_at-IsCloser : (p : Place) → IfTaken (IsCloser (steps_left p)) (step_at p a t)
  unfolding step_at
  step_at-IsCloser exited = tt
  step_at-IsCloser at_head = on_go-IfTaken (IsCloser 1) a _ (closed, ground (arith, closed))
  step_at-IsCloser (drained h) = on_go-IfTaken (IsCloser 1) a _ (closed, ground (arith, closed))
  step_at-IsCloser (dialled none) = on_go-IfTaken (IsCloser 1) a _ (
      if-IfTaken (IsCloser 1) t.closed _ _ (λ _. (closed, omega arith))
        (λ no. absurd (ground (arith, no))))
  step_at-IsCloser (dialled (some h)) = on_go-IfTaken (IsCloser 1) a _ (
      if-IfTaken (IsCloser 1) t.closed _ _ (λ _. (closed, omega arith))
        (λ no. absurd (ground (arith, no))))
  step_at-IsCloser (drain_head h) = on_go-IfTaken (IsCloser 2) a _ (closed, ground (arith, closed))
  step_at-IsCloser (read_failed h) = on_go-IfTaken (IsCloser 2) a _ (
      if_keep (IfTaken (IsCloser 2)) (t.closed && not (full t)) _ _ (closed, omega arith)
        (closed, omega arith))
  step_at-IsCloser (installing h) = on_go-IfTaken (IsCloser 2) a _ (closed, omega arith)
  step_at-IsCloser dialling = on_dial-IfTaken (IsCloser 2) a _ (λ s. (dial_steps_left t s closed))
  step_at-IsCloser (queueing h body) =
      on_go-IfTaken (IsCloser 3) a _
        (if_keep (IfTaken (IsCloser 3)) (full t) _ _ tt (closed, omega arith))
  step_at-IsCloser sleeping =
      on_woken-IfTaken (IsCloser 3) a _ (λ w. (closed, wake_steps_left t.closed w closed))
  step_at-IsCloser (reading h) =
      on_read-IfTaken (IsCloser 4) a _ (λ r. (closed, read_steps_left h r))
  step_at-IsCloser load_conn =
      on_go-IfTaken (IsCloser 4) a _
        (closed, option_keep (λ p. steps_left p < 4) t.conn _ _ (omega arith) (λ h. omega arith))
  step_at-IsCloser (dropping h) = on_go-IfTaken (IsCloser 4) a _ (closed, omega arith)
  step_at-IsCloser (forgetting h) = on_go-IfTaken (IsCloser 5) a _ (closed, omega arith)

-- whether the supervisor takes a step
abbrev pub steps : Transport → Event → ℕ
steps t (supervisor a) = if is_some (supervise_step t a) then 1 else 0
steps t closer_goes = 0
steps t receiver_goes = 0
steps t (send_ends h body write_ok) = 0

abbrev pub steps_in : Transport → List Event → ℕ
steps_in t [] = 0
steps_in t (e ∷ es) = steps t e + steps_in (after t e) es

-- what an event may change of a closed transport: not that it is closed, and not the supervisor's
-- place, but by the supervisor
abbrev Stays : Transport → Transport → Type 0
Stays t u = (u.closed ≡ true) × (u.place ≡ t.place)

close_at-Stays : (c : Closer) (t : Transport) → t.closed ≡ true → IfTaken (Stays t) (close_at c t)
unfolding close_at
close_at-Stays not_called t e = (refl, refl)
close_at-Stays stored t e = (e, refl)
close_at-Stays cancelled t e = (e, refl)
close_at-Stays (took none) t e = (e, refl)
close_at-Stays (took (some h)) t e = (e, refl)
close_at-Stays waiting t e = if_keep (IfTaken (Stays t)) (has_exited t.place) _ _ (e, refl) tt
close_at-Stays closing_recv t e = (e, refl)
close_at-Stays returned t e = tt

receive_from-Stays :
    (r : List RecvItem) (t : Transport) → t.closed ≡ true → Stays t (left_by t (receive_from r t))
unfolding receive_from
receive_from-Stays [] t e = if_keep (λ o. Stays t (left_by t o)) t.recv_open _ _ (e, refl) (e, refl)
receive_from-Stays (item ∷ rest) t e = (e, refl)

send_end-Stays :
    (t : Transport) (h : ℕ) (body : List ℕ) (write_ok : Bool)
    → t.closed ≡ true
    → Stays t (send_end t h body write_ok).0
unfolding send_end
send_end-Stays t h body true e = (e, refl)
send_end-Stays t h body false e =
    if_keep (λ (r : Transport × SendResult). Stays t r.0) t.closed _ _ (e, refl) (e, refl)

stay :
    (t u : Transport)
    → Stays t u
    → (u.closed ≡ true) × (0 + steps_left u.place ≤ steps_left t.place)
stay t u s = (s.0, omega (arith, ap steps_left s.1))

fewer_left :
    (t : Transport) (o : Option Transport)
    → t.closed ≡ true
    → IfTaken (IsCloser (steps_left t.place)) o
    → let u = or_stay t o in
      (u.closed ≡ true) × ((if is_some o then 1 else 0) + steps_left u.place ≤ steps_left t.place)
fewer_left t none e h = (e, omega arith)
fewer_left t (some u) e h = (h.0, omega (arith, h.1))

pub after_steps :
    (t : Transport) (e : Event)
    → t.closed ≡ true
    → ((after t e).closed ≡ true) × (steps t e + steps_left (after t e).place ≤ steps_left t.place)
unfolding after supervise_step close_step receive
after_steps t (supervisor a) c = fewer_left t _ c (step_at-IsCloser t c a t.place)
after_steps t closer_goes c =
    stay t (after t closer_goes)
      (or_stay-IfTaken (Stays t) t _ (c, refl) (close_at-Stays t.closer t c))
after_steps t receiver_goes c = stay t (after t receiver_goes) (receive_from-Stays t.recv t c)
after_steps t (send_ends h body write_ok) c =
    stay t (after t (send_ends h body write_ok)) (send_end-Stays t h body write_ok c)

pub steps_left_le : (p : Place) → steps_left p ≤ 5
steps_left_le exited = omega arith
steps_left_le at_head = omega arith
steps_left_le load_conn = omega arith
steps_left_le sleeping = omega arith
steps_left_le dialling = omega arith
steps_left_le (drained h) = omega arith
steps_left_le (dialled o) = omega arith
steps_left_le (drain_head h) = omega arith
steps_left_le (read_failed h) = omega arith
steps_left_le (installing h) = omega arith
steps_left_le (reading h) = omega arith
steps_left_le (dropping h) = omega arith
steps_left_le (forgetting h) = omega arith
steps_left_le (queueing h body) = omega arith

steps_in_le :
    (t : Transport) (es : List Event) → t.closed ≡ true → steps_in t es ≤ steps_left t.place
steps_in_le t [] c = omega arith
steps_in_le t (e ∷ es) c =
    let now = after_steps t e c in omega (arith, now.1, steps_in_le (after t e) es now.0)

-- Once Close was called, the supervisor takes at most five more steps, whatever else happens in
-- between and whatever its reads, dials and timers come to.
pub supervise_ends : (t : Transport) (es : List Event) → t.closed ≡ true → steps_in t es ≤ 5
supervise_ends t es c = omega (arith, steps_in_le t es c, steps_left_le t.place)
