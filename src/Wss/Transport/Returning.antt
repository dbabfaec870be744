-- ===== src/Wss/Transport/Returning.antt =====
-- wss/internal/daemonwss/wss.go: Close returns while Recv is called.
use beacon.Base.{
  zero, suc, pred, lt→ltb, ℕ, ◌+◌, ◌<◌, ◌≤◌, ◌≡◌, ◌⊎◌, refl, sym, ap, ◌∙◌, Bool, true, false, not,
  ◌&&◌, Option, none, some, List, [], ◌∷◌, length, if◌then◌else◌, is_some, if_keep, if_keep_by,
  arith, Bool-cases, inl, inr,
}
use beacon.Wss.Transport.Closing.{steps_left, steps_left_le, after_steps, steps}
use beacon.Wss.Transport.Laws.{called, IsTransport}
use beacon.Wss.Transport.Reached.{reached-IsTransport, after-IsTransport}
use beacon.Wss.Transport.{
  RecvItem, Place, at_head, load_conn, sleeping, dialling, exited, drain_head, reading, read_failed,
  drained, forgetting, dropping, installing, queueing, dialled, Closer, not_called, stored,
  cancelled, waiting, closing_recv, returned, took, Transport, Answer, go, read, woken, dial, full,
  step_at, supervise_step, has_exited, close_at, close_step, receive, receive_from, left_by,
  dialled_transport, Event, supervisor, closer_goes, receiver_goes, or_stay, after, after_all,
}

-- whether an answer is of the kind that a place waits for
abbrev pub fits : Place → Answer → Bool
fits (reading h) (read r) = true
fits (reading h) _ = false
fits sleeping (woken w) = true
fits sleeping _ = false
fits dialling (dial success) = true
fits dialling _ = false
fits _ go = true
fits _ _ = false

-- Recv, the supervisor and Close each take a turn.
abbrev pub round : (Transport → Answer) → Transport → Transport
round answers t =
    let u = after t receiver_goes in after (after u (supervisor (answers u))) closer_goes

abbrev pub rounds : (Transport → Answer) → ℕ → Transport → Transport
rounds answers zero t = t
rounds answers (suc n) t = rounds answers n (round answers t)

abbrev Goes : Option Transport → Type 0
Goes o = is_some o ≡ true

module _ (t : Transport) (room : full t ≡ false) where
  progress :
      (p : Place) (a : Answer) → fits p a ≡ true → has_exited p ≡ false → Goes (step_at p a t)
  unfolding step_at
  progress (read_failed h) go f e = if_keep Goes (t.closed && not (full t)) _ _ refl refl
  progress (queueing h body) go f e =
      if_keep_by Goes (full t) _ _ (λ no. absurd (ground (arith, room, no))) (λ _. refl)
  progress (dialled none) go f e = if_keep Goes t.closed _ _ refl refl
  progress (dialled (some h)) go f e = if_keep Goes t.closed _ _ refl refl
  progress exited a f e = absurd (ground (arith, e))
  progress at_head go f e = refl
  progress load_conn go f e = refl
  progress (drain_head h) go f e = refl
  progress (reading h) (read r) f e = refl
  progress (drained h) go f e = refl
  progress (forgetting h) go f e = refl
  progress (dropping h) go f e = refl
  progress (installing h) go f e = refl
  progress sleeping (woken w) f e = refl
  progress dialling (dial s) f e = refl
  progress _ _ f e = absurd (ground (arith, f))

is_exited : (p : Place) → has_exited p ≡ true → p ≡ exited
is_exited exited e = refl
is_exited _ e = absurd (ground (arith, e))

running : (p : Place) → has_exited p ≡ false → 0 < steps_left p
running exited e = absurd (ground (arith, e))
running _ e = omega arith

no_steps_left : (p : Place) → steps_left p ≡ 0 → has_exited p ≡ true
no_steps_left exited e = refl
no_steps_left _ e = absurd (ground (arith, e))

-- A receive makes room.
receive_makes_room :
    (r : List RecvItem) (t : Transport)
    → t.recv ≡ r
    → IsTransport t
    → full (left_by t (receive_from r t)) ≡ false
unfolding receive_from
receive_makes_room [] t e v =
    let room =
      ap not (lt→ltb (length t.recv) t.recv_buffer (omega (arith, ap length e, v.some_buffer))) in
    if_keep (λ o. full (left_by t o) ≡ false) t.recv_open _ _ room room
receive_makes_room (item ∷ rest) t e v =
    ap not (lt→ltb (length rest) t.recv_buffer (omega (arith, ap length e, v.bounded)))

makes_room : (t : Transport) → IsTransport t → full (after t receiver_goes) ≡ false
unfolding after receive
makes_room t v = receive_makes_room t.recv t refl v

-- Without a step left, the supervisor has returned and stays so.
idle : (t : Transport) (a : Answer) → has_exited t.place ≡ true → supervise_step t a ≡ none
unfolding supervise_step step_at
idle t a e = ap (λ p. step_at p a t) (is_exited t.place e)

-- how many steps Close has before it
abbrev turns_left : Closer → ℕ
turns_left not_called = 6
turns_left stored = 5
turns_left cancelled = 4
turns_left (took o) = 3
turns_left waiting = 2
turns_left closing_recv = 1
turns_left returned = 0

close_at-turns :
    (c : Closer) (t : Transport)
    → t.closer ≡ c
    → has_exited t.place ≡ true
    → turns_left (or_stay t (close_at c t)).closer ≡ pred (turns_left c)
unfolding close_at
close_at-turns waiting t e x =
    if_keep_by (λ o. turns_left (or_stay t o).closer ≡ 1) (has_exited t.place) _ _ (λ _. refl)
      (λ no. absurd (ground (arith, x, no)))
close_at-turns returned t e x = ap turns_left e
close_at-turns (took none) t e x = refl
close_at-turns (took (some h)) t e x = refl
close_at-turns _ t e x = refl

turns_left-called : (c : Closer) → called c ≡ true → turns_left c ≤ 5
turns_left-called not_called e = absurd (ground (arith, e))
turns_left-called _ e = omega arith

is_returned_turns : (c : Closer) → turns_left c ≡ 0 → c ≡ returned
is_returned_turns returned e = refl
is_returned_turns _ e = absurd (ground (arith, e))

receive_from-closer :
    (r : List RecvItem) (t : Transport) → (left_by t (receive_from r t)).closer ≡ t.closer
unfolding receive_from
receive_from-closer [] t = if_keep (λ o. (left_by t o).closer ≡ t.closer) t.recv_open _ _ refl refl
receive_from-closer (item ∷ rest) t = refl

pred_le : (l n m : ℕ) → l ≤ suc n → m ≤ pred l → m ≤ n
pred_le zero n m h k = omega (arith, k)
pred_le (suc l) n m h k = omega (arith, h, k)

pred_zero : (l m : ℕ) → l ≡ 0 → m ≤ pred l → m ≡ 0
pred_zero zero m e h = omega (arith, h)
pred_zero (suc l) m e h = omega (arith, e)

exited_left : (p : Place) → has_exited p ≡ true → steps_left p ≡ 0
exited_left p e = ap steps_left (is_exited p e)

le_pred : (l n : ℕ) → (l ≡ 0) ⊎ (l + 1 ≤ n) → l ≤ pred n
le_pred l zero h = grind arith
le_pred l (suc n) h = grind arith

-- Where there is room, the supervisor has returned or takes a step.
turn :
    (t : Transport) (a : Answer)
    → fits t.place a ≡ true
    → full t ≡ false
    → (steps_left t.place ≡ 0) ⊎ (steps t (supervisor a) ≡ 1)
unfolding supervise_step
turn t a fit room = elim (Bool-cases (has_exited t.place)) [
  | inl e ↦ inl (exited_left t.place e)
  | inr e ↦ inr (ap (λ b. if b then 1 else 0) (progress t room t.place a fit e))
]

stay_exited :
    (t : Transport) (e : Event)
    → t.closed ≡ true
    → has_exited t.place ≡ true
    → has_exited (after t e).place ≡ true
stay_exited t e c x =
    no_steps_left (after t e).place (omega (arith, (after_steps t e c).1, exited_left t.place x))

module _ (answers : Transport → Answer)
    (fit : (t : Transport) → fits t.place (answers t) ≡ true) where
  round-IsTransport : (t : Transport) → IsTransport t → IsTransport (round answers t)
  round-IsTransport t v =
      let u = after t receiver_goes in
      after-IsTransport (after u (supervisor (answers u))) closer_goes
        (after-IsTransport u (supervisor (answers u)) (after-IsTransport t receiver_goes v))

  -- While the supervisor runs, a round brings it closer to its end.
  round_steps :
      (t : Transport)
      → IsTransport t
      → t.closed ≡ true
      → ((round answers t).closed ≡ true)
        × (steps_left (round answers t).place ≤ pred (steps_left t.place))
  round_steps t v c =
      let u = after t receiver_goes in
      let first = after_steps t receiver_goes c in
      let second = after_steps u (supervisor (answers u)) first.0 in
      let third = after_steps (after u (supervisor (answers u))) closer_goes second.0 in
      (
        third.0,
        le_pred (steps_left (round answers t).place) (steps_left t.place)
            (elim (turn u (answers u) (fit u) (makes_room t v)) [
              | inl z ↦ inl (omega (arith, first.1, second.1, third.1, z))
              | inr z ↦ inr (omega (arith, first.1, second.1, third.1, z))
            ]),
      )

  -- After it, a round brings Close closer to its own.
  round_turns :
      (t : Transport)
      → t.closed ≡ true
      → has_exited t.place ≡ true
      → turns_left (round answers t).closer ≡ pred (turns_left t.closer)
  unfolding after close_step receive
  round_turns t c x =
      let u = after t receiver_goes in
      let first = after_steps t receiver_goes c in
      let x' = stay_exited t receiver_goes c x in
      let idles = ap (or_stay u) (idle u (answers u) x') in
      ap (λ (w : Transport). turns_left (after w closer_goes).closer) idles
      ∙ (close_at-turns u.closer u refl x'
          ∙ ap (λ k. pred (turns_left k)) (receive_from-closer t.recv t))

  supervisor_exits :
      (n : ℕ) (t : Transport)
      → IsTransport t
      → t.closed ≡ true
      → steps_left t.place ≤ n
      → let u = rounds answers n t in
        IsTransport u × (u.closed ≡ true) × (has_exited u.place ≡ true)
  supervisor_exits zero t v c h = (v, c, no_steps_left t.place (omega (arith, h)))
  supervisor_exits (suc n) t v c h =
      let s = round_steps t v c in
      supervisor_exits n (round answers t) (round-IsTransport t v) s.0 (pred_le _ n _ h s.1)

  closer_returns :
      (n : ℕ) (t : Transport)
      → IsTransport t
      → t.closed ≡ true
      → has_exited t.place ≡ true
      → turns_left t.closer ≤ n
      → (rounds answers n t).closer ≡ returned
  closer_returns zero t v c x h = is_returned_turns t.closer (omega (arith, h))
  closer_returns (suc n) t v c x h =
      let s = round_steps t v c in
      closer_returns n (round answers t) (round-IsTransport t v) s.0
        (no_steps_left (round answers t).place (pred_zero _ _ (exited_left t.place x) s.1))
        (pred_le (turns_left t.closer) n _ h (omega (arith, round_turns t c x)))

-- If what a read, a sleep or a dial comes to is some answer of its kind, then in any state reached
-- from Dial on in which Close was called, Close has returned after ten rounds in which Recv, the
-- supervisor and Close each take a turn.
pub close_returns :
    (answers : Transport → Answer) (recv_buffer : ℕ) (es : List Event)
    → ((t : Transport) → fits t.place (answers t) ≡ true)
    → (after_all (dialled_transport recv_buffer) es).closed ≡ true
    → (rounds answers 10 (after_all (dialled_transport recv_buffer) es)).closer ≡ returned
close_returns answers recv_buffer es fit c =
    let t = after_all (dialled_transport recv_buffer) es in
    let u = rounds answers 5 t in
    let done =
      supervisor_exits answers fit 5 t (reached-IsTransport recv_buffer es) c
        (steps_left_le t.place) in
    closer_returns answers fit 5 u done.0 done.1 done.2
      (turns_left-called u.closer (sym done.0.closed_by_close ∙ done.1))
