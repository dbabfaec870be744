-- ===== src/Wss/Transport/Stuck.antt =====
-- wss/internal/daemonwss/wss.go: Close and a full recvCh.
use beacon.Base.{
  ℕ, ◌≡◌, refl, sym, ap, subst, ◌∙◌, Bool, true, false, none, List, [], ◌∷◌, All, if_keep,
  if_keep_by, arith,
}
use beacon.Wss.Transport.{
  queueing, waiting, Transport, Answer, go, read, woken, dial, full, step_at, supervise_step,
  close_at, close_step, Event, supervisor, closer_goes, receiver_goes, send_ends, or_stay, after,
  after_all, send_end, SendResult,
}

abbrev pub is_receive : Event → Bool
is_receive receiver_goes = true
is_receive _ = false

-- Close waits for a supervisor that waits for room in recvCh.
record Jammed (h : ℕ) (body : List ℕ) (t : Transport) : Type 0 where
  at_queue : t.place ≡ queueing h body
  no_room : full t ≡ true
  waits : t.closer ≡ waiting

send_end-Jammed :
    (h : ℕ) (body : List ℕ) (t : Transport) (g : ℕ) (b : List ℕ) (write_ok : Bool)
    → Jammed h body t
    → Jammed h body (send_end t g b write_ok).0
unfolding send_end
send_end-Jammed h body t g b true j = record {
  at_queue = j.at_queue;
  no_room = j.no_room;
  waits = j.waits;
}
send_end-Jammed h body t g b false j =
    if_keep (λ (r : Transport × SendResult). Jammed h body r.0) t.closed _ _ j
      (record { at_queue = j.at_queue; no_room = j.no_room; waits = j.waits })

blocked_at :
    (h : ℕ) (body : List ℕ) (a : Answer) (t : Transport)
    → full t ≡ true
    → step_at (queueing h body) a t ≡ none
unfolding step_at
blocked_at h body go t f =
    if_keep_by (λ o. o ≡ none) (full t) _ _ (λ _. refl) (λ no. absurd (ground (arith, f, no)))
blocked_at h body (read r) t f = refl
blocked_at h body (woken w) t f = refl
blocked_at h body (dial s) t f = refl

queue_blocked :
    (h : ℕ) (body : List ℕ) (t : Transport) (a : Answer)
    → Jammed h body t
    → step_at t.place a t ≡ none
queue_blocked h body t a j = ap (λ p. step_at p a t) j.at_queue ∙ blocked_at h body a t j.no_room

close_blocked :
    (h : ℕ) (body : List ℕ) (t : Transport) → Jammed h body t → close_at t.closer t ≡ none
unfolding close_at
close_blocked h body t j = rw (j.waits, j.at_queue)

after-Jammed :
    (h : ℕ) (body : List ℕ) (t : Transport) (e : Event)
    → is_receive e ≡ false
    → Jammed h body t
    → Jammed h body (after t e)
unfolding after supervise_step close_step
after-Jammed h body t (supervisor a) n j =
    subst (λ o. Jammed h body (or_stay t o)) (sym (queue_blocked h body t a j)) j
after-Jammed h body t closer_goes n j =
    subst (λ o. Jammed h body (or_stay t o)) (sym (close_blocked h body t j)) j
after-Jammed h body t receiver_goes n j = absurd (ground (arith, n))
after-Jammed h body t (send_ends g b write_ok) n j = send_end-Jammed h body t g b write_ok j

after_all-Jammed :
    (h : ℕ) (body : List ℕ) (t : Transport) (es : List Event)
    → All (λ e. is_receive e ≡ false) es
    → Jammed h body t
    → Jammed h body (after_all t es)
unfolding after_all
after_all-Jammed h body t [] n j = j
after_all-Jammed h body t (e ∷ es) n j =
    after_all-Jammed h body (after t e) es n.1 (after-Jammed h body t e n.0 j)

-- If Close waits for the supervisor while the supervisor waits for room in a full recvCh, then as
-- long as Recv is not called, Close does not return and the supervisor stays where it is.
pub close_waits_for_recv :
    (t : Transport) (h : ℕ) (body : List ℕ) (es : List Event)
    → t.place ≡ queueing h body
    → full t ≡ true
    → t.closer ≡ waiting
    → All (λ e. is_receive e ≡ false) es
    → ((after_all t es).closer ≡ waiting) × ((after_all t es).place ≡ queueing h body)
close_waits_for_recv t h body es q f w n =
    let j = after_all-Jammed h body t es n (record { at_queue = q; no_room = f; waits = w }) in
    (j.waits, j.at_queue)
