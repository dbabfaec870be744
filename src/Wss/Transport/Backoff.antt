-- ===== src/Wss/Transport/Backoff.antt =====
-- wss/internal/daemonwss/wss.go: how long the supervisor waits between failed dials.
use native.Mathlib.Nat.{pow-suc}
use beacon.Base.{
  ℕ, zero, suc, ◌*◌, ◌^◌, ◌≤◌, ◌≡◌, min, refl, ap, ◌∙◌, false, none, List, [], ◌∷◌, ltb, ltb→lt,
  ltb_false→le, arith, if_keep_by,
}
use beacon.Wss.Transport.{
  Transport, dialling, go, dial, woken, timer, supervisor, after_all, after, supervise_step,
  step_at, after_dial, after_wake, next_backoff, max_backoff, Event,
}

-- a dial that fails, the way back to the backoff, and its end
abbrev pub failed_dial : List Event
failed_dial =
    supervisor (dial false)
    ∷ supervisor go
    ∷ supervisor go
    ∷ supervisor go
    ∷ supervisor (woken timer)
    ∷ []

abbrev pub failed_dials : ℕ → Transport → Transport
failed_dials zero t = t
failed_dials (suc k) t = after_all (failed_dials k t) failed_dial

-- a transport that dials, with a backoff
abbrev pub dials_with : Transport → ℕ → Transport
dials_with t b = record t { place = dialling; conn = none; closed = false; backoff = b }

failed_dial_lem :
    (t : Transport) (b : ℕ) → after_all (dials_with t b) failed_dial ≡ dials_with t (next_backoff b)
unfolding after_all after supervise_step step_at after_dial after_wake
failed_dial_lem t b = refl

next_backoff-min : (n : ℕ) → next_backoff (min n max_backoff) ≡ min (n * 2) max_backoff
unfolding next_backoff
next_backoff-min n =
    if_keep_by (λ d. d ≡ min (n * 2) max_backoff) (ltb max_backoff (min n max_backoff * 2)) _ _
      (λ e. omega (arith, ltb→lt max_backoff (min n max_backoff * 2) e))
      (λ e. omega (arith, ltb_false→le max_backoff (min n max_backoff * 2) e))

-- A transport that dials with a backoff of b, at most 30 s, dials again after k failed dials, with
-- a backoff of b * 2 ^ k or 30 s, whichever is less, and is otherwise as it was.
pub backoff_doubles :
    (t : Transport) (b k : ℕ)
    → b ≤ max_backoff
    → failed_dials k (dials_with t b) ≡ dials_with t (min (b * 2 ^ k) max_backoff)
backoff_doubles t b zero h = ap (dials_with t) (omega (arith, h))
backoff_doubles t b (suc k) h =
    ap (λ u. after_all u failed_dial) (backoff_doubles t b k h)
    ∙ (failed_dial_lem t (min (b * 2 ^ k) max_backoff)
        ∙ ap (dials_with t) (
            next_backoff-min (b * 2 ^ k)
            ∙ ap (λ n. min n max_backoff) (rw (pow-suc 2 k) (omega arith))))
