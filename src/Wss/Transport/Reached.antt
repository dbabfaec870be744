-- ===== src/Wss/Transport/Reached.antt =====
-- wss/internal/daemonwss/wss.go: the invariant of the daemon's transport, over every interleaving.
use beacon.Base.{
  ℕ, ◌≤◌, ◌≡◌, refl, sym, ap, ◌∙◌, Bool, true, false, not, Option, none, some, List, [], ◌∷◌,
  length, if_keep, arith,
}
use beacon.Wss.Transport.Taken.{IfTaken, or_stay-IfTaken, if-IfTaken}
use beacon.Wss.Transport.{
  RecvItem, Closer, not_called, stored, cancelled, waiting, closing_recv, returned, took, Transport,
  supervise_step, has_exited, close_at, close_step, receive, receive_from, left_by,
  dialled_transport, Event, supervisor, closer_goes, receiver_goes, send_ends, after, after_all,
  send_end, SendResult,
}
use beacon.Wss.Transport.Laws.{called, past_wait, is_returned, IsTransport, step_at-IsTransport}

close_on :
    (t : Transport) (c : Closer) (conn : Option ℕ) (conns : List Bool)
    → called t.closer ≡ true
    → is_returned t.closer ≡ false
    → called c ≡ true
    → past_wait c ≡ false
    → is_returned c ≡ false
    → IsTransport t
    → IsTransport (record t { closer = c; conn = conn; conns = conns })
close_on t c conn conns k n k' w n' v = record {
  bounded = v.bounded;
  some_buffer = v.some_buffer;
  exits_on_close = v.exits_on_close;
  closed_by_close = v.closed_by_close ∙ (k ∙ sym k');
  waited = λ z. absurd (ground (arith, z, w));
  recv_closed = v.recv_closed ∙ ap not (n ∙ sym n');
  backoff_range = v.backoff_range;
}

close_at-IsTransport :
    (c : Closer) (t : Transport) → t.closer ≡ c → IsTransport t → IfTaken IsTransport (close_at c t)
unfolding close_at
close_at-IsTransport not_called t e v = record {
  bounded = v.bounded;
  some_buffer = v.some_buffer;
  exits_on_close = λ _. refl;
  closed_by_close = refl;
  waited = λ z. absurd (ground (arith, z));
  recv_closed = ground (arith, e, v.recv_closed);
  backoff_range = v.backoff_range;
}
close_at-IsTransport stored t e v =
    close_on t cancelled t.conn t.conns (ap called e) (ap is_returned e) refl refl refl v
close_at-IsTransport cancelled t e v =
    close_on t (took t.conn) none t.conns (ap called e) (ap is_returned e) refl refl refl v
close_at-IsTransport (took none) t e v =
    close_on t waiting t.conn t.conns (ap called e) (ap is_returned e) refl refl refl v
close_at-IsTransport (took (some h)) t e v =
    close_on t waiting t.conn _ (ap called e) (ap is_returned e) refl refl refl v
close_at-IsTransport waiting t e v =
    if-IfTaken IsTransport (has_exited t.place) _ _
      (λ done. record {
        bounded = v.bounded;
        some_buffer = v.some_buffer;
        exits_on_close = v.exits_on_close;
        closed_by_close = ground (arith, e, v.closed_by_close);
        waited = λ _. done;
        recv_closed = ground (arith, e, v.recv_closed);
        backoff_range = v.backoff_range;
      })
      (λ _. tt)
close_at-IsTransport closing_recv t e v = record {
  bounded = v.bounded;
  some_buffer = v.some_buffer;
  exits_on_close = v.exits_on_close;
  closed_by_close = ground (arith, e, v.closed_by_close);
  waited = λ _. v.waited (ap past_wait e);
  recv_closed = refl;
  backoff_range = v.backoff_range;
}
close_at-IsTransport returned t e v = tt

-- what recvCh, the connections and the frames written are left to be
keep :
    (t : Transport) (rs : List RecvItem) (c : Option ℕ) (ws : List (ℕ × List ℕ))
    → length rs ≤ length t.recv
    → IsTransport t
    → IsTransport (record t { recv = rs; conn = c; written = ws })
keep t rs c ws short v = record {
  bounded = omega (arith, short, v.bounded);
  some_buffer = v.some_buffer;
  exits_on_close = v.exits_on_close;
  closed_by_close = v.closed_by_close;
  waited = v.waited;
  recv_closed = v.recv_closed;
  backoff_range = v.backoff_range;
}

receive_from-IsTransport :
    (r : List RecvItem) (t : Transport)
    → length r ≤ length t.recv
    → IsTransport t
    → IsTransport (left_by t (receive_from r t))
unfolding receive_from
receive_from-IsTransport [] t e v = if_keep (λ o. IsTransport (left_by t o)) t.recv_open _ _ v v
receive_from-IsTransport (item ∷ rest) t e v = keep t rest t.conn t.written (omega (arith, e)) v

send_end-IsTransport :
    (t : Transport) (h : ℕ) (body : List ℕ) (write_ok : Bool)
    → IsTransport t
    → IsTransport (send_end t h body write_ok).0
unfolding send_end
send_end-IsTransport t h body true v = keep t t.recv t.conn _ (omega arith) v
send_end-IsTransport t h body false v =
    if_keep (λ (r : Transport × SendResult). IsTransport r.0) t.closed _ _ v
      (keep t t.recv _ t.written (omega arith) v)

pub after-IsTransport : (t : Transport) (e : Event) → IsTransport t → IsTransport (after t e)
unfolding after supervise_step close_step receive
after-IsTransport t (supervisor a) v =
    or_stay-IfTaken IsTransport t _ v (step_at-IsTransport t.place a t refl v)
after-IsTransport t closer_goes v =
    or_stay-IfTaken IsTransport t _ v (close_at-IsTransport t.closer t refl v)
after-IsTransport t receiver_goes v = receive_from-IsTransport t.recv t (omega arith) v
after-IsTransport t (send_ends h body write_ok) v = send_end-IsTransport t h body write_ok v

pub after_all-IsTransport :
    (t : Transport) (es : List Event) → IsTransport t → IsTransport (after_all t es)
unfolding after_all
after_all-IsTransport t [] v = v
after_all-IsTransport t (e ∷ es) v = after_all-IsTransport (after t e) es (after-IsTransport t e v)

dialled-IsTransport : (recv_buffer : ℕ) → IsTransport (dialled_transport recv_buffer)
unfolding dialled_transport
dialled-IsTransport recv_buffer = record {
  bounded = omega arith;
  some_buffer = grind arith;
  exits_on_close = λ z. absurd (ground (arith, z));
  closed_by_close = refl;
  waited = λ z. absurd (ground (arith, z));
  recv_closed = refl;
  backoff_range = (omega arith, omega arith);
}

-- After any events from Dial on, recvCh holds at most its buffer and is open until Close returns,
-- Close is past its wait only when the supervisor has returned, the supervisor has returned only
-- if Close was called, and the backoff is between 250 ms and 30 s.
pub reached-IsTransport :
    (recv_buffer : ℕ) (es : List Event) → IsTransport (after_all (dialled_transport recv_buffer) es)
reached-IsTransport recv_buffer es =
    after_all-IsTransport (dialled_transport recv_buffer) es (dialled-IsTransport recv_buffer)
