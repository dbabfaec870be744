-- ===== src/Wss/Transport/Leak.antt =====
-- wss/internal/daemonwss/wss.go: a connection that Close misses.
use beacon.Base.{
  ℕ, ◌≡◌, refl, ap, ◌∙◌, Bool, true, false, List, [], ◌∷◌, get_or, ◌==◌, ==_iff, if_keep, arith,
}
use beacon.Wss.Transport.Taken.{IfTaken, or_stay-IfTaken, on_go-IfTaken}
use beacon.Wss.Transport.{
  RecvItem, Place, at_head, exited, installing, Closer, waiting, closing_recv, returned, Transport,
  Answer, step_at, supervise_step, has_exited, close_at, close_step, receive, receive_from, left_by,
  Event, supervisor, closer_goes, receiver_goes, send_ends, after, after_all, send_end, SendResult,
}

-- Close has taken the connection that was installed, and the supervisor has found the transport
-- open after its dial.
abbrev is_last : ℕ → Place → Bool
is_last h (installing g) = g == h
is_last h at_head = true
is_last h exited = true
is_last h _ = false

abbrev took_conn : Closer → Bool
took_conn waiting = true
took_conn closing_recv = true
took_conn returned = true
took_conn _ = false

record Leaks (h : ℕ) (t : Transport) : Type 0 where
  is_closed : t.closed ≡ true
  last : is_last h t.place ≡ true
  taken : took_conn t.closer ≡ true
  is_open : get_or t.conns h false ≡ true

step_at-Leaks :
    (h : ℕ) (p : Place) (a : Answer) (t : Transport)
    → t.place ≡ p
    → Leaks h t
    → IfTaken (Leaks h) (step_at p a t)
unfolding step_at
step_at-Leaks h at_head a t e l = on_go-IfTaken (Leaks h) a _ (record {
  is_closed = l.is_closed;
  last = ground (arith, l.is_closed);
  taken = l.taken;
  is_open = l.is_open;
})
step_at-Leaks h exited a t e l = tt
step_at-Leaks h (installing g) a t e l =
    on_go-IfTaken (Leaks h) a _
      (record { is_closed = l.is_closed; last = refl; taken = l.taken; is_open = l.is_open })
step_at-Leaks h _ a t e l = absurd (ground (arith, ap (is_last h) e, l.last))

close_at-Leaks :
    (h : ℕ) (c : Closer) (t : Transport)
    → t.closer ≡ c
    → Leaks h t
    → IfTaken (Leaks h) (close_at c t)
unfolding close_at
close_at-Leaks h waiting t e l =
    if_keep (IfTaken (Leaks h)) (has_exited t.place) _ _
      (record { is_closed = l.is_closed; last = l.last; taken = refl; is_open = l.is_open }) tt
close_at-Leaks h closing_recv t e l = record {
  is_closed = l.is_closed;
  last = l.last;
  taken = refl;
  is_open = l.is_open;
}
close_at-Leaks h returned t e l = tt
close_at-Leaks h _ t e l = absurd (ground (arith, ap took_conn e, l.taken))

receive_from-Leaks :
    (h : ℕ) (r : List RecvItem) (t : Transport) → Leaks h t → Leaks h (left_by t (receive_from r t))
unfolding receive_from
receive_from-Leaks h [] t l = if_keep (λ o. Leaks h (left_by t o)) t.recv_open _ _ l l
receive_from-Leaks h (item ∷ rest) t l = record {
  is_closed = l.is_closed;
  last = l.last;
  taken = l.taken;
  is_open = l.is_open;
}

send_end-Leaks :
    (h : ℕ) (t : Transport) (g : ℕ) (b : List ℕ) (write_ok : Bool)
    → Leaks h t
    → Leaks h (send_end t g b write_ok).0
unfolding send_end
send_end-Leaks h t g b true l = record {
  is_closed = l.is_closed;
  last = l.last;
  taken = l.taken;
  is_open = l.is_open;
}
send_end-Leaks h t g b false l =
    if_keep (λ (r : Transport × SendResult). Leaks h r.0) t.closed _ _ l
      (record { is_closed = l.is_closed; last = l.last; taken = l.taken; is_open = l.is_open })

after-Leaks : (h : ℕ) (t : Transport) (e : Event) → Leaks h t → Leaks h (after t e)
unfolding after supervise_step close_step receive
after-Leaks h t (supervisor a) l =
    or_stay-IfTaken (Leaks h) t _ l (step_at-Leaks h t.place a t refl l)
after-Leaks h t closer_goes l = or_stay-IfTaken (Leaks h) t _ l (close_at-Leaks h t.closer t refl l)
after-Leaks h t receiver_goes l = receive_from-Leaks h t.recv t l
after-Leaks h t (send_ends g b write_ok) l = send_end-Leaks h t g b write_ok l

after_all-Leaks : (h : ℕ) (t : Transport) (es : List Event) → Leaks h t → Leaks h (after_all t es)
unfolding after_all
after_all-Leaks h t [] l = l
after_all-Leaks h t (e ∷ es) l = after_all-Leaks h (after t e) es (after-Leaks h t e l)

-- If Close has taken the installed connection and waits, and the supervisor, past its last test of
-- `closed`, is about to install a new connection that is open, then the new connection is never
-- closed.
pub late_conn_stays_open :
    (t : Transport) (h : ℕ) (es : List Event)
    → t.place ≡ installing h
    → t.closed ≡ true
    → t.closer ≡ waiting
    → get_or t.conns h false ≡ true
    → get_or (after_all t es).conns h false ≡ true
late_conn_stays_open t h es p c w o =
    (after_all-Leaks h t es (record {
      is_closed = c;
      last = ap (is_last h) p ∙ (==_iff h h).1 refl;
      taken = ap took_conn w;
      is_open = o;
    })).is_open
