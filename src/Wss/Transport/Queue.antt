-- ===== src/Wss/Transport/Queue.antt =====
-- wss/internal/daemonwss/wss.go: the frames from the connection to Recv.
use mathlib.Core.List.{append_assoc, append-nil}
use beacon.Base.{
  ℕ, ◌≡◌, refl, sym, ap, ◌∙◌, Bool, true, false, not, ◌&&◌, Option, none, some, List, [], ◌∷◌, ◌++◌,
  length, if◌then◌else◌, if_keep, option_keep, arith,
}
use beacon.Wss.Transport.Taken.{
  IfTaken, or_stay-IfTaken, on_go-IfTaken, on_woken-IfTaken, on_dial-IfTaken,
}
use beacon.Wss.Transport.{
  RecvItem, frame, closed_error, Place, at_head, load_conn, sleeping, dialling, exited, drain_head,
  reading, read_failed, drained, forgetting, dropping, installing, queueing, dialled, Closer,
  not_called, stored, cancelled, waiting, closing_recv, returned, took, Transport, Answer, go, read,
  woken, dial, ReadAnswer, read_error, read_other, read_binary, Wake, timer, tick, full, shut,
  holds, read_leads_to, after_wake, after_dial, step_at, supervise_step, has_exited, close_at,
  close_step, receive, receive_from, left_by, dialled_transport, Event, supervisor, closer_goes,
  receiver_goes, send_ends, or_stay, after, after_all, send_end, SendResult,
}

abbrev frames : List RecvItem → List (List ℕ)
frames [] = []
frames (frame body ∷ items) = body ∷ frames items
frames (closed_error ∷ items) = frames items

-- the frame that waits for room in recvCh
abbrev in_hand : Place → List (List ℕ)
in_hand (queueing h body) = body ∷ []
in_hand _ = []

-- the frames that were read and not received
abbrev pub under_way : Transport → List (List ℕ)
under_way t = frames t.recv ++ in_hand t.place

abbrev read_at : Place → Answer → List (List ℕ)
read_at (reading h) (read (read_binary body)) = body ∷ []
read_at _ _ = []

abbrev pub reads : Transport → Event → List (List ℕ)
reads t (supervisor a) = read_at t.place a
reads t _ = []

abbrev handed : Option (Transport × RecvItem) → List (List ℕ)
handed none = []
handed (some r) = frames (r.1 ∷ [])

abbrev pub receives : Transport → Event → List (List ℕ)
receives t receiver_goes = handed (receive t)
receives t _ = []

abbrev pub all_reads : Transport → List Event → List (List ℕ)
all_reads t [] = []
all_reads t (e ∷ es) = reads t e ++ all_reads (after t e) es

abbrev pub all_receives : Transport → List Event → List (List ℕ)
all_receives t [] = []
all_receives t (e ∷ es) = receives t e ++ all_receives (after t e) es

frames-append : (xs ys : List RecvItem) → frames (xs ++ ys) ≡ frames xs ++ frames ys
frames-append [] ys = refl
frames-append (frame b ∷ xs) ys = ap (λ r. b ∷ r) (frames-append xs ys)
frames-append (closed_error ∷ xs) ys = frames-append xs ys

-- with what was under way, the supervisor's step leaves what it read under way
abbrev Passes : Transport → List (List ℕ) → Transport → Type 0
Passes t new u = under_way u ≡ under_way t ++ new

-- a step that reads nothing and leaves recvCh as it is
passes :
    (t : Transport) (q : Place) (c : Option ℕ) (cs : List Bool)
    → in_hand t.place ≡ []
    → in_hand q ≡ []
    → Passes t [] (record t { place = q; conn = c; conns = cs })
passes t q c cs h h' = cc (h, h', append-nil (under_way t))

stays :
    (t : Transport) (q : Place)
    → in_hand t.place ≡ []
    → in_hand q ≡ []
    → Passes t [] (record t { place = q })
stays t q h h' = passes t q t.conn t.conns h h'

after_wake_hand : (closed : Bool) (w : Wake) → in_hand (after_wake closed w) ≡ []
unfolding after_wake
after_wake_hand closed timer = refl
after_wake_hand closed tick = if_keep (λ q. in_hand q ≡ []) closed _ _ refl refl

after_dial-Passes : (t : Transport) (s : Bool) → in_hand t.place ≡ [] → Passes t [] (after_dial t s)
unfolding after_dial
after_dial-Passes t true h =
    passes t (dialled (some (length t.conns))) t.conn (t.conns ++ true ∷ []) h refl
after_dial-Passes t false h = stays t (dialled none) h refl

read_passes :
    (h : ℕ) (r : ReadAnswer) (t : Transport)
    → in_hand t.place ≡ []
    → Passes t (read_at (reading h) (read r)) (record t { place = read_leads_to h r })
unfolding read_leads_to
read_passes h read_error t e = stays t (read_failed h) e refl
read_passes h read_other t e = stays t (drain_head h) e refl
read_passes h (read_binary body) t e = cc (e, append-nil (frames t.recv))

queued :
    (t : Transport) (h : ℕ) (body : List ℕ)
    → t.place ≡ queueing h body
    → Passes t [] (record t { recv = t.recv ++ frame body ∷ []; place = drain_head h })
queued t h body e = cc (ap in_hand e, frames-append t.recv (frame body ∷ []))

step_at-Passes :
    (p : Place) (a : Answer) (t : Transport)
    → t.place ≡ p
    → IfTaken (Passes t (read_at p a)) (step_at p a t)
unfolding step_at
step_at-Passes at_head a t e = on_go-IfTaken (Passes t []) a _ (
    if_keep (λ q. Passes t [] (record t { place = q })) t.closed _ _
      (stays t exited (ap in_hand e) refl) (stays t load_conn (ap in_hand e) refl))
step_at-Passes load_conn a t e = on_go-IfTaken (Passes t []) a _ (
    option_keep (λ q. Passes t [] (record t { place = q })) t.conn _ _
      (stays t sleeping (ap in_hand e) refl) (λ h. stays t (drain_head h) (ap in_hand e) refl))
step_at-Passes (drain_head h) a t e = on_go-IfTaken (Passes t []) a _ (
    if_keep (λ q. Passes t [] (record t { place = q })) t.closed _ _
      (stays t (drained h) (ap in_hand e) refl) (stays t (reading h) (ap in_hand e) refl))
step_at-Passes (reading h) go t e = tt
step_at-Passes (reading h) (woken w) t e = tt
step_at-Passes (reading h) (dial s) t e = tt
step_at-Passes (reading h) (read r) t e = read_passes h r t (ap in_hand e)
step_at-Passes (read_failed h) a t e = on_go-IfTaken (Passes t []) a _ (
    if_keep (IfTaken (Passes t [])) (t.closed && not (full t)) _ _
      (cc (ap in_hand e, frames-append t.recv (closed_error ∷ [])))
      (stays t (drained h) (ap in_hand e) refl))
step_at-Passes (queueing h body) a t e =
    on_go-IfTaken (Passes t []) a _
      (if_keep (IfTaken (Passes t [])) (full t) _ _ tt (queued t h body e))
step_at-Passes (drained h) a t e = on_go-IfTaken (Passes t []) a _ (
    if_keep (λ q. Passes t [] (record t { place = q })) t.closed _ _
      (stays t exited (ap in_hand e) refl) (stays t (forgetting h) (ap in_hand e) refl))
step_at-Passes (forgetting h) a t e =
    on_go-IfTaken (Passes t []) a _
      (passes t (dropping h) (if holds t.conn h then none else t.conn) t.conns (ap in_hand e) refl)
step_at-Passes (dropping h) a t e =
    on_go-IfTaken (Passes t []) a _ (passes t sleeping t.conn (shut t.conns h) (ap in_hand e) refl)
step_at-Passes sleeping a t e =
    on_woken-IfTaken (Passes t []) a _
      (λ w. stays t (after_wake t.closed w) (ap in_hand e) (after_wake_hand t.closed w))
step_at-Passes dialling a t e =
    on_dial-IfTaken (Passes t []) a _ (λ s. after_dial-Passes t s (ap in_hand e))
step_at-Passes (dialled none) a t e = on_go-IfTaken (Passes t []) a _ (
    if_keep (IfTaken (Passes t [])) t.closed _ _ (stays t exited (ap in_hand e) refl)
      (stays t at_head (ap in_hand e) refl))
step_at-Passes (dialled (some h)) a t e = on_go-IfTaken (Passes t []) a _ (
    if_keep (IfTaken (Passes t [])) t.closed _ _
      (passes t exited t.conn (shut t.conns h) (ap in_hand e) refl)
      (stays t (installing h) (ap in_hand e) refl))
step_at-Passes (installing h) a t e =
    on_go-IfTaken (Passes t []) a _ (stays t at_head (ap in_hand e) refl)
step_at-Passes exited a t e = tt

-- an event passes on what it reads, and what it hands out comes first
abbrev Flows : Transport → Event → Type 0
Flows t e = receives t e ++ under_way (after t e) ≡ under_way t ++ reads t e

close_at-recv :
    (c : Closer) (t : Transport) → IfTaken (λ u. under_way u ≡ under_way t) (close_at c t)
unfolding close_at
close_at-recv not_called t = refl
close_at-recv stored t = refl
close_at-recv cancelled t = refl
close_at-recv (took none) t = refl
close_at-recv (took (some h)) t = refl
close_at-recv waiting t =
    if_keep (IfTaken (λ u. under_way u ≡ under_way t)) (has_exited t.place) _ _ refl tt
close_at-recv closing_recv t = refl
close_at-recv returned t = tt

receive_from-flows :
    (r : List RecvItem) (t : Transport)
    → t.recv ≡ r
    → handed (receive_from r t) ++ under_way (left_by t (receive_from r t)) ≡ under_way t
unfolding receive_from
receive_from-flows [] t e =
    if_keep (λ o. handed o ++ under_way (left_by t o) ≡ under_way t) t.recv_open _ _ refl refl
receive_from-flows (frame body ∷ rest) t e = ap (λ r. frames r ++ in_hand t.place) (sym e)
receive_from-flows (closed_error ∷ rest) t e = ap (λ r. frames r ++ in_hand t.place) (sym e)

blocked_reads : (p : Place) (a : Answer) (t : Transport) → step_at p a t ≡ none → read_at p a ≡ []
unfolding step_at
blocked_reads (reading h) (read (read_binary body)) t e = absurd (ground (arith, e))
blocked_reads _ _ t e = refl

passes_or_stays :
    (t : Transport) (new : List (List ℕ)) (o : Option Transport)
    → (o ≡ none → new ≡ [])
    → IfTaken (Passes t new) o
    → Passes t new (or_stay t o)
passes_or_stays t new none blocked p = cc (blocked refl, append-nil (under_way t))
passes_or_stays t new (some u) blocked p = p

send_end-under_way :
    (t : Transport) (h : ℕ) (body : List ℕ) (write_ok : Bool)
    → under_way (send_end t h body write_ok).0 ≡ under_way t
unfolding send_end
send_end-under_way t h body true = refl
send_end-under_way t h body false =
    if_keep (λ (r : Transport × SendResult). under_way r.0 ≡ under_way t) t.closed _ _ refl refl

after-Flows : (t : Transport) (e : Event) → Flows t e
unfolding after supervise_step close_step receive
after-Flows t (supervisor a) =
    passes_or_stays t (read_at t.place a) (step_at t.place a t) (blocked_reads t.place a t)
      (step_at-Passes t.place a t refl)
after-Flows t closer_goes =
    or_stay-IfTaken (λ u. under_way u ≡ under_way t) t (close_at t.closer t) refl
      (close_at-recv t.closer t)
    ∙ sym (append-nil (under_way t))
after-Flows t receiver_goes = receive_from-flows t.recv t refl ∙ sym (append-nil (under_way t))
after-Flows t (send_ends h body write_ok) =
    send_end-under_way t h body write_ok ∙ sym (append-nil (under_way t))

flow :
    (t : Transport) (es : List Event)
    → all_receives t es ++ under_way (after_all t es) ≡ under_way t ++ all_reads t es
unfolding after_all
flow t [] = sym (append-nil (under_way t))
flow t (e ∷ es) = cc (
  append_assoc (receives t e) (all_receives (after t e) es) (under_way (after_all (after t e) es)),
  flow (after t e) es,
  append_assoc (receives t e) (under_way (after t e)) (all_reads (after t e) es),
  after-Flows t e,
  append_assoc (under_way t) (reads t e) (all_reads (after t e) es),
)

-- After any events from Dial on, the frames that Recv has given, then those in recvCh, then the
-- one that waits for room in it, are the frames that were read, in order: none is lost, doubled or
-- overtaken, also over reconnects and Close.
pub frames_in_order :
    (recv_buffer : ℕ) (es : List Event)
    → let t = dialled_transport recv_buffer in
      all_receives t es ++ under_way (after_all t es) ≡ all_reads t es
unfolding dialled_transport
frames_in_order recv_buffer es = flow (dialled_transport recv_buffer) es
