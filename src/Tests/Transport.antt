-- ===== src/Tests/Transport.antt =====
-- The daemon's transport at concrete runs: its buffer holds one frame.
use beacon.Base.{◌≡◌, ◌≤◌, refl, true, false, List, [], ◌∷◌, ◌++◌, get_or}
use beacon.Wss.Transport.{
  Transport, Place, reading, sleeping, dialling, queueing, Answer, go, read, woken, dial,
  read_error, read_binary, timer, tick, Event, supervisor, closer_goes, receiver_goes, send_ends,
  after, after_all, dialled_transport, supervise_step, step_at, read_leads_to, after_wake,
  after_dial, close_step, close_at, waiting, returned, receive, receive_from, send_end,
}
use beacon.Wss.Transport.Laws.{IsTransport}
use beacon.Wss.Transport.Reached.{reached-IsTransport}
use beacon.Wss.Transport.Closing.{steps_in, supervise_ends}
use beacon.Wss.Transport.Queue.{all_receives, all_reads, under_way, frames_in_order}
use beacon.Wss.Transport.Stuck.{close_waits_for_recv}
use beacon.Wss.Transport.Leak.{late_conn_stays_open}
use beacon.Wss.Transport.Returning.{fits, rounds, close_returns}

-- the definitions that a run computes with
unfoldable program : Unit {0}
unfolding after_all after supervise_step step_at read_leads_to after_wake after_dial close_step
    close_at dialled_transport receive receive_from send_end
program = tt

-- two frames are read, and the second finds recvCh full
abbrev two_frames : List Event
two_frames =
    supervisor go
    ∷ supervisor go
    ∷ supervisor go
    ∷ supervisor (read (read_binary (65 ∷ [])))
    ∷ supervisor go
    ∷ supervisor go
    ∷ supervisor (read (read_binary (66 ∷ [])))
    ∷ []

-- and Close is called: it marks the transport closed, cancels, takes the connection and closes it
abbrev closing : List Event
closing = closer_goes ∷ closer_goes ∷ closer_goes ∷ closer_goes ∷ []

abbrev jam : List Event
jam = two_frames ++ closing

abbrev jammed : Transport
jammed = after_all (dialled_transport 1) jam

abbrev more : List Event
more = supervisor go ∷ closer_goes ∷ send_ends 0 (67 ∷ []) false ∷ []

close_waits_for_recv_example :
    ((after_all jammed more).closer ≡ waiting)
    × ((after_all jammed more).place ≡ queueing 0 (66 ∷ []))
unfolding program
close_waits_for_recv_example =
    close_waits_for_recv jammed 0 (66 ∷ []) more refl refl refl (refl, (refl, (refl, tt)))

reached-IsTransport_example : IsTransport (after_all (dialled_transport 1) jam)
reached-IsTransport_example = reached-IsTransport 1 jam

supervise_ends_example : steps_in jammed (receiver_goes ∷ supervisor go ∷ supervisor go ∷ []) ≤ 5
unfolding program
supervise_ends_example =
    supervise_ends jammed (receiver_goes ∷ supervisor go ∷ supervisor go ∷ []) refl

frames_in_order_example :
    let t = dialled_transport 1 in
    all_receives t (two_frames ++ receiver_goes ∷ [])
      ++ under_way (after_all t (two_frames ++ receiver_goes ∷ []))
    ≡ all_reads t (two_frames ++ receiver_goes ∷ [])
frames_in_order_example = frames_in_order 1 (two_frames ++ receiver_goes ∷ [])

-- an answer for each place: reads and dials fail, and the ticker wakes a sleeper
abbrev fail_at : Place → Answer
fail_at (reading h) = read read_error
fail_at sleeping = woken tick
fail_at dialling = dial false
fail_at _ = go

abbrev fail : Transport → Answer
fail t = fail_at t.place

fail_at-fits : (p : Place) → fits p (fail_at p) ≡ true
fail_at-fits (reading h) = refl
fail_at-fits sleeping = refl
fail_at-fits dialling = refl
fail_at-fits _ = refl

close_returns_example : (rounds fail 10 (after_all (dialled_transport 1) jam)).closer ≡ returned
unfolding program
close_returns_example = close_returns fail 1 jam (λ t. fail_at-fits t.place) refl

-- the connection breaks, a dial succeeds, and Close comes between the last test and the installation
abbrev race : List Event
race =
    supervisor go
    ∷ supervisor go
    ∷ supervisor go
    ∷ supervisor (read read_error)
    ∷ supervisor go
    ∷ supervisor go
    ∷ supervisor go
    ∷ supervisor go
    ∷ supervisor (woken timer)
    ∷ supervisor (dial true)
    ∷ supervisor go
    ∷ closing

abbrev raced : Transport
raced = after_all (dialled_transport 1) race

late_conn_stays_open_example :
    get_or
      (after_all raced (supervisor go ∷ supervisor go ∷ closer_goes ∷ closer_goes ∷ [])).conns
      1
      false
    ≡ true
unfolding program
late_conn_stays_open_example =
    late_conn_stays_open raced 1 (supervisor go ∷ supervisor go ∷ closer_goes ∷ closer_goes ∷ [])
      refl refl refl refl
