-- ===== src/Server/Listen.antt =====
-- server.go, recover.go and the two reuseport files: the sockets of ListenAndServe, the read loops,
-- the tickers, and Close. What the network and the clock do is an input.
pub mod Laws
pub mod Reading
pub mod Ending
use beacon.Base.{
  ℕ, zero, suc, ◌+◌, ◌*◌, ◌%◌, ◌^◌, Bool, true, false, ◌&&◌, ◌||◌, Option, none, some, List, [],
  ◌∷◌, ◌++◌, map, ltb, ◌==◌, if◌then◌else◌, length, get_or,
}
use beacon.Net.{UdpAddr}
use beacon.Server.{Server, Protocol}
use beacon.Server.Packet.{handle_packet}

-- MaxReusePortShards: of reuseport_linux.go (no limit), and of reuseport_other.go
abbrev pub max_reuse_port_shards_linux : ℕ
max_reuse_port_shards_linux = 0

abbrev pub max_reuse_port_shards_other : ℕ
max_reuse_port_shards_other = 1

unfoldable pub reader_count : ℕ → ℕ → ℕ
reader_count num_cpu max_shards =
    let readers = if ltb (num_cpu * 2) 2 then 2 else num_cpu * 2 in
    if ltb 0 max_shards && ltb max_shards readers then max_shards else readers

-- a socket that listenReusePort has opened: its local port, and whether it is still open
pub record Socket : Type 0 where
  pub port : ℕ
  pub is_open : Bool

unfoldable pub close_socket : Socket → Socket
close_socket c = record c { is_open = false }

-- s.conns when the loop that opens the sockets is over; on an error, with the round of it
pub data Bound : Type 0 where
  bound : List Socket → Bound
  listen_failed : ℕ → List Socket → Bound

abbrev opened : ℕ → Socket
opened port = record { port = port; is_open = true }

-- The loop that opens the sockets, from its round i on, for n rounds; `conns` is s.conns. On an
-- error it closes them, and leaves them there. `listen` stands for listenReusePort, by the round:
-- the port, or an error.
unfoldable pub listen_all : (ℕ → Option ℕ) → ℕ → ℕ → List Socket → Bound
listen_all listen i zero conns = bound conns
listen_all listen i (suc n) conns = elim (listen i) [
  | none ↦ listen_failed i (map close_socket conns)
  | some port ↦ listen_all listen (suc i) n (conns ++ opened port ∷ [])
]

unfoldable pub same_port : ℕ → List ℕ → Bool
same_port base [] = true
same_port base (port ∷ ports) = (port == base) && same_port base ports

abbrev started : Server → Bound → Server
started s (bound conns) = record s { listening = true }
started s (listen_failed i conns) = s

-- ListenAndServe up to its workers: s.conns, and the rest of the server, which has a connection if
-- all sockets were opened.
unfoldable pub listen_and_serve : (ℕ → Option ℕ) → ℕ → ℕ → Server → Bound × Server
listen_and_serve listen num_cpu max_shards s =
    let sockets = listen_all listen 0 (reader_count num_cpu max_shards) [] in
    (sockets, started s sockets)

-- sendBatchConns and sendRawConns, by the ports of their sockets
unfoldable pub send_conns : List ℕ → List ℕ
send_conns [] = []
send_conns (base ∷ ports) = if same_port base ports then base ∷ ports else base ∷ []

-- the port that relay worker i sends from
unfoldable pub worker_port : List ℕ → ℕ → ℕ
worker_port conns i = let send = send_conns conns in get_or send (i % length send) 0

-- a message of a batch: its bytes, and its address if that is a *net.UDPAddr
abbrev pub Message : Type 0
Message = List ℕ × Option UdpAddr

-- what ReadBatch comes to, and, after an error, whether it is net.ErrClosed and whether `done` is closed
pub data ReadResult : Type 0 where
  batch : List Message → ℕ → ReadResult
  read_failure : Bool → Bool → ReadResult

module _ (p : Protocol) (verify : List ℕ → List ℕ → List ℕ → Bool) where
  unfoldable pub read_message : Server → Message → ℕ → Server
  read_message s ([], addr) now = s
  read_message s (d ∷ ds, none) now = s
  read_message s (d ∷ ds, some addr) now = handle_packet p verify s (d ∷ ds) addr now

  unfoldable pub read_messages : Server → List Message → ℕ → Server
  read_messages s [] now = s
  read_messages s (m ∷ ms) now = read_messages (read_message s m now) ms now

  -- readLoopBatches over what its reads come to. The second result is whether the loop has ended.
  unfoldable pub read_loop_batches : Server → List ReadResult → Server × Bool
  read_loop_batches s [] = (s, false)
  read_loop_batches s (batch ms now ∷ rs) = read_loop_batches (read_messages s ms now) rs
  read_loop_batches s (read_failure is_closed done ∷ rs) =
      if is_closed || done then (s, true) else read_loop_batches s rs

  -- readLoop over its runs of readLoopBatches, each with whether `done` is closed after it. A run
  -- whose reads do not end it is one that a panic ends; what it has not handled is not in its reads.
  unfoldable pub read_loop : Server → List (List ReadResult × Bool) → Server × Bool
  read_loop s [] = (s, false)
  read_loop s ((rs, done) ∷ runs) =
      let r = read_loop_batches s rs in
      let rest = read_loop r.0 runs in if r.1 || done then (r.0, true) else rest

-- recoveredPanicCount is a uint64.
unfoldable pub recover_handler : Bool → ℕ → ℕ
recover_handler panicked count = if panicked then (count + 1) % 2 ^ 64 else count

-- What a function comes to: the state that it leaves, and whether it panicked.
abbrev pub Outcome : Type 0
Outcome = Server × Bool

unfoldable pub safely : (Server → Outcome) → Server × ℕ → Server × ℕ
safely fn (s, count) = let r = fn s in (r.0, recover_handler r.1 count)

-- what a background loop waits for: its ticker, or `done`
pub data Signal : Type 0 where
  ticked : ℕ → Signal
  done_closed : Signal

-- reapLoop, gossipLoop, and registryDiscoveryLoop after its first run: the work of a tick depends on
-- its time.
unfoldable pub background_loop : (ℕ → Server → Outcome) → Server × ℕ → List Signal → Server × ℕ
background_loop fn st [] = st
background_loop fn st (ticked now ∷ signals) = background_loop fn (safely (fn now) st) signals
background_loop fn st (done_closed ∷ signals) = st

-- What Close works on: the sockets, each with the error that its Close gives (a number) and how
-- often it was closed; closeOnce and closeErr.
pub record Conn : Type 0 where
  pub close_result : Option ℕ
  pub times_closed : ℕ

pub record Lifecycle : Type 0 where
  pub conns : List Conn
  pub done : Bool
  pub once : Bool
  pub close_err : Option ℕ

abbrev pub first_of : Option ℕ → Option ℕ → Option ℕ
first_of none e = e
first_of (some a) e = some a

-- the loop of Close: the sockets, and the first error
unfoldable pub close_conns : List Conn → Option ℕ → List Conn × Option ℕ
close_conns [] err = ([], err)
close_conns (c ∷ cs) err =
    let r = close_conns cs (first_of err c.close_result) in
    (record c { times_closed = c.times_closed + 1 } ∷ r.0, r.1)

unfoldable pub close_server : Lifecycle → Lifecycle × Option ℕ
close_server l =
    let r = close_conns l.conns none in
    let t =
      if l.once then l else record l { conns = r.0; done = true; once = true; close_err = r.1 } in
    (t, t.close_err)

unfoldable pub close_again : ℕ → Lifecycle → Lifecycle
close_again zero l = l
close_again (suc n) l = close_again n (close_server l).0
