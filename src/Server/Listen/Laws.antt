-- ===== src/Server/Listen/Laws.antt =====
-- server.go: the sockets, the read loops, the tickers and Close.
use native.Mathlib.Nat.{mod-lt}
use beacon.Base.{
  ℕ, zero, suc, ◌+◌, ◌%◌, ◌<◌, ◌≡◌, ◌⊎◌, refl, inl, inr, Bool, true, false, Option, none, some, map,
  List, [], ◌∷◌, ◌++◌, ==_iff, length, length-append, get_or, get_or-snoc, ap, arith, Option-cases,
  Bool-cases,
}
use beacon.Server.{Server}
use beacon.Server.Listen.{
  Socket, close_socket, reader_count, bound, listen_failed, listen_all, same_port, send_conns,
  worker_port, listen_and_serve,
}

-- every socket has the port of the first
module _ (base : ℕ) where
  all_base :
      (ports : List ℕ) (i : ℕ)
      → same_port base ports ≡ true
      → i < length ports
      → get_or ports i 0 ≡ base
  unfolding same_port
  all_base [] i h l = absurd (omega (arith, l))
  all_base (port ∷ ports) zero h l = ground (arith, h, (==_iff port base).0)
  all_base (port ∷ ports) (suc i) h l = all_base ports i (ground (arith, h)) (omega (arith, l))

same_port_self :
    (base : ℕ) (ports : List ℕ) → same_port base ports ≡ true → same_port base (base ∷ ports) ≡ true
unfolding same_port
same_port_self base ports e = ground (arith, e, (==_iff base base).1 refl)

zero_index : (i : ℕ) → i % 1 ≡ 0
zero_index i = omega arith

worker_port_lem : (conns : List ℕ) (i : ℕ) → worker_port conns i ≡ get_or conns 0 0
unfolding worker_port send_conns
worker_port_lem [] i = refl
worker_port_lem (base ∷ ports) i = elim (Bool-cases (same_port base ports)) [
  | inl e ↦ rw e (
      all_base base (base ∷ ports) (i % suc (length ports)) (same_port_self base ports e)
        (mod-lt i (omega arith)))
  | inr e ↦ rw (e, zero_index i) refl
]

-- the sockets of the first rounds, all open or all closed
abbrev no_socket : Socket
no_socket = record { port = 0; is_open = false }

abbrev pub ports_of : List Socket → List ℕ
ports_of conns = map (λ c. c.port) conns

abbrev pub Are : (ℕ → Option ℕ) → Bool → List Socket → Type 0
Are listen is_open conns =
    (j : ℕ)
    → j < length conns
    → (listen j ≡ some (get_or conns j no_socket).port)
      × ((get_or conns j no_socket).is_open ≡ is_open)

Are-append :
    (listen : ℕ → Option ℕ) (conns : List Socket) (port : ℕ)
    → listen (length conns) ≡ some port
    → Are listen true conns
    → Are listen true (conns ++ record { port = port; is_open = true } ∷ [])
Are-append listen conns port e a j h =
    let c : Socket = record { port = port; is_open = true } in
    ground (
      arith,
      e,
      h,
      a j,
      length-append conns (c ∷ []),
      get_or-snoc conns c no_socket j,
      ap listen {x = j} {y = length conns},
    )

close_all_at :
    (conns : List Socket) (j : ℕ)
    → j < length conns
    → get_or (map close_socket conns) j no_socket ≡ close_socket (get_or conns j no_socket)
close_all_at [] j h = absurd (omega (arith, h))
close_all_at (c ∷ conns) zero h = refl
close_all_at (c ∷ conns) (suc j) h = close_all_at conns j (omega (arith, h))

length-close_all : (conns : List Socket) → length (map close_socket conns) ≡ length conns
length-close_all [] = refl
length-close_all (c ∷ conns) = omega (arith, length-close_all conns)

Are-closed :
    (listen : ℕ → Option ℕ) (conns : List Socket)
    → Are listen true conns
    → Are listen false (map close_socket conns)
unfolding close_socket
Are-closed listen conns a j h =
    let inside : j < length conns = rw⁻¹ (length-close_all conns) h in
    ground (arith, close_all_at conns j inside, a j inside)

listen_all_lem :
    (listen : ℕ → Option ℕ) (n : ℕ) (conns : List Socket)
    → Are listen true conns
    → ((all : List Socket) × (listen_all listen (length conns) n conns ≡ bound all)
        × (length all ≡ length conns + n)
        × Are listen true all)
      ⊎ ((k : ℕ) × (shut : List Socket) × (listen_all listen (length conns) n conns
            ≡ listen_failed k shut)
          × (length shut ≡ k)
          × (listen k ≡ none)
          × Are listen false shut)
unfolding listen_all
listen_all_lem listen zero conns a = inl (conns, refl, omega arith, a)
listen_all_lem listen (suc n) conns a = elim (Option-cases (listen (length conns))) [
  | inl e ↦ inr (
    length conns,
    map close_socket conns,
    rw (e, listen_all) refl,
    length-close_all conns,
    e,
    Are-closed listen conns a,
  )
  | inr (port, e) ↦
      let c : Socket = record { port = port; is_open = true } in
      let more = length-append conns (c ∷ []) in
      let next : length (conns ++ c ∷ []) ≡ suc (length conns) = omega (arith, more) in
      let rest = listen_all_lem listen n (conns ++ c ∷ []) (Are-append listen conns port e a) in
      rw (e, listen_all)
        (rw⁻¹ next (elim rest [
          | inl (all, g, l, at) ↦ inl (all, g, omega (arith, l, more), at)
          | inr (k, shut, g, l, failed, at) ↦ inr (k, shut, g, l, failed, at)
        ]))
]

-- ListenAndServe either opens as many sockets as it wants readers, which then are s.conns and open,
-- has a connection then, and each relay worker sends from the port of the first socket; or one of
-- the sockets fails, and s.conns has the sockets that were opened before it, all of them closed,
-- and nothing else has changed.
pub listen_and_serve_lem :
    (listen : ℕ → Option ℕ) (num_cpu max_shards : ℕ) (s : Server)
    → let r = listen_and_serve listen num_cpu max_shards s in
      ((conns : List Socket) × (r.0 ≡ bound conns)
        × (length conns ≡ reader_count num_cpu max_shards)
        × Are listen true conns
        × (r.1 ≡ record s { listening = true })
        × ((i : ℕ) → worker_port (ports_of conns) i ≡ get_or (ports_of conns) 0 0))
      ⊎ ((k : ℕ) × (conns : List Socket) × (r.0 ≡ listen_failed k conns)
          × (length conns ≡ k)
          × (listen k ≡ none)
          × Are listen false conns
          × (r.1 ≡ s))
unfolding listen_and_serve
listen_and_serve_lem listen num_cpu max_shards s =
    elim (listen_all_lem listen (reader_count num_cpu max_shards) []
      (λ j h. absurd (omega (arith, h)))) [
        | inl (conns, e, l, a) ↦
            inl (conns, e, omega (arith, l), a, rw e refl, λ i. worker_port_lem (ports_of conns) i)
        | inr (k, conns, e, l, failed, a) ↦ inr (k, conns, e, l, failed, a, rw e refl)
      ]
