-- ===== src/Server/Listen/Ending.antt =====
-- server.go and recover.go: Close and the tickers.
use beacon.Base.{
  ℕ, zero, suc, ◌+◌, ◌%◌, ◌^◌, ◌<◌, ◌≡◌, refl, sym, ap, ◌∙◌, Bool, true, false, Option, none, some,
  List, [], ◌∷◌, map, if◌then◌else◌, arith, if_keep_by,
}
use beacon.Server.{Server}
use beacon.Server.Listen.{
  recover_handler, Outcome, safely, Signal, ticked, done_closed, background_loop, Conn, Lifecycle,
  first_of, close_conns, close_server, close_again,
}

-- the first error of a list of sockets
abbrev pub first_error : List Conn → Option ℕ
first_error [] = none
first_error (c ∷ cs) = first_of c.close_result (first_error cs)

abbrev pub close_each : Conn → Conn
close_each c = record c { times_closed = c.times_closed + 1 }

first_of_assoc : (a b c : Option ℕ) → first_of (first_of a b) c ≡ first_of a (first_of b c)
first_of_assoc none b c = refl
first_of_assoc (some a) b c = refl

first_of-none : (a : Option ℕ) → first_of a none ≡ a
first_of-none none = refl
first_of-none (some a) = refl

close_conns_lem :
    (cs : List Conn) (e : Option ℕ)
    → close_conns cs e ≡ (map close_each cs, first_of e (first_error cs))
unfolding close_conns
close_conns_lem [] e = ap (λ x. ([], x)) (sym (first_of-none e))
close_conns_lem (c ∷ cs) e =
    ap (λ (r : List Conn × Option ℕ). (close_each c ∷ r.0, r.1))
      (close_conns_lem cs (first_of e c.close_result))
    ∙ ap (λ x. (close_each c ∷ map close_each cs, x))
        (first_of_assoc e c.close_result (first_error cs))

close_once : (l : Lifecycle) → l.once ≡ true → (close_server l).0 ≡ l
unfolding close_server
close_once l h =
    if_keep_by (λ t. t ≡ l) l.once _ _ (λ _. refl) (λ no. absurd (ground (arith, h, no)))

-- what the first Close leaves
abbrev after_close : Lifecycle → Lifecycle
after_close l = record l {
  conns = map close_each l.conns;
  done = true;
  once = true;
  close_err = first_error l.conns;
}

close_first : (l : Lifecycle) → l.once ≡ false → (close_server l).0 ≡ after_close l
unfolding close_server
close_first l h =
    if_keep_by (λ t. t ≡ after_close l) l.once _ _ (λ no. absurd (ground (arith, h, no)))
      (λ _.
        ap
          (λ (r : List Conn × Option ℕ). record l {
            conns = r.0;
            done = true;
            once = true;
            close_err = r.1;
          })
          (close_conns_lem l.conns none))

closed_stays : (n : ℕ) (l : Lifecycle) → l.once ≡ true → close_again n l ≡ l
unfolding close_again
closed_stays zero l h = refl
closed_stays (suc n) l h = ap (close_again n) (close_once l h) ∙ closed_stays n l h

-- After a first Close and any number of others, each socket was closed exactly once more than
-- before, `done` is closed, and a further Close gives the first error of the sockets.
pub close_again_lem :
    (n : ℕ) (l : Lifecycle)
    → l.once ≡ false
    → let t = close_again n (close_server l).0 in
      (t.conns ≡ map close_each l.conns)
      × (t.done ≡ true)
      × ((close_server t).1 ≡ first_error l.conns)
unfolding close_server
close_again_lem n l h =
    let same = ap (close_again n) (close_first l h) ∙ closed_stays n (after_close l) refl in
    (
      ap (λ (t : Lifecycle). t.conns) same,
      ap (λ (t : Lifecycle). t.done) same,
      ap (λ t. (close_server t).1) same,
    )

recover_handler_lem :
    (b : Bool) (count more : ℕ)
    → (recover_handler b count + more) % 2 ^ 64 ≡ (count + ((if b then 1 else 0) + more)) % 2 ^ 64
unfolding recover_handler
recover_handler_lem true count more = omega arith
recover_handler_lem false count more = omega arith

recover_handler_bound : (b : Bool) (count : ℕ) → count < 2 ^ 64 → recover_handler b count < 2 ^ 64
unfolding recover_handler
recover_handler_bound true count h = omega arith
recover_handler_bound false count h = h

-- the state that all ticks before `done` leave, and how many of them panic
module _ (fn : ℕ → Server → Outcome) where
  abbrev pub all_ticks : Server → List Signal → Server
  all_ticks s [] = s
  all_ticks s (ticked now ∷ signals) = all_ticks (fn now s).0 signals
  all_ticks s (done_closed ∷ signals) = s

  abbrev pub panics : Server → List Signal → ℕ
  panics s [] = 0
  panics s (ticked now ∷ signals) = (if (fn now s).1 then 1 else 0) + panics (fn now s).0 signals
  panics s (done_closed ∷ signals) = 0

  -- A background loop does the work of every tick before `done`, whether or not one panics, and
  -- counts the panics modulo 2 ^ 64, if the count was below that.
  pub background_loop_lem :
      (s : Server) (count : ℕ) (signals : List Signal)
      → count < 2 ^ 64
      → background_loop fn (s, count) signals
        ≡ (all_ticks s signals, (count + panics s signals) % 2 ^ 64)
  unfolding background_loop safely
  background_loop_lem s count [] h = ap (λ n. (s, n)) (omega (arith, h))
  background_loop_lem s count (done_closed ∷ signals) h = ap (λ n. (s, n)) (omega (arith, h))
  background_loop_lem s count (ticked now ∷ signals) h =
      let r = fn now s in
      background_loop_lem r.0 (recover_handler r.1 count) signals
        (recover_handler_bound r.1 count h)
      ∙ ap (λ n. (all_ticks r.0 signals, n)) (recover_handler_lem r.1 count (panics r.0 signals))
