-- ===== src/Server/Listen/Reading.antt =====
-- server.go: the read loops as steps of a running beacon.
use beacon.Base.{
  ℕ, ◌≡◌, refl, sym, ap, ◌∙◌, inl, inr, Bool, true, false, ◌||◌, none, some, List, [], ◌∷◌, ◌++◌,
  if◌then◌else◌, arith, Bool-cases,
}
use beacon.Server.{Server, Protocol}
use beacon.Server.Packet.{handle_packet}
use beacon.Server.Worker.{Sockets}
use beacon.Server.Life.{Step, packet, after_step, after_steps}
use beacon.Server.Listen.{
  Message, ReadResult, batch, read_failure, read_message, read_messages, read_loop_batches,
  read_loop,
}

-- the messages that are passed on, as the steps of a running beacon
abbrev step_of : ℕ → Message → List Step
step_of now ([], addr) = []
step_of now (d ∷ ds, none) = []
step_of now (d ∷ ds, some addr) = packet (d ∷ ds) addr 0 now ∷ []

abbrev steps_of : ℕ → List Message → List Step
steps_of now [] = []
steps_of now (m ∷ ms) = step_of now m ++ steps_of now ms

abbrev pub packets : List ReadResult → List Step
packets [] = []
packets (batch ms now ∷ rs) = steps_of now ms ++ packets rs
packets (read_failure is_closed done ∷ rs) = if is_closed || done then [] else packets rs

abbrev pub ends : List ReadResult → Bool
ends [] = false
ends (batch ms now ∷ rs) = ends rs
ends (read_failure is_closed done ∷ rs) = if is_closed || done then true else ends rs

abbrev pub all_packets : List (List ReadResult × Bool) → List Step
all_packets [] = []
all_packets ((rs, done) ∷ runs) = packets rs ++ (if ends rs || done then [] else all_packets runs)

module _ (p : Protocol) (k : Sockets) (verify : List ℕ → List ℕ → List ℕ → Bool) where
  after_steps-append :
      (s : Server) (xs ys : List Step)
      → after_steps p k verify s (xs ++ ys)
        ≡ after_steps p k verify (after_steps p k verify s xs) ys
  unfolding after_steps
  after_steps-append s [] ys = refl
  after_steps-append s (x ∷ xs) ys = after_steps-append (after_step p k verify s x) xs ys

  read_message_steps :
      (s : Server) (m : Message) (now : ℕ)
      → read_message p verify s m now ≡ after_steps p k verify s (step_of now m)
  unfolding read_message after_steps after_step handle_packet
  read_message_steps s ([], addr) now = refl
  read_message_steps s (d ∷ ds, none) now = refl
  read_message_steps s (d ∷ ds, some addr) now = refl

  read_messages_steps :
      (s : Server) (ms : List Message) (now : ℕ)
      → read_messages p verify s ms now ≡ after_steps p k verify s (steps_of now ms)
  unfolding read_messages after_steps
  read_messages_steps s [] now = refl
  read_messages_steps s (m ∷ ms) now =
      read_messages_steps (read_message p verify s m now) ms now
      ∙ (ap (λ u. after_steps p k verify u (steps_of now ms)) (read_message_steps s m now)
          ∙ sym (after_steps-append s (step_of now m) (steps_of now ms)))

  -- What the read loop does with the results of its reads is a run of a beacon: one datagram step,
  -- from no bridged peer, for each message that has bytes and a UDP address, in order, up to the
  -- first error that ends the loop.
  pub read_loop_batches-after_steps :
      (s : Server) (rs : List ReadResult)
      → (read_loop_batches p verify s rs).0 ≡ after_steps p k verify s (packets rs)
  unfolding read_loop_batches after_steps
  read_loop_batches-after_steps s [] = refl
  read_loop_batches-after_steps s (batch ms now ∷ rs) =
      read_loop_batches-after_steps (read_messages p verify s ms now) rs
      ∙ (ap (λ u. after_steps p k verify u (packets rs)) (read_messages_steps s ms now)
          ∙ sym (after_steps-append s (steps_of now ms) (packets rs)))
  read_loop_batches-after_steps s (read_failure is_closed done ∷ rs) =
      elim (Bool-cases (is_closed || done)) [
        | inl e ↦ rw (e, read_loop_batches) refl
        | inr e ↦ rw (e, read_loop_batches) (read_loop_batches-after_steps s rs)
      ]

  ends_lem : (s : Server) (rs : List ReadResult) → (read_loop_batches p verify s rs).1 ≡ ends rs
  unfolding read_loop_batches
  ends_lem s [] = refl
  ends_lem s (batch ms now ∷ rs) = ends_lem (read_messages p verify s ms now) rs
  ends_lem s (read_failure is_closed done ∷ rs) = ground (arith, ends_lem s rs)

  stop_or_go_on :
      (b : Bool) (u : Server) (runs : List (List ReadResult × Bool))
      → (read_loop p verify u runs).0 ≡ after_steps p k verify u (all_packets runs)
      → (if b then (u, true) else read_loop p verify u runs).0
        ≡ after_steps p k verify u (if b then [] else all_packets runs)
  unfolding after_steps
  stop_or_go_on true u runs h = refl
  stop_or_go_on false u runs h = h

  -- What a read loop does, over the results of its reads and over panics that end a run of it, is
  -- a run of a beacon: one datagram step, from no bridged peer, for each message that has bytes
  -- and a UDP address, in order, up to the first error that ends the loop, or up to a panic after
  -- which `done` is closed.
  pub read_loop-after_steps :
      (s : Server) (runs : List (List ReadResult × Bool))
      → (read_loop p verify s runs).0 ≡ after_steps p k verify s (all_packets runs)
  unfolding read_loop after_steps
  read_loop-after_steps s [] = refl
  read_loop-after_steps s ((rs, done) ∷ runs) =
      let u = (read_loop_batches p verify s rs).0 in
      let left = if ends rs || done then [] else all_packets runs in
      ap (λ b. (if b || done then (u, true) else read_loop p verify u runs).0) (ends_lem s rs)
      ∙ (stop_or_go_on (ends rs || done) u runs (read_loop-after_steps u runs)
          ∙ (ap (λ t. after_steps p k verify t left) (read_loop_batches-after_steps s rs)
              ∙ sym (after_steps-append s (packets rs) left)))
