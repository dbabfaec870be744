-- ===== src/Server/Relay/Order.antt =====
-- server.go: the relay queues over time. Read loops dispatch frames and workers take jobs, in any
-- interleaving; the jobs for one destination leave in the order in which they came.
use beacon.Base.{
  ℕ, ◌%◌, ◌<◌, ◌≡◌, inl, inr, refl, sym, ap, ◌∙◌, ◌&&◌, none, some, List, [], ◌∷◌, ◌++◌, ◌==◌,
  if◌then◌else◌, length, get_or, All, All-append, arith, Bool-cases, get_or-set, length-set, ==_iff,
  List-cases, get_or-cons,
}
use mathlib.Core.List.{append_assoc, append-nil}
use beacon.RateLimit.{RelaySourceKey, relay_allow}
use beacon.Server.{Server, RelayJob, max_relays_per_source_per_second}
use beacon.Server.Relay.{queue_index, relay_queue_for, relay_job, dispatch_relay, dequeue}
use beacon.Server.Relay.Laws.{admitted, has_room, dispatch_relay_queues, enqueue-width}

pub data QueueEvent : Type 0 where
  arrive : List ℕ → RelaySourceKey → ℕ → QueueEvent
  serve : ℕ → QueueEvent

unfoldable pub after : Server → QueueEvent → Server
after s (arrive d src now) = dispatch_relay s d src now
after s (serve i) = (dequeue s i).0

unfoldable pub after_all : Server → List QueueEvent → Server
after_all s [] = s
after_all s (e ∷ es) = after_all (after s e) es

unfoldable pub accepted_by : Server → QueueEvent → List RelayJob
accepted_by s (arrive d src now) =
    if admitted s d src now && has_room s (relay_job d).dest_id then relay_job d ∷ [] else []
accepted_by s (serve i) = []

unfoldable pub served_by : Server → QueueEvent → List RelayJob
served_by s (arrive d src now) = []
served_by s (serve i) = elim (dequeue s i).1 [ some job ↦ job ∷ [] | none ↦ [] ]

-- the jobs that were put into a queue, and those that workers took out, in order
unfoldable pub accepted : Server → List QueueEvent → List RelayJob
accepted s [] = []
accepted s (e ∷ es) = accepted_by s e ++ accepted (after s e) es

unfoldable pub served : Server → List QueueEvent → List RelayJob
served s [] = []
served s (e ∷ es) = served_by s e ++ served (after s e) es

unfoldable pub for_dest : ℕ → List RelayJob → List RelayJob
for_dest dest [] = []
for_dest dest (j ∷ js) = if j.dest_id == dest then j ∷ for_dest dest js else for_dest dest js

for_dest-append :
    (dest : ℕ) (xs ys : List RelayJob)
    → for_dest dest (xs ++ ys) ≡ for_dest dest xs ++ for_dest dest ys
unfolding for_dest
for_dest-append dest [] ys = refl
for_dest-append dest (x ∷ xs) ys = rw (for_dest-append dest xs ys) (ground arith)

-- Each job waits in the queue of its destination.
pub record IsRouted (queues : List (List RelayJob)) : Type 0 where
  pub some_queue : 0 < length queues
  pub routed : (i : ℕ) → All (λ j. j.dest_id % length queues ≡ i) (get_or queues i [])

dispatch_relay-width :
    (s : Server) (d : List ℕ) (src : RelaySourceKey) (now : ℕ)
    → length (dispatch_relay s d src now).relay_queues ≡ length s.relay_queues
unfolding dispatch_relay
dispatch_relay-width s d src now =
    let r = relay_allow s.relay_rl src now max_relays_per_source_per_second in
    ground (arith, enqueue-width (record s { relay_rl = r.0 }) (relay_job d))

module _ (s : Server) (ok : IsRouted s.relay_queues) where
  pub arrive-IsRouted :
      (d : List ℕ) (src : RelaySourceKey) (now : ℕ)
      → IsRouted (dispatch_relay s d src now).relay_queues
  unfolding queue_index
  arrive-IsRouted d src now = record {
    some_queue = rw (dispatch_relay-width s d src now) ok.some_queue;
    routed = λ i.
        rw (dispatch_relay-width s d src now, dispatch_relay_queues s d src now i ok.some_queue)
          elim (Bool-cases (
            admitted s d src now
            && has_room s (relay_job d).dest_id
            && (queue_index s (relay_job d).dest_id == i))) [
              | inl e ↦ rw e (
                  All-append _ (get_or s.relay_queues i []) (relay_job d ∷ []) (ok.routed i)
                    (ground arith))
              | inr e ↦ rw e (ok.routed i)
            ];
  }

  pub serve-IsRouted : (i : ℕ) → IsRouted (dequeue s i).0.relay_queues
  unfolding dequeue
  serve-IsRouted i = elim (List-cases (get_or s.relay_queues i [])) [
    | inl e ↦ rw (e, dequeue) ok
    | inr (job, rest, e) ↦
        rw (e, dequeue)
          (record {
            some_queue = rw length-set ok.some_queue;
            routed = λ j.
                rw
                  (
                    length-set,
                    get_or-set s.relay_queues i j rest [] (get_or-cons s.relay_queues i e),
                  )
                  elim (Bool-cases (i == j)) [
                    | inl h ↦ rw (h, ← (==_iff i j).0 h) (rw e at (ok.routed i)).1
                    | inr h ↦ rw h (ok.routed j)
                  ];
          })
  ]

  arrive-order :
      (d : List ℕ) (src : RelaySourceKey) (now dest : ℕ)
      → for_dest dest (relay_queue_for (dispatch_relay s d src now) dest)
        ≡ for_dest dest (relay_queue_for s dest) ++ for_dest dest (accepted_by s (arrive d src now))
  unfolding relay_queue_for queue_index accepted_by for_dest
  arrive-order d src now dest =
      let n = length s.relay_queues in
      let old = get_or s.relay_queues (dest % n) [] in
      let job = relay_job d in
      rw (dispatch_relay-width s d src now) (
        rw (dispatch_relay_queues s d src now (dest % n) ok.some_queue) (
          ground (
            arith,
            for_dest-append dest old (job ∷ []),
            append-nil (for_dest dest old),
            ap (λ (x : ℕ). x % n) {x = job.dest_id} {y = dest},
          )))

  serve-order :
      (i dest : ℕ)
      → for_dest dest (served_by s (serve i))
          ++ for_dest dest (relay_queue_for (dequeue s i).0 dest)
        ≡ for_dest dest (relay_queue_for s dest)
  unfolding relay_queue_for queue_index served_by dequeue for_dest
  serve-order i dest = elim (List-cases (get_or s.relay_queues i [])) [
    | inl e ↦ rw (e, served_by, dequeue)
    | inr (job, rest, e) ↦
        let n = length s.relay_queues in
        let home = (rw e at (ok.routed i)).0 in
        rw (e, served_by, dequeue)
          (rw
            (
              length-set,
              get_or-set s.relay_queues i (dest % n) rest [] (get_or-cons s.relay_queues i e),
            )
            elim (Bool-cases (i == (dest % n))) [
              | inl h ↦ rw (h, ← (==_iff i (dest % n)).0 h, e) (ground arith)
              | inr h ↦
                  rw h (ground (arith, home, ap (λ (x : ℕ). x % n) {x = job.dest_id} {y = dest}))
            ])
  ]

  after-IsRouted : (e : QueueEvent) → IsRouted (after s e).relay_queues
  unfolding after
  after-IsRouted (arrive d src now) = arrive-IsRouted d src now
  after-IsRouted (serve i) = serve-IsRouted i

  after-order :
      (e : QueueEvent) (dest : ℕ)
      → for_dest dest (served_by s e) ++ for_dest dest (relay_queue_for (after s e) dest)
        ≡ for_dest dest (relay_queue_for s dest) ++ for_dest dest (accepted_by s e)
  unfolding after served_by accepted_by for_dest
  after-order (arrive d src now) dest = arrive-order d src now dest
  after-order (serve i) dest = serve-order i dest ∙ sym (append-nil _)

regroup {ℓ} :
    {A : Type ℓ} (a b q c d e f : List A)
    → b ++ q ≡ c ++ d
    → a ++ c ≡ e ++ f
    → (a ++ b) ++ q ≡ e ++ (f ++ d)
regroup a b q c d e f p r = rw (append_assoc a b q, p, ← append_assoc a c d, r, append_assoc e f d)

-- If each waiting job is in the queue of its destination, then for each destination, the jobs that
-- workers took, followed by those that wait, are those that waited at first, followed by those
-- that were put in, in order: none is lost, doubled or overtaken.
pub served_order :
    (s : Server) (es : List QueueEvent) (dest : ℕ)
    → IsRouted s.relay_queues
    → for_dest dest (served s es) ++ for_dest dest (relay_queue_for (after_all s es) dest)
      ≡ for_dest dest (relay_queue_for s dest) ++ for_dest dest (accepted s es)
unfolding served accepted after_all for_dest
served_order s [] dest ok = sym (append-nil _)
served_order s (e ∷ es) dest ok =
    let ih = served_order (after s e) es dest (after-IsRouted s ok e) in
    let step = after-order s ok e dest in
    rw (for_dest-append dest (served_by s e), for_dest-append dest (accepted_by s e))
      (regroup (for_dest dest (served_by s e)) _ _ _ _ _ _ ih step)
