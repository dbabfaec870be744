-- ===== src/RateLimit/Window.antt =====
-- ratelimit_shard.go: relayRateLimiter against a reference for one source, and what its budget is.
use beacon.Base.{
  ℕ, ◌+◌, ◌*◌, ◌%◌, ◌^◌, ◌≤◌, ◌<◌, ◌≡◌, inl, inr, refl, Bool, true, false, not, ◌&&◌, ◌||◌, Option,
  none, some, List, [], ◌∷◌, ltb, leb, if◌then◌else◌, length, arith, same, same→eq, Bool-cases,
  Option-cases,
}
use beacon.Base.Shards.{
  IsPlaced, load, store, load-store, store-IsPlaced, load-sweep, empty_shards-IsPlaced,
  load-empty_shards,
}
use beacon.RateLimit.{
  RelayRateLimiter, RelaySourceKey, RelaySourceWindow, rate_limit_shards, relay_allow, relay_sweep,
  shard_relay_source, source_key, second, new_relay_rate_limiter,
}
use beacon.RateLimit.Interval.{times_of}

abbrev pub Window : Type 0
Window = Option RelaySourceWindow

-- The reference: what one call does to the window of its source, and whether it passes.
abbrev pub in_budget : ℕ → Window → ℕ → Bool
in_budget max_per_second none t = true
in_budget max_per_second (some w) t =
    leb (w.window_start + second) t || not (leb max_per_second w.count)

abbrev pub next_window : ℕ → Window → ℕ → Window
next_window max_per_second none t = some (record { window_start = t; count = 1 })
next_window max_per_second (some w) t =
    if leb (w.window_start + second) t
    then some (record { window_start = t; count = 1 })
    else if leb max_per_second w.count
    then some w
    else some (record w { count = (w.count + 1) % 2 ^ 32 })

-- the times at which a source is allowed, in the reference
abbrev pub allowed_in : ℕ → Window → List ℕ → List ℕ
allowed_in max_per_second w [] = []
allowed_in max_per_second w (t ∷ ts) =
    let rest = allowed_in max_per_second (next_window max_per_second w t) ts in
    if in_budget max_per_second w t then t ∷ rest else rest

slot-lt : (k : RelaySourceKey) → shard_relay_source k < rate_limit_shards
unfolding shard_relay_source
slot-lt k = omega arith

abbrev pub Placed : RelayRateLimiter → Type 0
Placed = IsPlaced shard_relay_source rate_limit_shards

-- The times at which the limiter allows one source, over calls for any sources.
unfoldable pub relay_grants :
    ℕ → RelayRateLimiter → List (RelaySourceKey × ℕ) → RelaySourceKey → List ℕ
relay_grants max_per_second rl [] src = []
relay_grants max_per_second rl ((k, t) ∷ cs) src =
    let r = relay_allow rl k t max_per_second in
    let rest = relay_grants max_per_second r.0 cs src in
    if r.1 && same k src then t ∷ rest else rest

relay_allow-in_budget :
    (rl : RelayRateLimiter) (k : RelaySourceKey) (t m : ℕ)
    → (relay_allow rl k t m).1 ≡ in_budget m (load shard_relay_source k rl) t
unfolding relay_allow
relay_allow-in_budget rl k t m = ground arith

module _ (rl : RelayRateLimiter) (ok : Placed rl) where
  store-Placed :
      (k : RelaySourceKey) (w : RelaySourceWindow) → Placed (store shard_relay_source k w rl)
  store-Placed k w = store-IsPlaced shard_relay_source rate_limit_shards rl ok k w (slot-lt k)

  pub relay_allow-Placed : (k : RelaySourceKey) (t m : ℕ) → Placed (relay_allow rl k t m).0
  unfolding relay_allow
  relay_allow-Placed k t m = elim (Option-cases (load shard_relay_source k rl)) [
    | inl e ↦ rw (e, relay_allow) (store-Placed k _)
    | inr (w, e) ↦ elim (Bool-cases (leb (w.window_start + second) t)) [
      | inl over ↦ rw (e, relay_allow, over) (store-Placed k _)
      | inr within ↦ elim (Bool-cases (leb m w.count)) [
        | inl full ↦ rw (e, relay_allow, within, full) ok
        | inr room ↦ rw (e, relay_allow, within, room) (store-Placed k _)
      ]
    ]
  ]

  read_back :
      (k src : RelaySourceKey) (w : RelaySourceWindow)
      → load shard_relay_source src (store shard_relay_source k w rl)
        ≡ (if same k src then some w else load shard_relay_source src rl)
  read_back k src w = load-store shard_relay_source rate_limit_shards rl ok k src w (slot-lt k)

  load-relay_allow :
      (k src : RelaySourceKey) (t m : ℕ)
      → load shard_relay_source src (relay_allow rl k t m).0 ≡ (
          if same k src
          then next_window m (load shard_relay_source k rl) t
          else load shard_relay_source src rl)
  unfolding relay_allow
  load-relay_allow k src t m = elim (Option-cases (load shard_relay_source k rl)) [
    | inl e ↦ rw (e, relay_allow) (read_back k src _)
    | inr (w, e) ↦ elim (Bool-cases (leb (w.window_start + second) t)) [
      | inl over ↦ rw (e, relay_allow, over) (read_back k src _)
      | inr within ↦ elim (Bool-cases (leb m w.count)) [
        | inl full ↦
            rw (e, relay_allow, within, full)
              elim (Bool-cases (same k src)) [ inl s ↦ rw (s, ← same→eq k src s) e | inr s ↦ rw s ]
        | inr room ↦ rw (e, relay_allow, within, room) (read_back k src _)
      ]
    ]
  ]

step_lem :
    (m : ℕ) (w : Window) (t : ℕ) (ts : List ℕ)
    → (if in_budget m w t && true
        then t ∷ allowed_in m (next_window m w t) ts
        else allowed_in m (next_window m w t) ts)
      ≡ allowed_in m w (t ∷ ts)
step_lem m w t ts = elim (Bool-cases (in_budget m w t)) [
  | inl e ↦ rw (e, allowed_in)
  | inr e ↦ rw (e, allowed_in)
]

-- If each source is in its own map, the sharded limiter treats each source as the reference does,
-- whatever the others send.
pub relay_grants-allowed_in :
    (m : ℕ) (rl : RelayRateLimiter) (cs : List (RelaySourceKey × ℕ)) (src : RelaySourceKey)
    → Placed rl
    → relay_grants m rl cs src ≡ allowed_in m (load shard_relay_source src rl) (times_of src cs)
unfolding relay_grants times_of
relay_grants-allowed_in m rl [] src ok = refl
relay_grants-allowed_in m rl ((k, t) ∷ cs) src ok =
    let next =
      relay_grants-allowed_in m (relay_allow rl k t m).0 cs src (relay_allow-Placed rl ok k t m) in
    rw (relay_allow-in_budget rl k t m, next, load-relay_allow rl ok k src t m)
      elim (Bool-cases (same k src)) [
        | inl e ↦
            rw (e, same→eq k src e)
              (step_lem m (load shard_relay_source src rl) t (times_of src cs))
        | inr e ↦ rw e (ground arith)
      ]

-- If each source is in its own map, a sweep with a cutoff of at least a second ago changes no
-- later answer.
pub relay_sweep_unseen :
    (rl : RelayRateLimiter) (src : RelaySourceKey) (m cutoff now : ℕ)
    → Placed rl
    → cutoff + second ≤ now
    → (relay_allow (relay_sweep rl cutoff) src now m).1 ≡ (relay_allow rl src now m).1
unfolding relay_sweep
relay_sweep_unseen rl src m cutoff now ok h =
    rw (relay_allow-in_budget (relay_sweep rl cutoff) src now m, relay_allow-in_budget rl src now m)
      (ground (
        arith,
        load-sweep shard_relay_source rate_limit_shards rl ok
            (λ (k : RelaySourceKey) (w : RelaySourceWindow). not (ltb w.window_start cutoff)) src,
      ))

-- All times lie in the second that starts at `lo`.
abbrev pub Within : ℕ → List ℕ → Type 0
Within lo [] = Unit {0}
Within lo (t ∷ ts) = (lo ≤ t) × (t < lo + second) × Within lo ts

abbrev spent : Window → ℕ
spent none = 0
spent (some w) = w.count

-- In a window that covers all the times, what is left of its budget.
rest_of_window :
    (m : ℕ) (w : RelaySourceWindow) (lo : ℕ) (ts : List ℕ)
    → m < 2 ^ 32
    → lo ≤ w.window_start
    → w.count ≤ m
    → Within lo ts
    → length (allowed_in m (some w) ts) + w.count ≤ m
rest_of_window m w lo [] wide h c inside = omega arith
rest_of_window m w lo (t ∷ ts) wide h c inside =
    let within : leb (w.window_start + second) t ≡ false = ground arith in
    elim (Bool-cases (leb m w.count)) [
      | inl full ↦
          rw (within, full, in_budget, next_window) (rest_of_window m w lo ts wide h c inside.2)
      | inr room ↦
          let w' = record w { count = (w.count + 1) % 2 ^ 32 } in
          rw (within, room, in_budget, next_window)
            (ground (arith, rest_of_window m w' lo ts wide h (ground arith) inside.2))
    ]

-- A window that a call at `t` opens, with that call counted.
fresh_window :
    (m t lo : ℕ) (ts : List ℕ)
    → 1 ≤ m
    → m < 2 ^ 32
    → lo ≤ t
    → Within lo ts
    → length (allowed_in m (some (record { window_start = t; count = 1 })) ts) + 1 ≤ m
fresh_window m t lo ts pos wide h inside =
    rest_of_window m (record { window_start = t; count = 1 }) lo ts wide h pos inside

-- Any second is covered by what is left of one window and by one more.
pub two_windows :
    (m : ℕ) (w : Window) (lo : ℕ) (ts : List ℕ)
    → 1 ≤ m
    → m < 2 ^ 32
    → spent w ≤ m
    → Within lo ts
    → length (allowed_in m w ts) + spent w ≤ 2 * m
two_windows m w lo [] pos wide c inside = omega arith
two_windows m none lo (t ∷ ts) pos wide c inside =
    ground (arith, fresh_window m t lo ts pos wide inside.0 inside.2)
two_windows m (some w) lo (t ∷ ts) pos wide c inside =
    elim (Bool-cases (leb (w.window_start + second) t)) [
      | inl over ↦
          rw (over, in_budget, next_window)
            (ground (arith, fresh_window m t lo ts pos wide inside.0 inside.2))
      | inr within ↦ elim (Bool-cases (leb m w.count)) [
        | inl full ↦
            rw (within, full, in_budget, next_window)
              (two_windows m (some w) lo ts pos wide c inside.2)
        | inr room ↦
            let w' = record w { count = (w.count + 1) % 2 ^ 32 } in
            rw (within, room, in_budget, next_window)
              (ground (arith, two_windows m (some w') lo ts pos wide (ground arith) inside.2))
      ]
    ]

-- the limiter after a history of calls
unfoldable pub relay_run : ℕ → RelayRateLimiter → List (RelaySourceKey × ℕ) → RelayRateLimiter
relay_run max_per_second rl [] = rl
relay_run max_per_second rl ((k, t) ∷ cs) =
    relay_run max_per_second (relay_allow rl k t max_per_second).0 cs

next_window-spent :
    (m : ℕ) (w : Window) (t : ℕ) → 1 ≤ m → spent w ≤ m → m < 2 ^ 32 → spent (next_window m w t) ≤ m
next_window-spent m none t pos h wide = ground arith
next_window-spent m (some w) t pos h wide = ground arith

relay_run-spent :
    (m : ℕ) (rl : RelayRateLimiter) (cs : List (RelaySourceKey × ℕ)) (src : RelaySourceKey)
    → 1 ≤ m
    → m < 2 ^ 32
    → Placed rl
    → ((k : RelaySourceKey) → spent (load shard_relay_source k rl) ≤ m)
    → Placed (relay_run m rl cs) × (spent (load shard_relay_source src (relay_run m rl cs)) ≤ m)
unfolding relay_run
relay_run-spent m rl [] src pos wide ok few = (ok, few src)
relay_run-spent m rl ((k, t) ∷ cs) src pos wide ok few =
    relay_run-spent m (relay_allow rl k t m).0 cs src pos wide (relay_allow-Placed rl ok k t m) λ q.
      rw (load-relay_allow rl ok k q t m) elim (Bool-cases (same k q)) [
        | inl e ↦ rw e (next_window-spent m (load shard_relay_source k rl) t pos (few k) wide)
        | inr e ↦ rw e (few q)
      ]

-- For a budget from 1 to 2 ^ 32 - 1: after any history of calls for any sources, the calls of one
-- source that fall into one second, wherever that second starts, are allowed at most twice the
-- budget.
pub relay_budget :
    (m : ℕ) (before cs : List (RelaySourceKey × ℕ)) (src : RelaySourceKey) (lo : ℕ)
    → 1 ≤ m
    → m < 2 ^ 32
    → Within lo (times_of src cs)
    → length (relay_grants m (relay_run m new_relay_rate_limiter before) cs src) ≤ 2 * m
unfolding new_relay_rate_limiter
relay_budget m before cs src lo pos wide inside =
    let empty =
      empty_shards-IsPlaced {V = RelaySourceWindow} shard_relay_source rate_limit_shards in
    let r = relay_run-spent m new_relay_rate_limiter before src pos wide empty (λ q.
      rw (load-empty_shards {V = RelaySourceWindow} shard_relay_source rate_limit_shards q)
        (omega arith)) in
    rw (relay_grants-allowed_in m (relay_run m new_relay_rate_limiter before) cs src r.0) (
      omega (
        arith,
        two_windows m (load shard_relay_source src (relay_run m new_relay_rate_limiter before)) lo
            (times_of src cs) pos wide r.1 inside,
      ))
