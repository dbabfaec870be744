-- ===== src/RateLimit/Interval.antt =====
-- ratelimit_shard.go: discoverRateLimiter and punchRateLimiter against a reference for one key.
use beacon.Base.{
  ℕ, ◌+◌, ◌≤◌, ◌<◌, ◌≡◌, inl, inr, refl, Bool, true, false, not, ◌&&◌, Option, none, some, List, [],
  ◌∷◌, ltb, if◌then◌else◌, arith, Key, same, same→eq, Bool-cases, Option-cases, ltb_false→le,
}
use beacon.Base.Shards.{Shards, IsPlaced, load, load-store, store-IsPlaced, load-sweep}
use beacon.RateLimit.{rate_limit_shards, allow_after, sweep_before, shard_u32, shard_str}

-- The reference: the last time is the only state, and a call passes unless it is too early.
abbrev pub passes : ℕ → Option ℕ → ℕ → Bool
passes gap none t = true
passes gap (some last) t = not (ltb t (last + gap))

-- The times at which one key is allowed, in the reference.
abbrev pub allowed_times : ℕ → Option ℕ → List ℕ → List ℕ
allowed_times gap last [] = []
allowed_times gap last (t ∷ ts) = elim (passes gap last t) [
  | true ↦ t ∷ allowed_times gap (some t) ts
  | false ↦ allowed_times gap last ts
]

-- Each time is at least `gap` after the one before it, and the first after `last`.
abbrev pub Spaced : ℕ → Option ℕ → List ℕ → Type 0
Spaced gap last [] = Unit {0}
Spaced gap none (t ∷ ts) = Spaced gap (some t) ts
Spaced gap (some last) (t ∷ ts) = (last + gap ≤ t) × Spaced gap (some t) ts

pub allowed_times-Spaced :
    (gap : ℕ) (last : Option ℕ) (ts : List ℕ) → Spaced gap last (allowed_times gap last ts)
allowed_times-Spaced gap none [] = tt
allowed_times-Spaced gap (some last) [] = tt
allowed_times-Spaced gap none (t ∷ ts) = allowed_times-Spaced gap (some t) ts
allowed_times-Spaced gap (some last) (t ∷ ts) = elim (Bool-cases (ltb t (last + gap))) [
  | inl e ↦ rw (e, allowed_times) (allowed_times-Spaced gap (some last) ts)
  | inr e ↦ rw (e, allowed_times) (ltb_false→le _ _ e, allowed_times-Spaced gap (some t) ts)
]

-- One call, in the form that the limiter takes it.
step_lem :
    (gap : ℕ) (last : Option ℕ) (t : ℕ) (ts : List ℕ)
    → (if passes gap last t && true
        then t ∷ allowed_times gap (if passes gap last t && true then some t else last) ts
        else allowed_times gap (if passes gap last t && true then some t else last) ts)
      ≡ allowed_times gap last (t ∷ ts)
step_lem gap last t ts = elim (Bool-cases (passes gap last t)) [
  | inl e ↦ rw (e, allowed_times)
  | inr e ↦ rw (e, allowed_times)
]

module _ {K : Type 0} ⦃key : Key K⦄ where
  -- the times of the calls for one key
  unfoldable pub times_of : K → List (K × ℕ) → List ℕ
  times_of k [] = []
  times_of k ((j, t) ∷ cs) = if same j k then t ∷ times_of k cs else times_of k cs

module _ {K : Type 0} ⦃key : Key K⦄ (slot : K → ℕ) where
  -- The times at which the limiter allows one key, over calls for any keys.
  pub grants : ℕ → Shards K ℕ → List (K × ℕ) → K → List ℕ
  grants gap rl [] k = []
  grants gap rl ((j, t) ∷ cs) k =
      let r = allow_after slot rl j gap t in
      let rest = grants gap r.0 cs k in if r.1 && same j k then t ∷ rest else rest

  module _ (small : (k : K) → slot k < rate_limit_shards) where
    allow_after-passes :
        (rl : Shards K ℕ) (j : K) (gap t : ℕ)
        → (allow_after slot rl j gap t).1 ≡ passes gap (load slot j rl) t
    unfolding allow_after
    allow_after-passes rl j gap t = ground arith

    module _ (rl : Shards K ℕ) (ok : IsPlaced slot rate_limit_shards rl) where
      pub allow_after-IsPlaced :
          (j : K) (gap t : ℕ) → IsPlaced slot rate_limit_shards (allow_after slot rl j gap t).0
      unfolding allow_after
      allow_after-IsPlaced j gap t =
          let new = store-IsPlaced slot rate_limit_shards rl ok j t (small j) in
          elim (Option-cases (load slot j rl)) [
            | inl e ↦ rw (e, allow_after) new
            | inr (last, e) ↦ elim (Bool-cases (ltb t (last + gap))) [
              | inl early ↦ rw (e, allow_after, early) ok
              | inr late ↦ rw (e, allow_after, late) new
            ]
          ]

      load-allow_after :
          (j k : K) (gap t : ℕ)
          → load slot k (allow_after slot rl j gap t).0
            ≡ (if passes gap (load slot j rl) t && same j k then some t else load slot k rl)
      unfolding allow_after
      load-allow_after j k gap t =
          ground (arith, load-store slot rate_limit_shards rl ok j k t (small j))

    -- If each key is in its own map, the sharded limiter treats each key as the reference does,
    -- whatever the calls for other keys.
    pub grants-allowed_times :
        (gap : ℕ) (rl : Shards K ℕ) (cs : List (K × ℕ)) (k : K)
        → IsPlaced slot rate_limit_shards rl
        → grants gap rl cs k ≡ allowed_times gap (load slot k rl) (times_of k cs)
    unfolding grants times_of
    grants-allowed_times gap rl [] k ok = refl
    grants-allowed_times gap rl ((j, t) ∷ cs) k ok =
        let next =
          grants-allowed_times gap (allow_after slot rl j gap t).0 cs k
            (allow_after-IsPlaced rl ok j gap t) in
        rw (allow_after-passes rl j gap t, next, load-allow_after rl ok j k gap t)
          elim (Bool-cases (same j k)) [
            | inl e ↦ rw (e, same→eq j k e) (step_lem gap (load slot k rl) t (times_of k cs))
            | inr e ↦ rw e (ground arith)
          ]

    -- If each key is in its own map, a sweep with a cutoff of at least `gap` ago changes no later
    -- answer.
    pub sweep_before_unseen :
        (rl : Shards K ℕ) (k : K) (gap cutoff now : ℕ)
        → IsPlaced slot rate_limit_shards rl
        → cutoff + gap ≤ now
        → (allow_after slot (sweep_before slot rl cutoff) k gap now).1
          ≡ (allow_after slot rl k gap now).1
    unfolding sweep_before
    sweep_before_unseen rl k gap cutoff now ok h =
        rw
          (
            allow_after-passes (sweep_before slot rl cutoff) k gap now,
            allow_after-passes rl k gap now,
          )
          (ground (
            arith,
            load-sweep slot rate_limit_shards rl ok (λ (k : K) (last : ℕ). not (ltb last cutoff)) k,
          ))

pub shard_u32-lt : (k : ℕ) → shard_u32 k < rate_limit_shards
unfolding shard_u32
shard_u32-lt k = omega arith

pub shard_str-lt : (k : List ℕ) → shard_str k < rate_limit_shards
unfolding shard_str
shard_str-lt k = omega arith
