-- ===== src/Tests/Limits.antt =====
-- The rate limiters at concrete inputs.
use beacon.Base.{ℕ, ◌+◌, ◌*◌, ◌≤◌, ◌≡◌, List, [], ◌∷◌, length, arith, nat_key}
use beacon.Base.Shards.{load}
use beacon.RateLimit.{
  shard_u32, RelaySourceKey, relay_source_for_bridge, new_relay_rate_limiter, shard_relay_source,
  source_key, second,
}
use beacon.RateLimit.Interval.{allowed_times, times_of, grants, grants-allowed_times, shard_u32-lt}
use beacon.RateLimit.Window.{
  allowed_in, relay_grants, relay_run, relay_grants-allowed_in, relay_budget,
}
use beacon.Tests.Data.{running, running-IsValid, from_alice, start_time, program}

abbrev calls : List (ℕ × ℕ)
calls = (1, start_time + 5) ∷ (9, start_time + 5) ∷ (9, start_time + 7) ∷ (9, start_time + 16) ∷ []

grants-allowed_times_example :
    grants shard_u32 10 running.discover_rl calls 9
    ≡ allowed_times 10 (load shard_u32 9 running.discover_rl) (times_of 9 calls)
grants-allowed_times_example =
    grants-allowed_times shard_u32 shard_u32-lt 10 running.discover_rl calls 9
      running-IsValid.discover_ok

abbrev from_bridge : RelaySourceKey
from_bridge = relay_source_for_bridge 4

abbrev frames : List (RelaySourceKey × ℕ)
frames =
    (from_alice, start_time)
    ∷ (from_bridge, start_time)
    ∷ (from_alice, start_time + 1)
    ∷ (from_alice, start_time + 2)
    ∷ []

relay_grants-allowed_in_example :
    relay_grants 2 running.relay_rl frames from_alice
    ≡ allowed_in 2
        (load shard_relay_source from_alice running.relay_rl)
        (times_of from_alice frames)
relay_grants-allowed_in_example =
    relay_grants-allowed_in 2 running.relay_rl frames from_alice running-IsValid.relay_ok

-- Two frames at the end of one window and two at the start of the next pass a budget of two.
relay_budget_example :
    length (
      relay_grants 2
        (relay_run 2 new_relay_rate_limiter frames)
        ((from_alice, start_time + second) ∷ (from_alice, start_time + second + 1) ∷ [])
        from_alice)
    ≤ 2 * 2
unfolding program times_of
relay_budget_example =
    relay_budget 2 frames
      ((from_alice, start_time + second) ∷ (from_alice, start_time + second + 1) ∷ []) from_alice
      (start_time + 2) (omega arith) (omega arith)
      (omega arith, omega arith, (omega arith, omega arith, tt))
