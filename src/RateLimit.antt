-- ===== src/RateLimit.antt =====
-- ratelimit_shard.go: the per-packet rate limiters, each 256 maps that are locked one by one, so
-- that a call of `allow` is one step. Times are nanoseconds; `now` stands for time.Now().
pub mod Interval
pub mod Window
use beacon.Base.{
  ℕ, ◌+◌, ◌*◌, ◌%◌, ◌^◌, bit_xor, ◌≡◌, refl, ◌↔◌, Bool, true, false, not, ◌&&◌, Option, none, some,
  List, [], ◌∷◌, ◌++◌, ltb, leb, ◌==◌, if◌then◌else◌, length, replicate, arith, Key, nat_key,
  bytes_key, same_bytes, same_bytes→eq, same_bytes_refl, Bool-cases, ==_iff, inl, inr, ap,
}
use beacon.Base.Shards.{Shards, empty_shards, load, store, sweep}
use beacon.Net.{UdpAddr}

abbrev pub rate_limit_shards : ℕ
rate_limit_shards = 256

-- time.Second
abbrev pub second : ℕ
second = 1_000_000_000

-- uint32 arithmetic; & (rateLimitShards - 1) keeps the low 8 bits
unfoldable pub shard_u32 : ℕ → ℕ
shard_u32 k = k * 2654435761 % 2 ^ 32 % rate_limit_shards

abbrev mix : ℕ → ℕ → ℕ
mix h b = bit_xor h b * 16777619 % 2 ^ 32

unfoldable pub mix_bytes : ℕ → List ℕ → ℕ
mix_bytes h [] = h
mix_bytes h (b ∷ bs) = mix_bytes (mix h b) bs

abbrev fnv_offset : ℕ
fnv_offset = 2166136261

unfoldable pub shard_str : List ℕ → ℕ
shard_str s = mix_bytes fnv_offset s % rate_limit_shards

-- The transport-level origin of a relay frame.
pub record RelaySourceKey : Type 0 where
  pub ip : List ℕ
  pub port : ℕ
  pub node : ℕ
  pub bridged : Bool

abbrev same_bool : Bool → Bool → Bool
same_bool true b = b
same_bool false b = not b

abbrev same_source : RelaySourceKey → RelaySourceKey → Bool
same_source a b =
    same_bytes a.ip b.ip
    && (a.port == b.port)
    && (a.node == b.node)
    && same_bool a.bridged b.bridged

same_source→eq : (a b : RelaySourceKey) → same_source a b ≡ true → a ≡ b
same_source→eq a b h = ground (arith, same_bytes→eq a.ip b.ip)

same_source_refl : (a : RelaySourceKey) → same_source a a ≡ true
same_source_refl a = ground (arith, same_bytes_refl a.ip)

pub same_source_iff : (a b : RelaySourceKey) → (same_source a b ≡ true) ↔ (a ≡ b)
same_source_iff a b = (same_source→eq a b, λ e. rw e (same_source_refl b))

instance abbrev pub source_key : Key RelaySourceKey
source_key = record { same = same_source; same_iff = same_source_iff }

abbrev zero_ip : List ℕ
zero_ip = replicate 16 0

-- the 16-byte form, written by hand in the source
unfoldable pub source_ip : List ℕ → List ℕ
source_ip ip =
    if length ip == 4
    then replicate 10 0 ++ 0xff ∷ 0xff ∷ ip
    else if length ip == 16
    then ip
    else zero_ip

-- `none` is a nil address
unfoldable pub relay_source_for_udp : Option UdpAddr → RelaySourceKey
relay_source_for_udp none = record { ip = zero_ip; port = 0; node = 0; bridged = false }
relay_source_for_udp (some remote) = record {
  ip = source_ip remote.ip;
  port = remote.port % 2 ^ 16;
  node = 0;
  bridged = false;
}

unfoldable pub relay_source_for_bridge : ℕ → RelaySourceKey
relay_source_for_bridge peer_id = record { ip = zero_ip; port = 0; node = peer_id; bridged = true }

unfoldable pub shard_relay_source : RelaySourceKey → ℕ
shard_relay_source k =
    let h = mix (mix (mix_bytes fnv_offset k.ip) k.port) k.node in
    (if k.bridged then mix h 1 else h) % rate_limit_shards

-- discoverRateLimiter: node id to the time it was last allowed
abbrev pub DiscoverRateLimiter : Type 0
DiscoverRateLimiter = Shards ℕ ℕ

-- punchRateLimiter: text of a source IP to the time it was last allowed
abbrev pub PunchRateLimiter : Type 0
PunchRateLimiter = Shards (List ℕ) ℕ

unfoldable pub new_discover_rate_limiter : DiscoverRateLimiter
new_discover_rate_limiter = empty_shards rate_limit_shards

unfoldable pub new_punch_rate_limiter : PunchRateLimiter
new_punch_rate_limiter = empty_shards rate_limit_shards

-- The two limiters have the same `allow` and the same `sweep`, over their own keys.
module _ {K : Type 0} ⦃key : Key K⦄ (slot : K → ℕ) where
  unfoldable pub allow_after : Shards K ℕ → K → ℕ → ℕ → Shards K ℕ × Bool
  allow_after rl k min_interval now = elim (load slot k rl) [
    | some last ↦ if ltb now (last + min_interval) then (rl, false) else (store slot k now rl, true)
    | none ↦ (store slot k now rl, true)
  ]

  unfoldable pub sweep_before : Shards K ℕ → ℕ → Shards K ℕ
  sweep_before rl cutoff = sweep slot (λ k last. not (ltb last cutoff)) rl

-- discoverRateLimiter.allow and sweep
unfoldable pub discover_allow : DiscoverRateLimiter → ℕ → ℕ → ℕ → DiscoverRateLimiter × Bool
discover_allow = allow_after shard_u32

unfoldable pub discover_sweep : DiscoverRateLimiter → ℕ → DiscoverRateLimiter
discover_sweep = sweep_before shard_u32

-- punchRateLimiter.allow and sweep
unfoldable pub punch_allow : PunchRateLimiter → List ℕ → ℕ → ℕ → PunchRateLimiter × Bool
punch_allow = allow_after shard_str

unfoldable pub punch_sweep : PunchRateLimiter → ℕ → PunchRateLimiter
punch_sweep = sweep_before shard_str

pub record RelaySourceWindow : Type 0 where
  pub window_start : ℕ
  pub count : ℕ

abbrev pub RelayRateLimiter : Type 0
RelayRateLimiter = Shards RelaySourceKey RelaySourceWindow

unfoldable pub new_relay_rate_limiter : RelayRateLimiter
new_relay_rate_limiter = empty_shards rate_limit_shards

-- relayRateLimiter.allow
unfoldable pub relay_allow : RelayRateLimiter → RelaySourceKey → ℕ → ℕ → RelayRateLimiter × Bool
relay_allow rl src now max_per_second =
    let fresh = store shard_relay_source src (record { window_start = now; count = 1 }) rl in
    elim (load shard_relay_source src rl) [
      | none ↦ (fresh, true)
      | some w ↦
          if leb (w.window_start + second) now
          then (fresh, true)
          else if leb max_per_second w.count
          then (rl, false)
          else (store shard_relay_source src (record w { count = (w.count + 1) % 2 ^ 32 }) rl, true)
    ]

-- relayRateLimiter.sweep
unfoldable pub relay_sweep : RelayRateLimiter → ℕ → RelayRateLimiter
relay_sweep rl cutoff = sweep shard_relay_source (λ k w. not (ltb w.window_start cutoff)) rl
