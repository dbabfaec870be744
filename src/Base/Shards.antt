-- ===== src/Base/Shards.antt =====
-- An array of maps, with a function `slot` that says in which one a key is kept.
use Prim.Native.Nat.{ℕ, ◌<◌}
use mathlib.Core.Path.{◌≡◌, ap}
use mathlib.Core.Logic.{◌≢◌, inl, inr}
use mathlib.Core.Bool.{Bool}
use mathlib.Core.Option.{Option, none, some}
use mathlib.Core.List.{List, [], map}
use native.Mathlib.Omega.{arith}
use beacon.Base.Tests.{if◌then◌else◌, ◌==◌, ==_iff, Bool-cases}
use beacon.Base.Lists.{
  length, get_or, set, replicate, length-set, get_or-set, length-map, get_or-map, get_or-replicate,
  length-replicate,
}
use beacon.Base.Keys.{Key, same, same→eq}
use beacon.Base.Maps.{
  Assoc, lookup, insert, retain, Unique, keep_if, lookup-insert, insert-Unique, lookup-retain,
  retain-Unique,
}

abbrev pub Shards {ℓ} : Type ℓ → Type ℓ → Type ℓ
Shards K V = List (Assoc K V)

-- n empty maps
unfoldable pub empty_shards {ℓ} : {K V : Type ℓ} → ℕ → Shards K V
empty_shards n = replicate n []

module _ {ℓ} {K V : Type ℓ} (slot : K → ℕ) where
  -- the map that a key belongs to
  unfoldable pub shard_of : K → Shards K V → Assoc K V
  shard_of k ms = get_or ms (slot k) []

module _ {ℓ} {K V : Type ℓ} ⦃key : Key K⦄ (slot : K → ℕ) where
  unfoldable pub load : K → Shards K V → Option V
  unfolding shard_of
  load k ms = lookup k (shard_of slot k ms)

  unfoldable pub store : K → V → Shards K V → Shards K V
  unfolding shard_of
  store k v ms = set ms (slot k) (insert k v (shard_of slot k ms))

  unfoldable pub sweep : (K → V → Bool) → Shards K V → Shards K V
  sweep p = map (retain p)

  pub get_or-sweep :
      (p : K → V → Bool) (ms : Shards K V) (i : ℕ)
      → get_or (sweep p ms) i [] ≡ retain p (get_or ms i [])
  unfolding sweep retain
  get_or-sweep p ms i = get_or-map (retain p) ms i []

  -- `n` maps, no key twice, and each key in its own map
  pub record IsPlaced (n : ℕ) (ms : Shards K V) : Type ℓ where
    pub width : length ms ≡ n
    pub unique : (i : ℕ) → Unique (get_or ms i [])
    pub placed : (i : ℕ) (k : K) → slot k ≢ i → lookup k (get_or ms i []) ≡ none

  pub empty_shards-IsPlaced : (n : ℕ) → IsPlaced n (empty_shards n)
  unfolding empty_shards lookup Unique
  empty_shards-IsPlaced n = record {
    width = length-replicate n [];
    unique = λ i. rw (get_or-replicate {A = Assoc K V} n i []) tt;
    placed = λ i k h. rw (get_or-replicate {A = Assoc K V} n i []);
  }

  pub load-empty_shards : (n : ℕ) (k : K) → load k (empty_shards {K = K} {V = V} n) ≡ none
  unfolding load shard_of empty_shards lookup
  load-empty_shards n k = rw (get_or-replicate {A = Assoc K V} n (slot k) [])

  module _ (n : ℕ) (ms : Shards K V) (ok : IsPlaced n ms) where
    pub load-store :
        (k j : K) (v : V)
        → slot k < n
        → load j (store k v ms) ≡ (if same k j then some v else load j ms)
    unfolding load store shard_of
    load-store k j v h =
        rw (get_or-set ms (slot k) (slot j) _ [] (rw ok.width h))
          elim (Bool-cases (slot k == slot j)) [
            | inl e ↦ rw (e, lookup-insert k j v, (==_iff _ _).0 e)
            | inr e ↦ rw e (ground (arith, same→eq k j, ap slot {x = k} {y = j}))
          ]

    pub store-IsPlaced : (k : K) (v : V) → slot k < n → IsPlaced n (store k v ms)
    unfolding store shard_of
    store-IsPlaced k v h = record {
      width = rw length-set ok.width;
      unique = λ i.
          rw (get_or-set ms (slot k) i (insert k v (get_or ms (slot k) [])) [] (rw ok.width h))
            (ground (arith, insert-Unique k v _ (ok.unique (slot k)), ok.unique i));
      placed = λ i q ne.
          rw (get_or-set ms (slot k) i (insert k v (get_or ms (slot k) [])) [] (rw ok.width h))
            elim (Bool-cases (slot k == i)) [
              | inl e ↦
                  let here = (==_iff _ _).0 e in
                  rw (e, lookup-insert k q v)
                    (ground (arith, same→eq k q, ap slot {x = k} {y = q}, ok.placed (slot k) q))
              | inr e ↦ rw e (ok.placed i q ne)
            ];
    }

    pub load-sweep : (p : K → V → Bool) (j : K) → load j (sweep p ms) ≡ keep_if (p j) (load j ms)
    unfolding load sweep shard_of retain
    load-sweep p j =
        rw (get_or-map (retain p) ms (slot j) []) (lookup-retain p j _ (ok.unique (slot j)))

    pub sweep-IsPlaced : (p : K → V → Bool) → IsPlaced n (sweep p ms)
    unfolding sweep retain
    sweep-IsPlaced p = record {
      width = rw length-map ok.width;
      unique = λ i. rw (get_or-map (retain p) ms i []) (retain-Unique p _ (ok.unique i));
      placed = λ i q ne.
          rw (get_or-map (retain p) ms i [])
            (rw (lookup-retain p q _ (ok.unique i), ok.placed i q ne));
    }
