-- ===== src/Base/Maps.antt =====
-- Go's maps as association lists. The order of iteration is the list's.
use Prim.Native.Nat.{suc, ◌≤◌}
use mathlib.Core.Path.{◌≡◌, refl, sym, ap, subst}
use mathlib.Core.Logic.{inl, inr, ◌↔◌}
use mathlib.Core.Bool.{Bool, true, false}
use mathlib.Core.Option.{Option, none, some}
use mathlib.Core.List.{List, [], ◌∷◌, map, Mem, mem-cons, not-mem-nil}
use mathlib.Core.Logic.Or
use native.Mathlib.Omega.{arith}
use beacon.Base.Tests.{Bool-set, if◌then◌else◌, is_some, Bool-cases}
use beacon.Base.Lists.{length}
use beacon.Base.Keys.{Key, same, same→eq}

abbrev pub Assoc {ℓ} : Type ℓ → Type ℓ → Type ℓ
Assoc K V = List (K × V)

-- What a lookup gives after `retain`: the value, if the test keeps it.
abbrev pub keep_if {ℓ} : {A : Type ℓ} → (A → Bool) → Option A → Option A
keep_if p none = none
keep_if p (some a) = if p a then some a else none

not_same_flip {ℓ} : {K : Type ℓ} ⦃key : Key K⦄ (i k : K) → same i k ≡ false → same k i ≡ false
not_same_flip ⦃key⦄ i k e = ground (arith, (key.same_iff k i).0, (key.same_iff i k).1)

module _ {ℓ} {K V : Type ℓ} ⦃key : Key K⦄ where
  -- m[k], with none for a missing key
  unfoldable pub lookup : K → Assoc K V → Option V
  lookup k [] = none
  lookup k ((j, v) ∷ m) = if same j k then some v else lookup k m

  -- m[k] = v
  unfoldable pub insert : K → V → Assoc K V → Assoc K V
  insert k v [] = (k, v) ∷ []
  insert k v ((j, w) ∷ m) = if same j k then (k, v) ∷ m else (j, w) ∷ insert k v m

  -- delete(m, k)
  unfoldable pub erase : K → Assoc K V → Assoc K V
  erase k [] = []
  erase k ((j, w) ∷ m) = if same j k then m else (j, w) ∷ erase k m

  -- a loop over the map that deletes the entries which fail the test
  unfoldable pub retain : (K → V → Bool) → Assoc K V → Assoc K V
  retain p [] = []
  retain p ((j, w) ∷ m) = if p j w then (j, w) ∷ retain p m else retain p m

  abbrev pub has : K → Assoc K V → Bool
  has k m = is_some (lookup k m)

  abbrev pub keys : Assoc K V → List K
  keys = map λ e. e.0

  -- No key occurs twice.
  unfoldable pub Unique : Assoc K V → Type ℓ
  Unique [] = Unit
  Unique ((j, v) ∷ m) = (lookup j m ≡ none) × Unique m

  pub lookup-insert :
      (k j : K) (v : V) (m : Assoc K V)
      → lookup j (insert k v m) ≡ (if same k j then some v else lookup j m)
  unfolding lookup insert
  lookup-insert k j v [] = refl
  lookup-insert k j v ((i, w) ∷ m) = elim (Bool-cases (same i k)) [
    | inl e ↦ let p = same→eq i k e in rw (p, (key.same_iff k k).1 refl) (ground arith)
    | inr e ↦ elim (Bool-cases (same i j)) [
      | inl d ↦
          ground
            (arith, same→eq i j d, (key.same_iff k j).0, (key.same_iff j k).1, (key.same_iff i k).1)
      | inr d ↦ rw (e, d) (lookup-insert k j v m)
    ]
  ]

  lookup-erase_hit :
      (j i : K) (w : V) (m : Assoc K V)
      → lookup i m ≡ none
      → lookup j m ≡ (if same i j then none else if same i j then some w else lookup j m)
  lookup-erase_hit j i w m h =
      ground (arith, same→eq i j, ap {B = Option V} (λ (x : K). lookup x m))

  pub insert-Unique : (k : K) (v : V) (m : Assoc K V) → Unique m → Unique (insert k v m)
  unfolding Unique insert lookup
  insert-Unique k v [] u = (refl, tt)
  insert-Unique k v ((i, w) ∷ m) u = elim (Bool-cases (same i k)) [
    | inl e ↦ rw e (rw (same→eq i k e) at u)
    | inr e ↦ rw e (rw lookup-insert (rw (not_same_flip i k e) u.0), insert-Unique k v m u.1)
  ]

  pub lookup-erase :
      (k j : K) (m : Assoc K V)
      → Unique m
      → lookup j (erase k m) ≡ (if same k j then none else lookup j m)
  unfolding lookup erase Unique
  lookup-erase k j [] u = ground arith
  lookup-erase k j ((i, w) ∷ m) u = elim (Bool-cases (same i k)) [
    | inl e ↦ let p = same→eq i k e in rw (e, ← p) (lookup-erase_hit j i w m u.0)
    | inr e ↦ elim (Bool-cases (same i j)) [
      | inl d ↦ rw (e, d, sym (same→eq i j d), not_same_flip i k e)
      | inr d ↦ rw (e, d) (lookup-erase k j m u.1)
    ]
  ]

  pub erase-Unique : (k : K) (m : Assoc K V) → Unique m → Unique (erase k m)
  unfolding Unique erase
  erase-Unique k [] u = tt
  erase-Unique k ((i, w) ∷ m) u = elim (Bool-cases (same i k)) [
    | inl e ↦ rw e u.1
    | inr e ↦ rw e (rw (lookup-erase k i m u.1, not_same_flip i k e) u.0, erase-Unique k m u.1)
  ]

  pub lookup-retain :
      (p : K → V → Bool) (j : K) (m : Assoc K V)
      → Unique m
      → lookup j (retain p m) ≡ keep_if (p j) (lookup j m)
  unfolding lookup retain Unique
  lookup-retain p j [] u = refl
  lookup-retain p j ((i, w) ∷ m) u = elim (Bool-cases (same i j)) [
    | inl d ↦
        let q = same→eq i j d in
        ground
          (arith, lookup-retain p j m u.1, subst (λ x. lookup x m ≡ none) q u.0, ap (λ x. p x w) q)
    | inr d ↦ ground (arith, lookup-retain p j m u.1)
  ]

  pub retain-Unique : (p : K → V → Bool) (m : Assoc K V) → Unique m → Unique (retain p m)
  unfolding Unique retain
  retain-Unique p [] u = tt
  retain-Unique p ((i, w) ∷ m) u = elim (Bool-cases (p i w)) [
    | inl e ↦ rw e (rw (lookup-retain p i m u.1, u.0), retain-Unique p m u.1)
    | inr e ↦ rw e (retain-Unique p m u.1)
  ]

  pub length-retain : (p : K → V → Bool) (m : Assoc K V) → length (retain p m) ≤ length m
  unfolding retain
  length-retain p [] = omega arith
  length-retain p ((i, w) ∷ m) = ground (arith, length-retain p m)

  pub length-insert :
      (k : K) (v : V) (m : Assoc K V)
      → length (insert k v m) ≡ (if has k m then length m else suc (length m))
  unfolding insert lookup
  length-insert k v [] = refl
  length-insert k v ((i, w) ∷ m) = ground (arith, length-insert k v m)

  pub mem-keys : (k : K) (m : Assoc K V) → Mem k (keys m) ↔ (has k m ≡ true)
  unfolding lookup
  mem-keys k [] = (λ h. absurd (not-mem-nil h), λ e. cc)
  mem-keys k ((j, v) ∷ m) = (
    λ h.
        Or.elim (Bool-set _ _) (mem-cons.0 h) (λ e. rw (e, (key.same_iff j j).1 refl))
          (λ r. ground (arith, (mem-keys k m).0 r)),
    λ h. elim (Bool-cases (same j k)) [
      | inl e ↦ mem-cons.1 (Or.inl (sym (same→eq j k e)))
      | inr e ↦ mem-cons.1 (Or.inr ((mem-keys k m).1 (rw e at h)))
    ],
  )

  -- A loop that deletes nothing leaves the map as it was.
  pub retain_all :
      (p : K → V → Bool) (m : Assoc K V) → length (retain p m) ≡ length m → retain p m ≡ m
  unfolding retain
  retain_all p [] h = refl
  retain_all p ((j, v) ∷ m) h = ground (arith, length-retain p m, retain_all p m)
