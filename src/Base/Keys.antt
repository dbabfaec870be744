-- ===== src/Base/Keys.antt =====
-- Comparable types: what a Go map asks of its keys.
use Prim.Native.Nat.{ℕ}
use mathlib.Core.Path.{◌≡◌, refl}
use mathlib.Core.Logic.{◌≢◌, ◌↔◌}
use mathlib.Core.Bool.{Bool, true, false, ◌&&◌}
use mathlib.Core.List.{List, [], ◌∷◌}
use native.Mathlib.Omega.{arith}
use beacon.Base.Tests.{◌==◌, ==_iff}

pub record Key {ℓ} (K : Type ℓ) : Type ℓ where
  pub same : K → K → Bool
  pub same_iff : (a b : K) → (same a b ≡ true) ↔ (a ≡ b)

instance abbrev pub nat_key : Key ℕ
nat_key = record { same = ◌==◌; same_iff = ==_iff }

-- Byte strings.
abbrev pub same_bytes : List ℕ → List ℕ → Bool
same_bytes [] [] = true
same_bytes (a ∷ as') (b ∷ bs) = (a == b) && same_bytes as' bs
same_bytes _ _ = false

pub same_bytes→eq : (a b : List ℕ) → same_bytes a b ≡ true → a ≡ b
same_bytes→eq [] [] h = refl
same_bytes→eq (a ∷ r) (b ∷ s) h = ground (arith, same_bytes→eq r s)
same_bytes→eq [] (b ∷ s) h = cc
same_bytes→eq (a ∷ r) [] h = cc

pub same_bytes_refl : (a : List ℕ) → same_bytes a a ≡ true
same_bytes_refl [] = refl
same_bytes_refl (a ∷ r) = ground (arith, same_bytes_refl r)

pub same_bytes_iff : (a b : List ℕ) → (same_bytes a b ≡ true) ↔ (a ≡ b)
same_bytes_iff a b = (same_bytes→eq a b, λ e. rw e (same_bytes_refl b))

instance abbrev pub bytes_key : Key (List ℕ)
bytes_key = record { same = same_bytes; same_iff = same_bytes_iff }

module _ {ℓ} {K : Type ℓ} ⦃key : Key K⦄ where
  abbrev pub same : K → K → Bool
  same = key.same

  pub same→eq : (a b : K) → same a b ≡ true → a ≡ b
  same→eq a b = (key.same_iff a b).0

  pub same_self : (a : K) → same a a ≡ true
  same_self a = (key.same_iff a a).1 refl

  pub not_same→ne : (a b : K) → same a b ≡ false → a ≢ b
  not_same→ne a b h e = cc ((key.same_iff a b).1 e)
