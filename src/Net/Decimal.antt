-- ===== src/Net/Decimal.antt =====
-- Decimal text, read back. A number ends where the next byte is no digit.
use beacon.Base.{
  ℕ, zero, suc, ◌+◌, ◌-◌, ◌*◌, ◌/◌, ◌%◌, ◌^◌, ◌<◌, ◌≡◌, refl, ap, Bool, false, ◌&&◌, List, [], ◌∷◌,
  ◌++◌, leb, if◌then◌else◌, arith,
}
use mathlib.Core.Logic.{◌≢◌}
use native.Mathlib.Decide.{ℕ_discrete}
use beacon.Net.{digit, digits_onto, decimal}

abbrev is_digit : ℕ → Bool
is_digit c = leb b'0' c && leb c b'9'

-- the number that starts with the digits of v, and what follows it
unfoldable pub scan : ℕ → List ℕ → ℕ × List ℕ
scan v [] = (v, [])
scan v (c ∷ cs) =
    let rest = scan (v * 10 + (c - b'0')) cs in if is_digit c then rest else (v, c ∷ cs)

-- one round, by its test
digits_onto_last :
    (f base n : ℕ) (acc : List ℕ)
    → n / base ≡ 0
    → digits_onto (suc f) base n acc ≡ digit (n % base) ∷ acc
unfolding digits_onto
digits_onto_last f base n acc h = rw h

digits_onto_more :
    (f base n : ℕ) (acc : List ℕ)
    → n / base ≢ 0
    → digits_onto (suc f) base n acc ≡ digits_onto f base (n / base) (digit (n % base) ∷ acc)
unfolding digits_onto
digits_onto_more f base n acc h = ground arith

digits_onto-append :
    (f base n : ℕ) (acc rest : List ℕ)
    → digits_onto f base n acc ++ rest ≡ digits_onto f base n (acc ++ rest)
digits_onto-append zero base n acc rest = unfold digits_onto in refl
digits_onto-append (suc f) base n acc rest = elim (ℕ_discrete (n / base) 0) [
  | yes e ↦ rw (digits_onto_last f base n acc e, digits_onto_last f base n (acc ++ rest) e)
  | no e ↦
      rw (digits_onto_more f base n acc e, digits_onto_more f base n (acc ++ rest) e)
        (digits_onto-append f base (n / base) (digit (n % base) ∷ acc) rest)
]

scan-digit : (v d : ℕ) (cs : List ℕ) → d < 10 → scan v (digit d ∷ cs) ≡ scan (v * 10 + d) cs
unfolding scan
scan-digit v d cs h = ground arith

scan-digits_onto :
    (f n : ℕ) (acc : List ℕ) → n < 10 ^ f → scan 0 (digits_onto f 10 n acc) ≡ scan n acc
scan-digits_onto zero n acc h =
    unfold digits_onto in ap (λ (v : ℕ). scan v acc) {x = 0} {y = n} (omega arith)
scan-digits_onto (suc f) n acc h = elim (ℕ_discrete (n / 10) 0) [
  | yes e ↦
      rw (digits_onto_last f 10 n acc e, scan-digit 0 (n % 10) acc (omega arith))
        (ap (λ (v : ℕ). scan v acc) (omega arith))
  | no e ↦
      rw
        (
          digits_onto_more f 10 n acc e,
          scan-digits_onto f (n / 10) (digit (n % 10) ∷ acc) (omega arith),
          scan-digit (n / 10) (n % 10) acc (omega arith),
        )
        (ap (λ (v : ℕ). scan v acc) (omega arith))
]

-- A number of at most 20 digits is read back, and what follows is left, if it starts with no digit.
pub scan-decimal :
    (n c : ℕ) (cs : List ℕ)
    → n < 10 ^ 20
    → is_digit c ≡ false
    → scan 0 (decimal n ++ (c ∷ cs)) ≡ (n, c ∷ cs)
unfolding decimal scan
scan-decimal n c cs h stop =
    rw (digits_onto-append 20 10 n [] (c ∷ cs), scan-digits_onto 20 n (c ∷ cs) h) (rw stop)

pub scan-decimal_end : (n : ℕ) → n < 10 ^ 20 → scan 0 (decimal n) ≡ (n, [])
unfolding decimal scan
scan-decimal_end n h = scan-digits_onto 20 n [] h
