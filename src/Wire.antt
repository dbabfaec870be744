-- ===== src/Wire.antt =====
-- encoding/binary's big-endian numbers, as the beacon's messages carry them.
use beacon.Base.{ℕ, ◌+◌, ◌*◌, ◌/◌, ◌%◌, ◌^◌, ◌<◌, ◌≡◌, List, [], ◌∷◌, ◌++◌, arith, drop}

-- PutUint16, PutUint32
unfoldable pub put_uint16 : ℕ → List ℕ
put_uint16 n = (n / 2 ^ 8 % 256) ∷ (n % 256) ∷ []

unfoldable pub put_uint32 : ℕ → List ℕ
put_uint32 n = (n / 2 ^ 24 % 256) ∷ (n / 2 ^ 16 % 256) ∷ (n / 2 ^ 8 % 256) ∷ (n % 256) ∷ []

-- Uint16, Uint32, Uint64 of the front of a slice. The callers have tested that it is long enough;
-- on a shorter one Go panics, and here the value is 0.
unfoldable pub uint16 : List ℕ → ℕ
uint16 (a ∷ b ∷ _) = a * 2 ^ 8 + b
uint16 _ = 0

unfoldable pub uint32 : List ℕ → ℕ
uint32 (a ∷ b ∷ c ∷ d ∷ _) = a * 2 ^ 24 + b * 2 ^ 16 + c * 2 ^ 8 + d
uint32 _ = 0

unfoldable pub uint64 : List ℕ → ℕ
uint64 xs = uint32 xs * 2 ^ 32 + uint32 (drop 4 xs)

-- What is put is read back, whatever follows.
pub uint32-put_uint32 : (n : ℕ) (rest : List ℕ) → n < 2 ^ 32 → uint32 (put_uint32 n ++ rest) ≡ n
unfolding uint32 put_uint32
uint32-put_uint32 n rest h = omega arith

pub uint16-put_uint16 : (n : ℕ) (rest : List ℕ) → n < 2 ^ 16 → uint16 (put_uint16 n ++ rest) ≡ n
unfolding uint16 put_uint16
uint16-put_uint16 n rest h = omega arith

-- A slice of bytes.
abbrev pub IsBytes : List ℕ → Type 0
IsBytes [] = Unit {0}
IsBytes (b ∷ bs) = (b < 256) × IsBytes bs

-- What is read is below 2 ^ 32.
pub uint32-lt : (xs : List ℕ) → IsBytes xs → uint32 xs < 2 ^ 32
unfolding uint32
uint32-lt (a ∷ b ∷ c ∷ d ∷ r) h = omega arith
uint32-lt [] h = omega arith
uint32-lt (a ∷ []) h = omega arith
uint32-lt (a ∷ b ∷ []) h = omega arith
uint32-lt (a ∷ b ∷ c ∷ []) h = omega arith
