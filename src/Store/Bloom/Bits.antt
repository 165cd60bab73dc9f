-- ===== src/Store/Bloom/Bits.antt =====
-- internal/store/bloom.go: single bits of a word, as arithmetic. The native `bit_and` and `bit_or`
-- are read digit by digit.
use Prim.Native.Nat.{bit_and, bit_or, min, max, digits, bit_and-bitwise, bit_or-bitwise}
use iskra.Base.{ℕ, zero, suc, ◌+◌, ◌*◌, ◌/◌, ◌%◌, ◌^◌, ◌≤◌, ◌≡◌, refl, ap, ◌∙◌, arith}
use native.Mathlib.Nat.{pow-suc}

-- The k-th binary digit.
unfoldable pub bit : ℕ → ℕ → ℕ
bit zero w = w % 2
bit (suc k) w = bit k (w / 2)

-- One step of the digit recursion takes the lowest digits off, whatever fuel it has left.
module _ (z : ℕ → ℕ) (f : ℕ → ℕ → ℕ) where
  enough : (v w a b : ℕ) → a ≤ v → a ≤ w → digits z f v a b ≡ digits z f w a b
  enough zero zero a b h g = refl
  enough zero (suc w) zero b h g = refl
  enough zero (suc w) (suc a) b h g = absurd (omega arith)
  enough (suc v) zero zero b h g = refl
  enough (suc v) zero (suc a) b h g = absurd (omega arith)
  enough (suc v) (suc w) zero b h g = refl
  enough (suc v) (suc w) (suc a) b h g =
      ap (λ t. t * 2 + f (suc a % 2) (b % 2))
        (enough v w (suc a / 2) (b / 2) (omega arith) (omega arith))

  lowest_digit :
      (a b : ℕ)
      → digits z f (suc a) (suc a) b
        ≡ digits z f (suc a / 2) (suc a / 2) (b / 2) * 2 + f (suc a % 2) (b % 2)
  lowest_digit a b =
      ap (λ t. t * 2 + f (suc a % 2) (b % 2))
        (enough a (suc a / 2) (suc a / 2) (b / 2) (omega arith) (omega arith))

bit_and_step : (x y : ℕ) → bit_and x y ≡ bit_and (x / 2) (y / 2) * 2 + min (x % 2) (y % 2)
bit_and_step zero y = rw (bit_and-bitwise 0 y, bit_and-bitwise 0 (y / 2)) (omega arith)
bit_and_step (suc x) y =
    rw (bit_and-bitwise (suc x) y, bit_and-bitwise (suc x / 2) (y / 2))
      (lowest_digit (λ t. 0) min x y)

bit_or_step : (x y : ℕ) → bit_or x y ≡ bit_or (x / 2) (y / 2) * 2 + max (x % 2) (y % 2)
bit_or_step zero y = rw (bit_or-bitwise 0 y, bit_or-bitwise 0 (y / 2)) (omega arith)
bit_or_step (suc x) y =
    rw (bit_or-bitwise (suc x) y, bit_or-bitwise (suc x / 2) (y / 2))
      (lowest_digit (λ t. t) max x y)

-- Nothing is set in both a word and 0.
no_common_digit : (w x : ℕ) → digits (λ t. 0) min w x 0 ≡ 0
no_common_digit zero x = refl
no_common_digit (suc w) zero = refl
no_common_digit (suc w) (suc x) = omega (arith, no_common_digit w (suc x / 2))

bit_and-double : (w m : ℕ) → bit_and w (m * 2) ≡ bit_and (w / 2) m * 2
bit_and-double w m =
    bit_and_step w (m * 2)
    ∙ ap (λ t. bit_and (w / 2) t * 2 + min (w % 2) (m * 2 % 2)) half
    ∙ omega arith
  where
    half : m * 2 / 2 ≡ m
    half = omega arith

-- The masks of the filter read one digit.
pub bit_and-pow : (k w : ℕ) → bit_and w (2 ^ k) ≡ bit k w * 2 ^ k
unfolding bit
bit_and-pow zero w =
    omega (arith, bit_and_step w 1, bit_and-bitwise (w / 2) 0, no_common_digit (w / 2) (w / 2))
bit_and-pow (suc k) w =
    rw (pow-suc 2 k, bit_and-double w (2 ^ k), bit_and-pow k (w / 2)) (grind arith)

pub bit-bit_or : (j a b : ℕ) → bit j (bit_or a b) ≡ max (bit j a) (bit j b)
unfolding bit
bit-bit_or zero a b = omega (arith, bit_or_step a b)
bit-bit_or (suc j) a b = ap (bit j) (omega (arith, bit_or_step a b)) ∙ bit-bit_or j (a / 2) (b / 2)

pub bit-pow_self : (k : ℕ) → bit k (2 ^ k) ≡ 1
unfolding bit
bit-pow_self zero = refl
bit-pow_self (suc k) = ap (bit k) (omega (arith, pow-suc 2 k)) ∙ bit-pow_self k

pub bit-le : (k w : ℕ) → bit k w ≤ 1
unfolding bit
bit-le zero w = omega arith
bit-le (suc k) w = bit-le k (w / 2)
