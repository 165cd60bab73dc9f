-- ===== src/Crypto/Pow/Target.antt =====
-- internal/crypto/pow.go: leading zero bits as a bound on the hash.
use Prim.Native.Nat.{bit_and}
use iskra.Base.{
  ℕ, zero, suc, ◌+◌, ◌-◌, ◌*◌, ◌/◌, ◌%◌, ◌^◌, ◌≤◌, ◌<◌, ◌≡◌, ◌↔◌, refl, Bool, true, ◌&&◌, ◌==◌, ltb,
  if◌then◌else◌, arith, ap,
}
use iskra.Base.{[], ◌∷◌, length, All}
use iskra.Base.Bytes.{Bytes, IsByte}
use iskra.Base.Endian.{get_be, get_be-cons}
use iskra.Crypto.Pow.{mask, has_leading_zero_bits}
use native.Mathlib.Nat.{pow-suc, mul-le-mul_right}
use native.Mathlib.Decide.{dec_lt}
use native.Mathlib.Numerals.{towards_suc}
use iskra.Base.{leb, lt→ltb}

-- `p` is the weight of the first byte `b`, `v` the bytes behind it, `t` a power of two up to 256.
first_byte_fits : (b p v t k : ℕ) → v < p → t * k ≡ 256 → b * t < 256 → (b * p + v) * t < p * 256
first_byte_fits b p v t k h e l =
    let b_below : b < k = below b t k (omega arith) in
    omega (
      arith,
      mul-le-mul_right (p * t) b_below,
      mul-le-mul_right t h,
      ap (λ (x : ℕ). x * p) e,
      positive t k e,
    )
  where
    below : (b t k : ℕ) → b * t < t * k → b < k
    below b t k h = grind arith

    positive : (t k : ℕ) → t * k ≡ 256 → 0 < t
    positive zero k e = absurd (omega arith)
    positive (suc t) k e = omega arith

first_byte_small : (b p v t : ℕ) → (b * p + v) * t < p * 256 → b * t < 256
first_byte_small b p v t h = elim (dec_lt (b * t) 256) [
  | yes l ↦ l
  | no n ↦ absurd (omega (arith, mul-le-mul_right {m = 256} {n = b * t} p (omega arith)))
]

-- The mask test agrees with the arithmetic one on every byte.
agrees : ℕ → ℕ → Bool
unfolding mask
agrees r b = if bit_and b (mask r) == 0 then ltb (b * 2 ^ r) 256 else leb 256 (b * 2 ^ r)

all_agree : ℕ → ℕ → Bool
all_agree r zero = true
all_agree r (suc b) = agrees r b && all_agree r b

all_agree_at : (r n b : ℕ) → all_agree r n ≡ true → b < n → agrees r b ≡ true
unfolding all_agree
all_agree_at r zero b e h = absurd (omega arith)
all_agree_at r (suc n) b e h = ground (arith, all_agree_at r n b)

table : (r : ℕ) → 0 < r → r < 8 → all_agree r 256 ≡ true
unfolding all_agree agrees
table zero lo hi = absurd (omega arith)
table (suc zero) lo hi = refl
table (suc (suc zero)) lo hi = refl
table (suc (suc (suc zero))) lo hi = refl
table (suc (suc (suc (suc zero)))) lo hi = refl
table (suc (suc (suc (suc (suc zero))))) lo hi = refl
table (suc (suc (suc (suc (suc (suc zero)))))) lo hi = refl
table (suc (suc (suc (suc (suc (suc (suc zero))))))) lo hi = refl
table (suc (suc (suc (suc (suc (suc (suc (suc r)))))))) lo hi = absurd (omega arith)

mask_test :
    (r b : ℕ) → 0 < r → r < 8 → b < 256 → ((bit_and b (mask r) == 0) ≡ true) ↔ (b * 2 ^ r < 256)
unfolding agrees
mask_test r b lo hi h = ground (arith, all_agree_at r 256 b (table r lo hi) h)

power_pair : (r : ℕ) → r < 8 → (k : ℕ) × (2 ^ r * k ≡ 256)
power_pair zero h = (256, refl)
power_pair (suc zero) h = (128, refl)
power_pair (suc (suc zero)) h = (64, refl)
power_pair (suc (suc (suc zero))) h = (32, refl)
power_pair (suc (suc (suc (suc zero)))) h = (16, refl)
power_pair (suc (suc (suc (suc (suc zero))))) h = (8, refl)
power_pair (suc (suc (suc (suc (suc (suc zero)))))) h = (4, refl)
power_pair (suc (suc (suc (suc (suc (suc (suc zero))))))) h = (2, refl)
power_pair (suc (suc (suc (suc (suc (suc (suc (suc r)))))))) h = absurd (omega arith)

-- `n` leading zero bits, as a bound on the hash read as a number.
abbrev pub Below : Bytes → ℕ → Type 0
Below hash n = get_be hash * 2 ^ n < 256 ^ length hash

few_lem :
    (b : ℕ) (bs : Bytes) (n : ℕ)
    → n < 8
    → has_leading_zero_bits (b ∷ bs) n ≡ (if ltb 0 n then bit_and b (mask n) == 0 else true)
unfolding has_leading_zero_bits
few_lem b bs n small =
    let q : n / 8 ≡ 0 = omega arith in let r : n % 8 ≡ n = omega arith in rw (q, r)

first_byte_iff : (b p v n : ℕ) → v < p → n < 8 → ((b * p + v) * 2 ^ n < p * 256) ↔ (b * 2 ^ n < 256)
first_byte_iff b p v n h small =
    let (k, e) = power_pair n small in
    (first_byte_small b p v (2 ^ n), first_byte_fits b p v (2 ^ n) k h e)

Below-cons :
    (b : ℕ) (bs : Bytes) (n : ℕ)
    → IsByte b
    → All IsByte bs
    → Below (b ∷ bs) n ↔ ((b * 256 ^ length bs + get_be bs) * 2 ^ n < 256 ^ length bs * 256)
Below-cons b bs n hb h = let (e, l) = get_be-cons b bs hb h in rw (e, pow-suc) (λ x. x, λ x. x)

few_bits :
    (b : ℕ) (bs : Bytes) (n : ℕ)
    → IsByte b
    → All IsByte bs
    → n < 8
    → (has_leading_zero_bits (b ∷ bs) n ≡ true) ↔ Below (b ∷ bs) n
few_bits b bs n hb h small =
    let (e, l) = get_be-cons b bs hb h in
    let ends = Below-cons b bs n hb h in
    let first = first_byte_iff b (256 ^ length bs) (get_be bs) n l small in
    rw (few_lem b bs n small) (elim (dec_lt 0 n) [
      | yes pos ↦
          let (there, back) = mask_test n b pos small hb in
          (
            λ t. ends.1 (first.1 (there (rw (lt→ltb 0 n pos) at t))),
            λ t. rw (lt→ltb 0 n pos) (back (first.0 (ends.0 t))),
          )
      | no none ↦
          let z : n ≡ 0 = omega arith in (λ t. ends.1 (first.1 (rw z (omega arith))), λ t. rw z)
    ])

byte_step :
    (b : ℕ) (bs : Bytes) (n : ℕ)
    → has_leading_zero_bits (b ∷ bs) (n + 8) ≡ (b == 0 && has_leading_zero_bits bs n)
unfolding has_leading_zero_bits
byte_step b bs n =
    let q : (n + 8) / 8 ≡ suc (n / 8) = omega arith in
    let r : (n + 8) % 8 ≡ n % 8 = omega arith in rw (q, r) (ground arith)

-- A byte in front adds eight bits to the bound, if it is zero; otherwise the bound fails.
zero_byte_bound :
    (b p v t : ℕ) → v < p → 0 < t → (b * p + v) * (t * 256) < p * 256 → (b ≡ 0) × (v * t < p)
zero_byte_bound zero p v t h pos l = (refl, omega arith)
zero_byte_bound (suc b) p v t h pos l =
    absurd (omega (arith, mul-le-mul_right {m = 1} {n = t} p (omega arith)))

eight_more : (m : ℕ) → 2 ^ (m + 8) ≡ 2 ^ m * 256
eight_more m = simp towards_suc (omega arith)

power_pos : (m : ℕ) → 0 < 2 ^ m
power_pos zero = omega arith
power_pos (suc m) = omega (arith, pow-suc 2 m, power_pos m)

more_bits :
    (b : ℕ) (bs : Bytes) (m : ℕ)
    → IsByte b
    → All IsByte bs
    → (has_leading_zero_bits bs m ≡ true) ↔ Below bs m
    → (has_leading_zero_bits (b ∷ bs) (m + 8) ≡ true) ↔ Below (b ∷ bs) (m + 8)
more_bits b bs m hb h ih =
    let (e, l) = get_be-cons b bs hb h in
    let ends = Below-cons b bs (m + 8) hb h in
    rw (byte_step b bs m) (
      λ t.
          let (z, u) = both b (has_leading_zero_bits bs m) t in
          ends.1 (rw (eight_more m, z) (omega (arith, ih.0 u))),
      λ t.
          let (z, u) =
            zero_byte_bound b (256 ^ length bs) (get_be bs) (2 ^ m) l (power_pos m)
              (rw (eight_more m) at (ends.0 t)) in
          rw (z, ih.1 u),
    )
  where
    both : (b : ℕ) (c : Bool) → (b == 0 && c) ≡ true → (b ≡ 0) × (c ≡ true)
    both b c h = ground arith

-- hasLeadingZeroBits holds exactly when the hash, read as a big-endian number, times 2 ^ n lies below
-- 256 ^ length: for every byte string, and every n that is at most its number of bits.
pub has_leading_zero_bits-Below :
    (hash : Bytes) (n : ℕ)
    → All IsByte hash
    → n ≤ 8 * length hash
    → (has_leading_zero_bits hash n ≡ true) ↔ (get_be hash * 2 ^ n < 256 ^ length hash)
has_leading_zero_bits-Below [] n h l =
    let z : n ≡ 0 = omega arith in
    rw z (λ t. unfold get_be in omega arith, λ t. unfold has_leading_zero_bits in refl)
has_leading_zero_bits-Below (b ∷ bs) n (hb, h) l = elim (dec_lt n 8) [
  | yes small ↦ few_bits b bs n hb h small
  | no big ↦
      let e : n ≡ n - 8 + 8 = omega arith in
      rw e (more_bits b bs (n - 8) hb h (has_leading_zero_bits-Below bs (n - 8) h (omega arith)))
]
