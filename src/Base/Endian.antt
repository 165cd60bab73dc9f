-- ===== src/Base/Endian.antt =====
-- encoding/binary: big- and little-endian words of `k` bytes, as the package documents them.
use Prim.Native.Nat.{ℕ, zero, suc, ◌+◌, ◌*◌, ◌/◌, ◌%◌, ◌^◌, ◌<◌}
use native.Mathlib.Nat.{pow-suc, div-div-eq-div-mul, mul-add-div_right, mul_comm, div-eq_of_lt}
use mathlib.Core.Path.{ap, ap₂, sym}
use mathlib.Core.Path.{◌≡◌, refl, ◌∙◌}
use mathlib.Core.List.{[], ◌∷◌, ◌++◌}
use native.Mathlib.Omega.{arith}
use iskra.Base.Lists.{replicate, length, length-append, All, All-append}
use iskra.Base.Bytes.{Bytes, IsByte, IsArray}

-- The word `v % 256 ^ k`, most significant byte first.
unfoldable pub put_be : ℕ → ℕ → Bytes
put_be zero v = []
put_be (suc k) v = put_be k (v / 256) ++ v % 256 ∷ []

be_from : ℕ → Bytes → ℕ
be_from acc [] = acc
be_from acc (b ∷ bs) = be_from (acc * 256 + b) bs

unfoldable pub get_be : Bytes → ℕ
unfolding be_from
get_be bs = be_from 0 bs

-- Least significant byte first.
unfoldable pub put_le : ℕ → ℕ → Bytes
put_le zero v = []
put_le (suc k) v = v % 256 ∷ put_le k (v / 256)

pub length-put_be : (k v : ℕ) → length (put_be k v) ≡ k
unfolding put_be
length-put_be zero v = refl
length-put_be (suc k) v =
    omega (arith, length-append (put_be k (v / 256)) (v % 256 ∷ []), length-put_be k (v / 256))

pub put_be-IsByte : (k v : ℕ) → All IsByte (put_be k v)
unfolding put_be
put_be-IsByte zero v = tt
put_be-IsByte (suc k) v =
    All-append IsByte (put_be k (v / 256)) (v % 256 ∷ []) (put_be-IsByte k (v / 256)) (omega arith)

pub put_be-IsArray : (k v : ℕ) → IsArray k (put_be k v)
put_be-IsArray k v = (length-put_be k v, put_be-IsByte k v)

be_from-append : (acc : ℕ) (xs ys : Bytes) → be_from acc (xs ++ ys) ≡ be_from (be_from acc xs) ys
unfolding be_from
be_from-append acc [] ys = refl
be_from-append acc (x ∷ xs) ys = be_from-append (acc * 256 + x) xs ys

div_below : (k v : ℕ) → v < 256 ^ suc k → v / 256 < 256 ^ k
div_below k v h = omega (arith, pow-suc 256 k)

-- A word that fits is read back.
pub get_be-put_be : (k v : ℕ) → v < 256 ^ k → get_be (put_be k v) ≡ v
unfolding get_be put_be
get_be-put_be zero v h = omega arith
get_be-put_be (suc k) v h =
    be_from-append 0 (put_be k (v / 256)) (v % 256 ∷ [])
    ∙ rw (get_be-put_be k (v / 256) (div_below k v h)) (omega arith)

-- `PutUint32` and its kin write the most significant byte first.
put_be_front : (k v : ℕ) → put_be (suc k) v ≡ v / 256 ^ k % 256 ∷ put_be k v
unfolding put_be
put_be_front zero v = ap (λ t. t % 256 ∷ []) (omega arith)
put_be_front (suc k) v =
    rw (put_be_front k (v / 256), div-div-eq-div-mul)
      (ap (λ t. v / t % 256 ∷ put_be (suc k) v) (mul_comm 256 (256 ^ k) ∙ sym (pow-suc 256 k)))

digit_below : (b p r : ℕ) → b < 256 → r < p → b * p + r < p * 256
digit_below b p r hb hr = grind arith

be_from_value :
    (acc : ℕ) (bs : Bytes)
    → All IsByte bs
    → (be_from acc bs ≡ acc * 256 ^ length bs + be_from 0 bs) × (be_from 0 bs < 256 ^ length bs)
unfolding be_from
be_from_value acc [] h = omega arith
be_from_value acc (b ∷ bs) (hb, h) =
    let (e, l) = be_from_value (acc * 256 + b) bs h in
    let (e', l') = be_from_value (0 * 256 + b) bs h in
    let p : 256 ^ suc (length bs) ≡ 256 ^ length bs * 256 = pow-suc 256 (length bs) in
    (
      omega (arith, e, e', ap (λ (t : ℕ). acc * t) p),
      omega (arith, e', p, digit_below b (256 ^ length bs) (be_from 0 bs) hb l'),
    )

front_digit : (acc p r : ℕ) → r < p → (acc * p + r) / p ≡ acc
front_digit acc p r h =
    rw (mul-add-div_right {m = p} (omega arith) acc r, div-eq_of_lt h) (omega arith)

put_be-be_from : (acc : ℕ) (bs : Bytes) → All IsByte bs → put_be (length bs) (be_from acc bs) ≡ bs
unfolding be_from
put_be-be_from acc [] h = unfold put_be in refl
put_be-be_from acc (b ∷ bs) (hb, h) =
    let (e, l) = be_from_value (acc * 256 + b) bs h in
    put_be_front (length bs) (be_from (acc * 256 + b) bs)
    ∙ ap₂ (λ t u. t ∷ u)
        (ap (λ t. t / 256 ^ length bs % 256) e
          ∙ ap (λ t. t % 256) (front_digit (acc * 256 + b) (256 ^ length bs) (be_from 0 bs) l)
          ∙ omega arith)
        (put_be-be_from (acc * 256 + b) bs h)

-- Bytes that are read as a word are written back.
pub put_be-get_be : (k : ℕ) (bs : Bytes) → IsArray k bs → put_be k (get_be bs) ≡ bs
unfolding get_be
put_be-get_be k bs (e, h) = rw (← e) (put_be-be_from 0 bs h)

pub get_be-lt : (k : ℕ) (bs : Bytes) → IsArray k bs → get_be bs < 256 ^ k
unfolding get_be
get_be-lt k bs (e, h) = rw (← e) ((be_from_value 0 bs h).1)

pub put_be_injective : (k v w : ℕ) → v < 256 ^ k → w < 256 ^ k → put_be k v ≡ put_be k w → v ≡ w
put_be_injective k v w hv hw e = sym (get_be-put_be k v hv) ∙ ap get_be e ∙ get_be-put_be k w hw

pub get_be-cons :
    (b : ℕ) (bs : Bytes)
    → IsByte b
    → All IsByte bs
    → (get_be (b ∷ bs) ≡ b * 256 ^ length bs + get_be bs) × (get_be bs < 256 ^ length bs)
unfolding get_be be_from
get_be-cons b bs hb h = let (e, l) = be_from_value (0 * 256 + b) bs h in (omega (arith, e), l)

pub get_be-snoc : (bs : Bytes) (b : ℕ) → get_be (bs ++ b ∷ []) ≡ get_be bs * 256 + b
unfolding get_be be_from
get_be-snoc bs b = be_from-append 0 bs (b ∷ [])

-- Leading zeros do not count.
pub get_be-zeros : (k : ℕ) (bs : Bytes) → get_be (replicate k 0 ++ bs) ≡ get_be bs
unfolding get_be be_from replicate
get_be-zeros zero bs = refl
get_be-zeros (suc k) bs = get_be-zeros k bs
