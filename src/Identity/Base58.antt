-- ===== src/Identity/Base58.antt =====
-- internal/identity/base58.go: what is encoded is decoded.
use iskra.Base.{
  ℕ, zero, suc, ◌+◌, ◌*◌, ◌<◌, ◌≡◌, inl, inr, ◌∙◌, sym, ap, refl, Bool, true, false, ◌&&◌, ◌==◌,
  List, [], ◌∷◌, ◌++◌, length, map, drop, All, All-append, All-drop, arith, replicate, some, none,
  Option-cases, length-append, length-replicate, length-take,
}
use mathlib.Core.List.{reverse, reverse-cons, reverse-append, reverse-reverse}
use iskra.Base.Bytes.{Bytes, IsByte, zeros}
use iskra.Base.Endian.{get_be, get_be-snoc, get_be-zeros}
use iskra.Identity.Digits.{
  value, value-to_digits, to_digits-All, to_digits-value, to_digits-Top, leading-replicate,
  leading-reverse, Top-reverse, leading_split,
}
use iskra.Identity.{
  base58_alphabet, letter, to_digits, leading, to_base58, index_from, decode_loop, big_bytes,
  from_base58, user_id,
}

-- The number of bytes is that of their digits, lowest first.
get_be-reverse : (ds : List ℕ) → get_be (reverse ds) ≡ value 256 ds
unfolding value
get_be-reverse [] = unfold get_be in refl
get_be-reverse (d ∷ ds) =
    rw (reverse-cons, get_be-snoc (reverse ds) d, get_be-reverse ds) (omega arith)

-- Every digit's letter is found again; checked on all of them.
found : ℕ → Bool
unfolding letter
found d = elim (index_from (letter d) 0 base58_alphabet) [ none ↦ false | some i ↦ i == d ]

all_below : ℕ → Bool
all_below zero = true
all_below (suc n) = found n && all_below n

all_below→found : (n d : ℕ) → all_below n ≡ true → d < n → found d ≡ true
unfolding all_below
all_below→found zero d h l = absurd (omega arith)
all_below→found (suc n) d h l = ground (arith, all_below→found n d)

table : all_below 58 ≡ true
unfolding all_below found letter index_from
table = refl

index-letter : (d : ℕ) → d < 58 → index_from (letter d) 0 base58_alphabet ≡ some d
unfolding found
index-letter d h = ground (arith, all_below→found 58 d table h)

letter_one : (d : ℕ) → d < 58 → letter d ≡ letter 0 → d ≡ 0
letter_one d h e = ground (
  arith,
  index-letter d h,
  index-letter 0 (omega arith),
  ap (λ c. index_from c 0 base58_alphabet) e,
)

decode-append :
    (x y : ℕ) (s t : Bytes) → decode_loop x s ≡ some y → decode_loop x (s ++ t) ≡ decode_loop y t
unfolding decode_loop
decode-append x y [] t h = ground (arith, h)
decode-append x y (c ∷ cs) t h = elim (Option-cases (index_from c 0 base58_alphabet)) [
  | inl e ↦ absurd (impossible (rw (decode_loop, e) at h))
  | inr (i, e) ↦ rw (decode_loop, e) (decode-append (x * 58 + i) y cs t (rw (decode_loop, e) at h))
]
  where
    impossible : none ≡ some y → ⊥
    impossible e = cc

decode-digits :
    (ds : List ℕ)
    → All (λ d. d < 58) ds
    → decode_loop 0 (reverse (map letter ds)) ≡ some (value 58 ds)
unfolding value decode_loop
decode-digits [] a = refl
decode-digits (d ∷ ds) (h, a) = rw (reverse-cons (letter d) (map letter ds)) (
    decode-append 0 (value 58 ds) (reverse (map letter ds)) (letter d ∷ []) (decode-digits ds a)
    ∙ rw (decode_loop, index-letter d h) (ap some (omega arith)))

decode-ones : (k : ℕ) (s : Bytes) → decode_loop 0 (replicate k (letter 0) ++ s) ≡ decode_loop 0 s
unfolding replicate decode_loop
decode-ones zero s = refl
decode-ones (suc k) s = rw (decode_loop, index-letter 0 (omega arith)) (decode-ones k s)

replicate-snoc : (k a : ℕ) → replicate k a ++ a ∷ [] ≡ a ∷ replicate k a
unfolding replicate
replicate-snoc zero a = refl
replicate-snoc (suc k) a = ap (λ l. a ∷ l) (replicate-snoc k a)

reverse-replicate : (k a : ℕ) → reverse (replicate k a) ≡ replicate k a
unfolding replicate
reverse-replicate zero a = refl
reverse-replicate (suc k) a =
    reverse-cons a (replicate k a)
    ∙ ap (λ l. l ++ a ∷ []) (reverse-replicate k a)
    ∙ replicate-snoc k a

-- The text of a byte string: a '1' for each leading zero, and the digits of the rest.
to_base58_lem :
    (bs : Bytes)
    → to_base58 bs
      ≡ replicate (leading 0 bs) (letter 0)
        ++ reverse (map letter (to_digits 58 (get_be bs) (get_be bs)))
unfolding to_base58 leading get_be to_digits replicate
to_base58_lem [] = refl
to_base58_lem (b ∷ bs) =
    reverse-append (map letter (to_digits 58 (get_be (b ∷ bs)) (get_be (b ∷ bs))))
      (replicate (leading 0 (b ∷ bs)) (letter 0))
    ∙ ap (λ l. l ++ reverse (map letter (to_digits 58 (get_be (b ∷ bs)) (get_be (b ∷ bs)))))
        (reverse-replicate (leading 0 (b ∷ bs)) (letter 0))

from_base58_lem :
    (s : Bytes) (x : ℕ)
    → decode_loop 0 s ≡ some x
    → from_base58 s ≡ some (zeros (leading (letter 0) s) ++ big_bytes x)
unfolding from_base58 decode_loop zeros leading big_bytes to_digits replicate
from_base58_lem [] x h = rw (← some_eq x h) refl
  where
    some_eq : (x : ℕ) → some 0 ≡ some x → 0 ≡ x
    some_eq x e = ground (arith, e)
from_base58_lem (c ∷ cs) x h = rw (from_base58, h) refl

letters_safe : (ds : List ℕ) → All (λ d. d < 58) ds → All (λ d. letter d ≡ letter 0 → d ≡ 0) ds
letters_safe [] a = tt
letters_safe (d ∷ ds) (h, a) = (letter_one d h, letters_safe ds a)

All-reverse : (bs : Bytes) → All IsByte bs → All IsByte (reverse bs)
All-reverse [] a = tt
All-reverse (b ∷ bs) (h, a) =
    rw reverse-cons (All-append IsByte (reverse bs) (b ∷ []) (All-reverse bs a) (h, tt))

-- The bytes of a number that was read from bytes with no leading zero.
big_bytes-get_be : (bs : Bytes) → All IsByte bs → leading 0 bs ≡ 0 → big_bytes (get_be bs) ≡ bs
unfolding big_bytes
big_bytes-get_be bs a h =
    let back = reverse-reverse bs in
    let number : get_be bs ≡ value 256 (reverse bs) =
      ap get_be (sym back) ∙ get_be-reverse (reverse bs) in
    rw number (
      ap reverse (
        to_digits-value 256 (omega arith) (value 256 (reverse bs)) (reverse bs) (All-reverse bs a)
          (Top-reverse (reverse bs) (ap (leading 0) back ∙ h)) (omega arith))
      ∙ back)

-- Every byte string is decoded from its Base58 text, the leading zero bytes included.
pub from_base58-to_base58 : (bs : Bytes) → All IsByte bs → from_base58 (to_base58 bs) ≡ some bs
from_base58-to_base58 bs a =
    let x = get_be bs in
    let k = leading 0 bs in
    let ds = to_digits 58 x x in
    let small = to_digits-All 58 (omega arith) x x in
    let (whole, rest) = leading_split 0 bs in
    let text = to_base58_lem bs in
    let decoded : decode_loop 0 (to_base58 bs) ≡ some x = rw text (
      decode-ones k (reverse (map letter ds))
      ∙ decode-digits ds small
      ∙ ap some (value-to_digits 58 (omega arith) x x (omega arith))) in
    let ones : leading (letter 0) (to_base58 bs) ≡ k = rw text (
      leading-replicate (letter 0) k (reverse (map letter ds)) (
        leading-reverse (letter 0) letter ds (letters_safe ds small)
          (to_digits-Top 58 (omega arith) x x (omega arith)))) in
    let body : x ≡ get_be (drop k bs) = ap get_be (sym whole) ∙ get_be-zeros k (drop k bs) in
    from_base58_lem (to_base58 bs) x decoded
    ∙ ap some (
        rw (ones, body, big_bytes-get_be (drop k bs) (All-drop IsByte k bs a) rest)
          (unfold zeros in whole))

-- A user id has 20 letters, whatever the key.
pub length-user_id : (ed_pub : Bytes) → length (user_id ed_pub) ≡ 20
unfolding user_id
length-user_id ed_pub = rw (length-take, length-append, length-replicate) (omega arith)
