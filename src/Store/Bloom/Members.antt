-- ===== src/Store/Bloom/Members.antt =====
-- internal/store/bloom.go: an identifier that was added is always found.
use Prim.Native.Nat.{bit_or}
use iskra.Base.{
  ℕ, zero, suc, ◌+◌, ◌*◌, ◌/◌, ◌%◌, ◌^◌, ◌≤◌, ◌<◌, ◌≡◌, ◌↔◌, refl, ap, sym, ◌∙◌, arith, Bool, true,
  ◌==◌, List, [], ◌∷◌, length, get_or, set, length-set, Bool-cases, inl, inr,
}
use iskra.Base.Bytes.{Bytes}
use iskra.Crypto.{Primitives}
use iskra.Store.Bloom.{
  Bloom, hash1, hash2, position, set_bit, test_bit, add_loop, add, contains_loop, contains,
}
use iskra.Store.Bloom.Bits.{bit, bit_and-pow, bit-bit_or, bit-pow_self, bit-le}
use native.Mathlib.Nat.{one-le-pow, mod-lt}

-- The word array holds the bits that positions are taken among, and there is one.
pub record IsFilter (b : Bloom) : Type 0 where
  pub sized : b.num_bits ≡ length b.bits * 64
  pub some_bits : 0 < b.num_bits

zero_product : (b p : ℕ) → 1 ≤ p → b * p ≡ 0 → b ≡ 0
zero_product b p h e = grind arith

test_bit_iff :
    (bits : List ℕ) (q : ℕ) → (test_bit bits q ≡ true) ↔ (bit (q % 64) (get_or bits (q / 64) 0) ≡ 1)
unfolding test_bit
test_bit_iff bits q =
    rw (test_bit, bit_and-pow (q % 64) (get_or bits (q / 64) 0))
      (ground (
        arith,
        bit-le (q % 64) (get_or bits (q / 64) 0),
        one-le-pow (q % 64) 2,
        zero_product (bit (q % 64) (get_or bits (q / 64) 0)) (2 ^ (q % 64)),
      ))

get_or-set_self : (xs : List ℕ) (i v : ℕ) → i < length xs → get_or (set xs i v) i 0 ≡ v
get_or-set_self [] i v h = absurd (omega arith)
get_or-set_self (x ∷ xs) zero v h = refl
get_or-set_self (x ∷ xs) (suc i) v h = get_or-set_self xs i v (omega arith)

get_or-set_other : (xs : List ℕ) (i j v : ℕ) → (i ≡ j → ⊥) → get_or (set xs i v) j 0 ≡ get_or xs j 0
get_or-set_other [] i j v n = refl
get_or-set_other (x ∷ xs) zero zero v n = absurd (n refl)
get_or-set_other (x ∷ xs) zero (suc j) v n = refl
get_or-set_other (x ∷ xs) (suc i) zero v n = refl
get_or-set_other (x ∷ xs) (suc i) (suc j) v n = get_or-set_other xs i j v (λ e. n (ap suc e))

set_bit_self : (bits : List ℕ) (q : ℕ) → q / 64 < length bits → test_bit (set_bit bits q) q ≡ true
unfolding set_bit
set_bit_self bits q h = (test_bit_iff _ q).1 (
    rw (get_or-set_self bits (q / 64) _ h, bit-bit_or, bit-pow_self)
      (omega (arith, bit-le (q % 64) (get_or bits (q / 64) 0))))

-- Setting a bit clears no other.
set_bit_keeps :
    (bits : List ℕ) (q r : ℕ)
    → q / 64 < length bits
    → test_bit bits r ≡ true
    → test_bit (set_bit bits q) r ≡ true
unfolding set_bit
set_bit_keeps bits q r h t = (test_bit_iff _ r).1 (elim (Bool-cases (q / 64 == r / 64)) [
  | inl e ↦
      let word = bit_or (get_or bits (q / 64) 0) (2 ^ (q % 64)) in
      let same : q / 64 ≡ r / 64 = ground arith in
      rw (← same, get_or-set_self bits (q / 64) word h, bit-bit_or)
        (omega (
          arith,
          ap (λ i. bit (r % 64) (get_or bits i 0)) same,
          (test_bit_iff bits r).0 t,
          bit-le (r % 64) (2 ^ (q % 64)),
        ))
  | inr e ↦
      rw
        (get_or-set_other bits (q / 64) (r / 64) (bit_or (get_or bits (q / 64) 0) (2 ^ (q % 64)))
          (ground arith))
        ((test_bit_iff bits r).0 t)
])

length-set_bit : (bits : List ℕ) (q : ℕ) → length (set_bit bits q) ≡ length bits
unfolding set_bit
length-set_bit bits q = length-set bits _ _

module _ (p : Primitives) (n : ℕ) (id : Bytes) (pos : 0 < n) where
  in_range : (bits : List ℕ) (i : ℕ) → n ≡ length bits * 64 → position p n id i / 64 < length bits
  unfolding position
  in_range bits i e = omega (arith, e, mod-lt ((hash1 p id + i * hash2 p id) % 2 ^ 64) pos)

  add_loop_keeps :
      (k i : ℕ) (bits : List ℕ) (r : ℕ)
      → n ≡ length bits * 64
      → test_bit bits r ≡ true
      → test_bit (add_loop p n id k i bits) r ≡ true
  unfolding add_loop
  add_loop_keeps zero i bits r e t = t
  add_loop_keeps (suc k) i bits r e t =
      add_loop_keeps k (i + 1) _ r (omega (arith, e, length-set_bit bits (position p n id i)))
        (set_bit_keeps bits (position p n id i) r (in_range bits i e) t)

  add_loop_sets :
      (k i : ℕ) (bits : List ℕ) (final : List ℕ)
      → n ≡ length bits * 64
      → final ≡ add_loop p n id k i bits
      → contains_loop (λ j. test_bit final (position p n id j)) k i ≡ true
  unfolding add_loop contains_loop
  add_loop_sets zero i bits final e f = refl
  add_loop_sets (suc k) i bits final e f =
      let q = position p n id i in
      let e' : n ≡ length (set_bit bits q) * 64 = omega (arith, e, length-set_bit bits q) in
      let hit : test_bit final q ≡ true = rw f (
        add_loop_keeps k (i + 1) (set_bit bits q) q e' (set_bit_self bits q (in_range bits i e))) in
      rw (contains_loop, hit) (add_loop_sets k (i + 1) (set_bit bits q) final e' f)

contains_loop_mono :
    (test test' : ℕ → Bool) (k i : ℕ)
    → ((j : ℕ) → test j ≡ true → test' j ≡ true)
    → contains_loop test k i ≡ true
    → contains_loop test' k i ≡ true
unfolding contains_loop
contains_loop_mono test test' zero i h t = refl
contains_loop_mono test test' (suc k) i h t = elim (Bool-cases (test i)) [
  | inl e ↦
      rw (contains_loop, h i e) (contains_loop_mono test test' k (i + 1) h (ground (arith, e, t)))
  | inr e ↦ ground (arith, e, t)
]

pub add-IsFilter : (p : Primitives) (id : Bytes) (b : Bloom) → IsFilter b → IsFilter (add p id b)
unfolding add add_loop
add-IsFilter p id b h = record {
  sized = h.sized ∙ sym (kept b.num_hash 0 b.bits);
  some_bits = h.some_bits;
}
  where
    kept :
        (k i : ℕ) (bits : List ℕ)
        → length (add_loop p b.num_bits id k i bits) * 64 ≡ length bits * 64
    kept zero i bits = refl
    kept (suc k) i bits = kept k (i + 1) _ ∙ ap (λ t. t * 64) (length-set_bit bits _)

-- No false negatives: in a filter with at least one bit, whose size is that of its words, an
-- identifier that was just added is contained, and so is every one that was contained before.
pub contains-add :
    (p : Primitives) (b : Bloom) (id other : Bytes)
    → IsFilter b
    → (contains p (add p id b) id ≡ true)
      × (contains p b other ≡ true → contains p (add p id b) other ≡ true)
unfolding add contains
contains-add p b id other h = (
  add_loop_sets p b.num_bits id h.some_bits b.num_hash 0 b.bits _ h.sized refl,
  contains_loop_mono _ _ b.num_hash 0
      (λ j t. add_loop_keeps p b.num_bits id h.some_bits b.num_hash 0 b.bits _ h.sized t),
)
