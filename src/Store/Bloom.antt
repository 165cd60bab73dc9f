-- ===== src/Store/Bloom.antt =====
-- internal/store/bloom.go: the Bloom filter of message identifiers. A []uint64 is a list of numbers
-- below 2 ^ 64. NewBloom sizes the filter by floating point; that computation is not modelled, and
-- its raw results `m` and `k` are arguments of `new_bloom`.
pub mod Bits
pub mod Members
pub mod Examples
use Prim.Native.Nat.{bit_and, bit_or}
use iskra.Base.{
  ℕ, zero, suc, ◌+◌, ◌-◌, ◌*◌, ◌/◌, ◌%◌, ◌^◌, ◌<◌, ◌≡◌, Bool, true, false, ◌==◌, ltb, if◌then◌else◌,
  List, [], ◌∷◌, ◌++◌, length, get_or, set, take, replicate,
}
use iskra.Base.Bytes.{Bytes}
use iskra.Base.Endian.{get_be, put_le}
use iskra.Crypto.{Primitives}

pub record Bloom : Type 0 where
  pub bits : List ℕ
  pub num_bits : ℕ
  pub num_hash : ℕ

-- NewBloom behind its floating-point part: the clamps on `k` and the rounding of `m`.
unfoldable pub new_bloom : ℕ → ℕ → Bloom
unfolding replicate
new_bloom m k =
    let k1 = if ltb k 1 then 1 else k in
    let k2 = if ltb 20 k1 then 20 else k1 in
    let m' = (m + 63) / 64 * 64 in
    record { bits = replicate (m' / 64) 0; num_bits = m'; num_hash = k2 }

-- The two uint64 hashes of an identifier.
unfoldable pub hash1 : Primitives → Bytes → ℕ
hash1 p id = get_be (take 8 (p.sha256 (id ++ 0 ∷ [])))

unfoldable pub hash2 : Primitives → Bytes → ℕ
hash2 p id = get_be (take 8 (p.sha256 (id ++ 1 ∷ [])))

-- The i-th position of an identifier among `n` bits, in uint64 arithmetic.
unfoldable pub position : Primitives → ℕ → Bytes → ℕ → ℕ
position p n id i = (hash1 p id + i * hash2 p id) % 2 ^ 64 % n

-- `b.bits[pos/64] |= 1 << (pos % 64)`
unfoldable pub set_bit : List ℕ → ℕ → List ℕ
set_bit bits pos = set bits (pos / 64) (bit_or (get_or bits (pos / 64) 0) (2 ^ (pos % 64)))

-- `b.bits[pos/64] & (1 << (pos%64)) != 0`
unfoldable pub test_bit : List ℕ → ℕ → Bool
test_bit bits pos = elim (bit_and (get_or bits (pos / 64) 0) (2 ^ (pos % 64)) == 0) [
  | true ↦ false
  | false ↦ true
]

-- The loop of Add over the hash indices from `i` on, `n` of them left.
unfoldable pub add_loop : Primitives → ℕ → Bytes → ℕ → ℕ → List ℕ → List ℕ
add_loop p num_bits id zero i bits = bits
add_loop p num_bits id (suc n) i bits =
    add_loop p num_bits id n (i + 1) (set_bit bits (position p num_bits id i))

-- Add
unfoldable pub add : Primitives → Bytes → Bloom → Bloom
add p id b = record b { bits = add_loop p b.num_bits id b.num_hash 0 b.bits }

-- The loop of Contains; `test` reads one position.
unfoldable pub contains_loop : (ℕ → Bool) → ℕ → ℕ → Bool
contains_loop test zero i = true
contains_loop test (suc n) i = elim (test i) [ true ↦ contains_loop test n (i + 1) | false ↦ false ]

-- Contains
unfoldable pub contains : Primitives → Bloom → Bytes → Bool
contains p b id = contains_loop (λ i. test_bit b.bits (position p b.num_bits id i)) b.num_hash 0

-- Export: eight bytes a word, least significant byte first.
pub export : List ℕ → Bytes
export [] = []
export (w ∷ ws) = put_le 8 w ++ export ws

-- `remoteData[byteIdx]&(1<<bitIdx)`, with the bounds check of the loop.
pub remote_bit : Bytes → ℕ → Bool
remote_bit remote pos =
    if ltb (pos / 8) (length remote)
    then (elim (bit_and (get_or remote (pos / 8) 0) (2 ^ (pos % 8)) == 0) [
      | true ↦ false
      | false ↦ true
    ])
    else false

-- CheckInRemote
pub check_in_remote : Primitives → Bloom → Bytes → Bytes → Bool
check_in_remote p b remote id =
    if length remote * 8 == 0
    then false
    else contains_loop (λ i. remote_bit remote (position p (length remote * 8) id i)) b.num_hash 0
