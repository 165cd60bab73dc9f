-- ===== src/Crypto/Stream/Blocks.antt =====
-- internal/crypto/encrypt.go: the keystream as a sequence of distinct HMAC blocks.
use iskra.Base.{
  ℕ, zero, suc, ◌+◌, ◌-◌, ◌*◌, ◌/◌, ◌%◌, ◌^◌, ◌≤◌, ◌<◌, ◌≡◌, refl, sym, ap, ◌∙◌, ltb, lt→ltb, arith,
  Bool-cases, inl, inr,
}
use iskra.Base.{
  [], ◌∷◌, ◌++◌, length, take, All, length-take, length-append, All-append, All-take, append_assoc,
  append-nil,
}
use iskra.Base.Bytes.{Bytes, IsByte, IsArray, codes}
use iskra.Base.Endian.{put_be, put_be_injective, length-put_be}
use iskra.Crypto.{Primitives, Laws}
use iskra.Crypto.Stream.{counter_bytes, block, stream_loop, obfuscation_stream}
use native.Mathlib.Nat.{mod-eq_of_lt}
use native.Mathlib.Decide.{dec_lt}

-- No two blocks of one keystream are made from the same counter bytes: the encodings of two
-- uint32 counters differ where the counters do.
pub counter_bytes_injective :
    (i j : ℕ) → i < 2 ^ 32 → j < 2 ^ 32 → counter_bytes i ≡ counter_bytes j → i ≡ j
unfolding counter_bytes
counter_bytes_injective i j hi hj e = elim (Bool-cases (ltb i 256)) [
  | inl a ↦ elim (Bool-cases (ltb j 256)) [
    | inl b ↦ cc (rw (a, b) at e)
    | inr b ↦ absurd (short i j (rw (a, b) at e))
  ]
  | inr a ↦ elim (Bool-cases (ltb j 256)) [
    | inl b ↦ absurd (short j i (sym (rw (a, b) at e)))
    | inr b ↦ put_be_injective 4 i j hi hj (rw (a, b) at e)
  ]
]
  where
    short : (i j : ℕ) → i ∷ [] ≡ put_be 4 j → ⊥
    short i j e = omega (arith, ap length e, length-put_be 4 j)

-- `count` blocks from `counter` on.
pub blocks : Primitives → Bytes → Bytes → ℕ → ℕ → Bytes
blocks p secret info counter zero = []
blocks p secret info counter (suc count) =
    block p secret info counter ++ blocks p secret info (counter + 1) count

-- The number of rounds that the loop still makes: the bytes that are missing, in blocks of 32.
rounds : ℕ → ℕ → ℕ
rounds len have = (len - have + 31) / 32

module _ (p : Primitives) (laws : Laws p) (secret info : Bytes) where
  length-block : (counter : ℕ) → length (block p secret info counter) ≡ 32
  unfolding block
  length-block counter = (laws.hmac_array secret _).0

  length-blocks : (counter count : ℕ) → length (blocks p secret info counter count) ≡ 32 * count
  unfolding blocks
  length-blocks counter zero = omega arith
  length-blocks counter (suc count) = omega (
    arith,
    length-append (block p secret info counter) (blocks p secret info (counter + 1) count),
    length-block counter,
    length-blocks (counter + 1) count,
  )

  one_more : (stream : Bytes) (counter : ℕ) → Bytes
  one_more stream counter = stream ++ block p secret info counter

  length-one_more :
      (stream : Bytes) (counter : ℕ) → length (one_more stream counter) ≡ length stream + 32
  unfolding one_more
  length-one_more stream counter =
      omega (arith, length-append stream (block p secret info counter), length-block counter)

  rounds_step : (len have : ℕ) → have < len → rounds len have ≡ suc (rounds len (have + 32))
  unfolding rounds
  rounds_step len have h = omega arith

  rounds_done : (len have : ℕ) → len ≤ have → rounds len have ≡ 0
  unfolding rounds
  rounds_done len have h = omega arith

  loop_stop :
      (len fuel counter : ℕ) (stream : Bytes)
      → len ≤ length stream
      → stream_loop p secret info len fuel counter stream ≡ stream
  unfolding stream_loop
  loop_stop len zero counter stream h = refl
  loop_stop len (suc fuel) counter stream h = ground arith

  loop_round :
      (len fuel counter : ℕ) (stream : Bytes)
      → length stream < len
      → counter + 1 < 2 ^ 32 + 1
      → stream_loop p secret info len (suc fuel) counter stream
        ≡ stream_loop p secret info len fuel ((counter + 1) % 2 ^ 32) (one_more stream counter)
  unfolding stream_loop one_more
  loop_round len fuel counter stream h w = rw (lt→ltb (length stream) len h, stream_loop)

  stream_loop-blocks :
      (len fuel counter : ℕ) (stream : Bytes)
      → len ≤ length stream + 32 * fuel
      → counter + fuel < 2 ^ 32
      → stream_loop p secret info len fuel counter stream
        ≡ stream ++ blocks p secret info counter (rounds len (length stream))
  stream_loop-blocks len zero counter stream h w =
      loop_stop len zero counter stream (omega arith)
      ∙ rw (rounds_done len (length stream) (omega arith))
          (unfold blocks in sym (append-nil stream))
  stream_loop-blocks len (suc fuel) counter stream h w = elim (dec_lt (length stream) len) [
    | yes short ↦
        loop_round len fuel counter stream short (omega arith)
        ∙ ap (λ c. stream_loop p secret info len fuel c (one_more stream counter))
            (mod-eq_of_lt {n = counter + 1} (omega arith))
        ∙ stream_loop-blocks len fuel (counter + 1) (one_more stream counter)
            (omega (arith, length-one_more stream counter)) (omega arith)
        ∙ rw (length-one_more stream counter, rounds_step len (length stream) short)
            (unfold blocks one_more in append_assoc stream _ _)
    | no done ↦
        loop_stop len (suc fuel) counter stream (omega arith)
        ∙ rw (rounds_done len (length stream) (omega arith))
            (unfold blocks in sym (append-nil stream))
  ]

-- The keystream of a length below 2 ^ 32 has that length, and it is cut from the concatenation of
-- the HMAC blocks of the counters 0, 1, 2 and so on: as many blocks as the length needs.
pub obfuscation_stream-blocks :
    (p : Primitives) (laws : Laws p) (secret nonce : Bytes) (len : ℕ)
    → len < 2 ^ 32
    → (obfuscation_stream p secret nonce len
        ≡ take len (blocks p secret (nonce ++ codes "iskra-obf") 0 ((len + 31) / 32)))
      × (length (obfuscation_stream p secret nonce len) ≡ len)
unfolding obfuscation_stream
obfuscation_stream-blocks p laws secret nonce len h = rw (e, e') (refl, enough)
  where
    info : Bytes
    info = nonce ++ codes "iskra-obf"

    e' : rounds len 0 ≡ (len + 31) / 32
    e' = unfold rounds in omega arith

    e : stream_loop p secret info len len 0 [] ≡ blocks p secret info 0 (rounds len 0)
    e = stream_loop-blocks p laws secret info len len 0 [] (omega arith) (omega arith)

    enough : length (take len (blocks p secret info 0 ((len + 31) / 32))) ≡ len
    enough = omega (
      arith,
      length-take len (blocks p secret info 0 ((len + 31) / 32)),
      length-blocks p laws secret info 0 ((len + 31) / 32),
    )

blocks-IsByte :
    (p : Primitives) (laws : Laws p) (secret info : Bytes) (counter count : ℕ)
    → All IsByte (blocks p secret info counter count)
unfolding blocks block
blocks-IsByte p laws secret info counter zero = tt
blocks-IsByte p laws secret info counter (suc count) =
    All-append IsByte (block p secret info counter) (blocks p secret info (counter + 1) count)
      (laws.hmac_array secret _).1 (blocks-IsByte p laws secret info (counter + 1) count)

pub obfuscation_stream-IsArray :
    (p : Primitives) (laws : Laws p) (secret nonce : Bytes) (len : ℕ)
    → len < 2 ^ 32
    → IsArray len (obfuscation_stream p secret nonce len)
obfuscation_stream-IsArray p laws secret nonce len h =
    let (e, l) = obfuscation_stream-blocks p laws secret nonce len h in
    (l, rw e (All-take IsByte len _ (blocks-IsByte p laws secret _ 0 _)))
