-- ===== src/Crypto/Stream.antt =====
-- internal/crypto/encrypt.go: the obfuscation keystream and the XOR layer.
pub mod Blocks
use Prim.Native.Nat.{bit_xor}
use iskra.Base.{
  ℕ, zero, suc, ◌+◌, ◌-◌, ◌*◌, ◌/◌, ◌%◌, ◌^◌, ◌≤◌, ◌<◌, ◌≡◌, Bool, true, false, ◌&&◌, ◌==◌, ltb,
  if◌then◌else◌,
}
use iskra.Base.{List, [], ◌∷◌, ◌++◌, length, take}
use iskra.Base.Bytes.{Bytes, codes}
use iskra.Base.Endian.{put_be}
use iskra.Crypto.{Primitives}

-- What is written behind `info` for one block: one byte up to 255, then four bytes.
pub counter_bytes : ℕ → Bytes
counter_bytes counter = if ltb counter 256 then counter ∷ [] else put_be 4 counter

pub block : Primitives → Bytes → Bytes → ℕ → Bytes
unfolding counter_bytes
block p secret info counter = p.hmac secret (info ++ counter_bytes counter)

-- `for len(stream) < length`. The counter is a uint32. Each round adds a block, so `length` rounds
-- are enough where a block is not empty.
stream_loop : Primitives → Bytes → Bytes → ℕ → ℕ → ℕ → Bytes → Bytes
stream_loop p secret info len zero counter stream = stream
stream_loop p secret info len (suc fuel) counter stream = elim (ltb (length stream) len) [
  | true ↦
      stream_loop p secret info len fuel ((counter + 1) % 2 ^ 32)
        (stream ++ block p secret info counter)
  | false ↦ stream
]

-- generateObfuscationStream
unfoldable pub obfuscation_stream : Primitives → Bytes → Bytes → ℕ → Bytes
unfolding stream_loop block
obfuscation_stream p secret nonce len =
    take len (stream_loop p secret (nonce ++ codes "iskra-obf") len len 0 [])

-- xorBytes. The callers pass a second slice of the same length; a shorter one would panic in Go.
unfoldable pub xor_bytes : Bytes → Bytes → Bytes
xor_bytes [] ys = []
xor_bytes (x ∷ xs) [] = []
xor_bytes (x ∷ xs) (y ∷ ys) = bit_xor x y ∷ xor_bytes xs ys
