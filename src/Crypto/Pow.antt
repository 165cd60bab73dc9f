-- ===== src/Crypto/Pow.antt =====
-- internal/crypto/pow.go: proof of work over SHA-256.
pub mod Target
pub mod Search
use Prim.Native.Nat.{bit_and}
use iskra.Base.{
  ℕ, zero, suc, ◌+◌, ◌-◌, ◌*◌, ◌/◌, ◌%◌, ◌^◌, ◌≤◌, ◌<◌, ◌≡◌, Bool, true, false, ◌&&◌, ◌==◌, ltb,
  if◌then◌else◌, Option, some, none,
}
use iskra.Base.{List, [], ◌∷◌, ◌++◌, get_or}
use iskra.Base.Bytes.{Bytes}
use iskra.Base.Endian.{put_be}
use iskra.Crypto.{Primitives}

-- The loop over the whole bytes: the first `k` bytes are zero.
zero_bytes : ℕ → Bytes → Bool
zero_bytes zero hash = true
zero_bytes (suc k) [] = false
zero_bytes (suc k) (b ∷ bs) = b == 0 && zero_bytes k bs

-- `byte(0xFF) << (8 - remainBits)`
mask : ℕ → ℕ
mask r = 0xFF * 2 ^ (8 - r) % 256

-- hasLeadingZeroBits. The hash has 32 bytes and `n` is a byte, so no index is out of range.
unfoldable pub has_leading_zero_bits : Bytes → ℕ → Bool
unfolding zero_bytes mask
has_leading_zero_bits hash n =
    let full_bytes = n / 8 in
    let remain_bits = n % 8 in
    if zero_bytes full_bytes hash
    then (if ltb 0 remain_bits
        then bit_and (get_or hash full_bytes 0) (mask remain_bits) == 0
        else true)
    else false

-- The 48 bytes that are hashed: ID, timestamp and nonce.
unfoldable pub pow_input : Bytes → ℕ → ℕ → Bytes
pow_input message_id timestamp nonce = message_id ++ (put_be 8 timestamp ++ put_be 8 nonce)

-- VerifyPoW
unfoldable pub verify_pow : Primitives → Bytes → ℕ → ℕ → ℕ → Bool
unfolding pow_input
verify_pow p message_id timestamp nonce difficulty =
    has_leading_zero_bits (p.sha256 (pow_input message_id timestamp nonce)) difficulty

-- The loop of SolvePoW from `nonce` on; `none` means that the fuel ran out.
solve_from : Primitives → Bytes → ℕ → ℕ → ℕ → ℕ → Option ℕ
solve_from p message_id timestamp difficulty zero nonce = none
solve_from p message_id timestamp difficulty (suc fuel) nonce =
    let rest = solve_from p message_id timestamp difficulty fuel ((nonce + 1) % 2 ^ 64) in
    if has_leading_zero_bits (p.sha256 (pow_input message_id timestamp nonce)) difficulty
    then some nonce
    else rest

-- SolvePoW
unfoldable pub solve_pow : Primitives → ℕ → Bytes → ℕ → ℕ → Option ℕ
unfolding solve_from
solve_pow p fuel message_id timestamp difficulty =
    solve_from p message_id timestamp difficulty fuel 0
