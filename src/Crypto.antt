-- ===== src/Crypto.antt =====
-- internal/crypto. The primitives themselves (crypto/sha256, crypto/hmac, crypto/ed25519,
-- x/crypto/curve25519, x/crypto/nacl/secretbox) are parameters; what the code relies on is in the laws.
pub mod Pow
pub mod Stream
pub mod Encrypt
pub mod Examples
use iskra.Base.{ℕ, ◌≡◌, Bool, true, Option, some, All, length, ◌+◌}
use iskra.Base.Bytes.{Bytes, IsByte, IsArray}

pub record Primitives : Type 0 where
  pub sha256 : Bytes → Bytes
  -- hmac.New(sha256.New, key), Write, Sum: key and message
  pub hmac : Bytes → Bytes → Bytes
  -- curve25519.X25519(scalar, point); `none` is its error on a low-order point
  pub x25519 : Bytes → Bytes → Option Bytes
  pub basepoint : Bytes
  -- ed25519.Sign(private, data) and ed25519.Verify(public, data, signature)
  pub ed25519_sign : Bytes → Bytes → Bytes
  pub ed25519_verify : Bytes → Bytes → Bytes → Bool
  -- the public key that belongs to an Ed25519 private key
  pub ed25519_public : Bytes → Bytes
  -- secretbox.Seal(nil, message, nonce, key) and secretbox.Open(nil, box, nonce, key)
  pub seal : Bytes → Bytes → Bytes → Bytes
  pub unseal : Bytes → Bytes → Bytes → Option Bytes

-- What the packages document.
pub record Laws (p : Primitives) : Type 0 where
  pub sha256_array : (x : Bytes) → IsArray 32 (p.sha256 x)
  pub hmac_array : (k x : Bytes) → IsArray 32 (p.hmac k x)
  -- Diffie-Hellman: both sides compute the same shared secret
  pub agreement :
      (a b pa pb : Bytes)
      → p.x25519 a p.basepoint ≡ some pa
      → p.x25519 b p.basepoint ≡ some pb
      → p.x25519 a pb ≡ p.x25519 b pa
  pub verify_signed :
      (k x : Bytes) → p.ed25519_verify (p.ed25519_public k) x (p.ed25519_sign k x) ≡ true
  pub unseal_sealed : (m n k : Bytes) → All IsByte m → p.unseal (p.seal m n k) n k ≡ some m
  pub seal_bytes : (m n k : Bytes) → All IsByte m → All IsByte (p.seal m n k)
  -- secretbox.Overhead
  pub seal_length : (m n k : Bytes) → length (p.seal m n k) ≡ length m + 16
