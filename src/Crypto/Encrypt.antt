-- ===== src/Crypto/Encrypt.antt =====
-- internal/crypto/encrypt.go and sign.go.
pub mod Opens
use iskra.Base.{ℕ, ◌≡◌, Bool, Option, some, none, length, ◌>>=◌}
use iskra.Base.Bytes.{Bytes, codes}
use iskra.Crypto.{Primitives}
use iskra.Crypto.Stream.{obfuscation_stream, xor_bytes}

pub record EncryptedPayload : Type 0 where
  pub ephemeral_pub : Bytes
  pub nonce : Bytes
  pub ciphertext : Bytes

-- deriveKey
unfoldable pub derive_key : Primitives → Bytes → Bytes → Bytes
derive_key p secret info = p.hmac secret info

abbrev pub key_info : Bytes
key_info = codes "iskra-v1-message-key"

-- Encrypt. The two readings of crypto/rand are arguments, `none` where the reading fails. The
-- sender's private key is not used, in Go either.
unfoldable pub encrypt :
    Primitives → Option Bytes → Option Bytes → Bytes → Bytes → Option EncryptedPayload
encrypt p random_key random_nonce recipient_pub plaintext = do
  ephemeral ← random_key
  ephemeral_pub ← p.x25519 ephemeral p.basepoint
  secret ← p.x25519 ephemeral recipient_pub
  nonce ← random_nonce
  let box = p.seal plaintext nonce (derive_key p secret key_info)
  some (record {
    ephemeral_pub = ephemeral_pub;
    nonce = nonce;
    ciphertext = xor_bytes box (obfuscation_stream p secret nonce (length box));
  })

-- Decrypt
unfoldable pub decrypt : Primitives → Bytes → EncryptedPayload → Option Bytes
decrypt p private e = do
  secret ← p.x25519 private e.ephemeral_pub
  p.unseal (xor_bytes e.ciphertext (obfuscation_stream p secret e.nonce (length e.ciphertext)))
      e.nonce (derive_key p secret key_info)

-- Sign and Verify
unfoldable pub sign : Primitives → Bytes → Bytes → Bytes
sign p private text = p.ed25519_sign private text

unfoldable pub verify : Primitives → Bytes → Bytes → Bytes → Bool
verify p public text signature = p.ed25519_verify public text signature
