-- ===== src/Crypto/Encrypt/Opens.antt =====
-- internal/crypto/encrypt.go: the recipient decrypts what was encrypted for him.
use Prim.Native.Nat.{bit_xor}
use iskra.Base.{
  ℕ, zero, suc, ◌+◌, ◌<◌, ◌^◌, ◌≡◌, refl, ap, ap₂, ◌∙◌, Bool, true, ◌&&◌, ◌==◌, some, length, arith,
  [], ◌∷◌, All,
}
use iskra.Base.Bytes.{Bytes, IsByte}
use iskra.Crypto.{Primitives, Laws}
use iskra.Crypto.Stream.{obfuscation_stream, xor_bytes}
use iskra.Crypto.Stream.Blocks.{obfuscation_stream-IsArray}
use iskra.Crypto.Encrypt.{EncryptedPayload, derive_key, key_info, encrypt, decrypt}

-- XOR with one byte twice, checked on all pairs of bytes.
row : ℕ → ℕ → Bool
row y zero = true
row y (suc x) = bit_xor (bit_xor x y) y == x && row y x

rows : ℕ → ℕ → Bool
rows w zero = true
rows w (suc y) = row y w && rows w y

row_at : (y n x : ℕ) → row y n ≡ true → x < n → bit_xor (bit_xor x y) y ≡ x
unfolding row
row_at y zero x e h = absurd (omega arith)
row_at y (suc n) x e h = ground (arith, row_at y n x)

rows_at : (w n y : ℕ) → rows w n ≡ true → y < n → row y w ≡ true
unfolding rows
rows_at w zero y e h = absurd (omega arith)
rows_at w (suc n) y e h = ground (arith, rows_at w n y)

rows_table : rows 256 256 ≡ true
unfolding rows row
rows_table = refl

xor_twice : (x y : ℕ) → IsByte x → IsByte y → bit_xor (bit_xor x y) y ≡ x
xor_twice x y hx hy = row_at y 256 x (rows_at 256 256 y rows_table hy) hx

pub length-xor_bytes :
    (xs ys : Bytes) → length ys ≡ length xs → length (xor_bytes xs ys) ≡ length xs
unfolding xor_bytes
length-xor_bytes [] ys h = refl
length-xor_bytes (x ∷ xs) [] h = absurd (omega arith)
length-xor_bytes (x ∷ xs) (y ∷ ys) h = ap suc (length-xor_bytes xs ys (omega arith))

-- XOR with one keystream twice gives the bytes back.
pub xor_bytes_twice :
    (xs ys : Bytes)
    → All IsByte xs
    → All IsByte ys
    → length ys ≡ length xs
    → xor_bytes (xor_bytes xs ys) ys ≡ xs
unfolding xor_bytes
xor_bytes_twice [] ys hx hy h = refl
xor_bytes_twice (x ∷ xs) [] hx hy h = absurd (omega arith)
xor_bytes_twice (x ∷ xs) (y ∷ ys) (px, hx) (py, hy) h =
    ap₂ (λ t u. t ∷ u) (xor_twice x y px py) (xor_bytes_twice xs ys hx hy (omega arith))

module _ (p : Primitives) (laws : Laws p) where
  unmask :
      (secret nonce box : Bytes)
      → All IsByte box
      → length box < 2 ^ 32
      → let masked = xor_bytes box (obfuscation_stream p secret nonce (length box)) in
        xor_bytes masked (obfuscation_stream p secret nonce (length masked)) ≡ box
  unmask secret nonce box hb h =
      let (l, bytes) = obfuscation_stream-IsArray p laws secret nonce (length box) h in
      rw (length-xor_bytes box _ l) (xor_bytes_twice box _ hb bytes l)

  -- Encrypt followed by Decrypt with the recipient's private key returns the plaintext. The random
  -- bytes must be there, X25519 must accept the ephemeral key and both key agreements, and the
  -- plaintext must be shorter than 2 ^ 32 - 16 bytes.
  pub decrypt-encrypt :
      (private public ephemeral ephemeral_pub secret nonce text : Bytes)
      → p.x25519 private p.basepoint ≡ some public
      → p.x25519 ephemeral p.basepoint ≡ some ephemeral_pub
      → p.x25519 ephemeral public ≡ some secret
      → All IsByte text
      → length text + 16 < 2 ^ 32
      → (e : EncryptedPayload) × (encrypt p (some ephemeral) (some nonce) public text ≡ some e)
        × (decrypt p private e ≡ some text)
  unfolding encrypt decrypt
  decrypt-encrypt private public ephemeral ephemeral_pub secret nonce text hp he hs ht fits =
      (sent, rw (he, hs), rw shared (rw clear (laws.unseal_sealed text nonce key ht)))
    where
      key : Bytes
      key = derive_key p secret key_info

      sent : EncryptedPayload
      sent = record {
        ephemeral_pub = ephemeral_pub;
        nonce = nonce;
        ciphertext =
            xor_bytes (p.seal text nonce key)
              (obfuscation_stream p secret nonce (length (p.seal text nonce key)));
      }

      shared : p.x25519 private ephemeral_pub ≡ some secret
      shared = laws.agreement private ephemeral public ephemeral_pub hp he ∙ hs

      clear :
          let masked =
            xor_bytes
              (p.seal text nonce key)
              (obfuscation_stream p secret nonce (length (p.seal text nonce key))) in
          xor_bytes masked (obfuscation_stream p secret nonce (length masked))
          ≡ p.seal text nonce key
      clear =
          unmask secret nonce (p.seal text nonce key) (laws.seal_bytes text nonce key ht)
            (omega (arith, laws.seal_length text nonce key))
