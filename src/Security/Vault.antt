-- ===== src/Security/Vault.antt =====
-- internal/security/vault.go: what is encrypted is decrypted.
use iskra.Base.{
  ◌≡◌, some, ◌>>=◌, ◌++◌, length, length-append, take, drop, take_exact, drop_exact, All, arith,
}
use iskra.Base.Bytes.{Bytes, IsByte}
use iskra.Crypto.{Primitives, Laws}
use iskra.Security.{encrypt_data, decrypt_data, encrypt_with_password}

pub opened :
    (p : Primitives) (laws : Laws p) (nonce text key : Bytes)
    → length nonce ≡ 24
    → All IsByte text
    → decrypt_data p (nonce ++ p.seal text nonce key) key ≡ some text
unfolding decrypt_data
opened p laws nonce text key hn ht =
    rw
      (
        decrypt_data,
        take_exact 24 nonce (p.seal text nonce key) hn,
        drop_exact 24 nonce (p.seal text nonce key) hn,
      )
      (ground (
        arith,
        length-append nonce (p.seal text nonce key),
        laws.seal_length text nonce key,
        laws.unseal_sealed text nonce key ht,
      ))

-- What the vault encrypts under a fresh nonce of 24 bytes it decrypts under the same key; what was
-- encrypted with a password opens, behind the 16 bytes of salt, with the key that Argon2 derives
-- from the password and that salt.
pub decrypt_data-encrypt_data :
    (p : Primitives) (laws : Laws p) (argon : Bytes → Bytes → Bytes)
    (salt nonce text key password : Bytes)
    → length salt ≡ 16
    → length nonce ≡ 24
    → All IsByte text
    → ((encrypt_data p (some nonce) text key >>= λ e. decrypt_data p e key) ≡ some text)
      × ((encrypt_with_password p argon (some salt) (some nonce) text password >>= λ e.
            decrypt_data p (drop 16 e) (argon password (take 16 e)))
          ≡ some text)
unfolding encrypt_data encrypt_with_password
decrypt_data-encrypt_data p laws argon salt nonce text key password hs hn ht = (
  opened p laws nonce text key hn ht,
  rw
      (
        take_exact 16 salt (nonce ++ p.seal text nonce (argon password salt)) hs,
        drop_exact 16 salt (nonce ++ p.seal text nonce (argon password salt)) hs,
      )
      (opened p laws nonce text (argon password salt) hn ht),
)
