-- ===== src/Security.antt =====
-- internal/security/pin.go and vault.go: the PIN, the count of failed attempts and the vault. A file is
-- `none` while it does not exist. Argon2 is a parameter, as are the random bytes, `none` when
-- crypto/rand fails; ConstantTimeCompare is equality.
pub mod Pin
pub mod Vault
mod Examples
use iskra.Base.{
  ℕ, suc, ◌+◌, ◌%◌, ◌<◌, ◌≡◌, Bool, true, false, not, ◌||◌, ◌==◌, ltb, if◌then◌else◌, Option, some,
  none, List, [], ◌∷◌, ◌++◌, length, take, drop,
}
use iskra.Base.Bytes.{Bytes, codes, ◌=?◌}
use iskra.Crypto.{Primitives}

abbrev pub salt_size : ℕ
salt_size = 16

abbrev pub hash_size : ℕ
hash_size = 32

-- The files of a data directory.
pub record Files : Type 0 where
  pub pin : Option Bytes
  pub attempts : Option Bytes
  pub panic_pin : Option Bytes

-- A PIN file: the salt and the hash. `argon` is argon2.IDKey with the parameters of the code.
unfoldable pub pin_data : (Bytes → Bytes → Bytes) → Bytes → Bytes → Bytes
pin_data argon salt pin = salt ++ argon pin salt

unfoldable pub has_file : Option Bytes → Bool
has_file none = false
has_file (some data') = length data' == salt_size + hash_size

-- HasPIN, HasPanicPIN
unfoldable pub has_pin : Files → Bool
has_pin f = has_file f.pin

unfoldable pub has_panic_pin : Files → Bool
has_panic_pin f = has_file f.panic_pin

-- ResetAttempts
unfoldable pub reset_attempts : Files → Files
reset_attempts f = record f { attempts = none }

-- SetPIN: the attempts are reset before the file is written; the flag is false for an error.
unfoldable pub set_pin :
    (Bytes → Bytes → Bytes) → Option Bytes → Bool → Bytes → Files → Files × Bool
set_pin argon none writable pin f = (f, false)
set_pin argon (some salt) writable pin f =
    if writable
    then (record f { attempts = none; pin = some (pin_data argon salt pin) }, true)
    else (reset_attempts f, false)

-- SetPanicPIN
unfoldable pub set_panic_pin :
    (Bytes → Bytes → Bytes) → Option Bytes → Bool → Bytes → Files → Files × Bool
set_panic_pin argon none writable pin f = (f, false)
set_panic_pin argon (some salt) writable pin f =
    if writable then (record f { panic_pin = some (pin_data argon salt pin) }, true) else (f, false)

-- The check that VerifyPIN and VerifyPanicPIN share.
unfoldable pub matches : (Bytes → Bytes → Bytes) → Option Bytes → Bytes → Bool
matches argon none pin = false
matches argon (some data') pin =
    if not (length data' == salt_size + hash_size)
    then false
    else argon pin (take salt_size data') =? drop salt_size data'

-- VerifyPIN, VerifyPanicPIN
unfoldable pub verify_pin : (Bytes → Bytes → Bytes) → Bytes → Files → Bool
verify_pin argon pin f = matches argon f.pin pin

unfoldable pub verify_panic_pin : (Bytes → Bytes → Bytes) → Bytes → Files → Bool
verify_panic_pin argon pin f = matches argon f.panic_pin pin

-- GetAttempts
unfoldable pub first_byte : Option Bytes → ℕ
first_byte none = 0
first_byte (some []) = 0
first_byte (some (b ∷ bs)) = b

unfoldable pub get_attempts : Files → ℕ
get_attempts f = first_byte f.attempts

-- IncrementAttempts: the error of writing the file is ignored; `byte(count)` keeps eight bits.
unfoldable pub increment_attempts : Bool → Files → Files × ℕ
increment_attempts writable f =
    let count = get_attempts f + 1 in
    (if writable then record f { attempts = some (count % 256 ∷ []) } else f, count)

-- DeriveStorageKey
unfoldable pub derive_storage_key : Primitives → Bytes → Bytes → Bytes
derive_storage_key p seed pin = p.hmac seed (codes "iskra-storage-v1:" ++ pin)

-- EncryptData
unfoldable pub encrypt_data : Primitives → Option Bytes → Bytes → Bytes → Option Bytes
encrypt_data p none data' key = none
encrypt_data p (some nonce) data' key = some (nonce ++ p.seal data' nonce key)

-- DecryptData
unfoldable pub decrypt_data : Primitives → Bytes → Bytes → Option Bytes
decrypt_data p encrypted key =
    if ltb (length encrypted) (24 + 16)
    then none
    else p.unseal (drop 24 encrypted) (take 24 encrypted) key

-- EncryptWithPassword, given the salt and the nonce
unfoldable pub encrypt_with_password :
    Primitives
    → (Bytes → Bytes → Bytes)
    → Option Bytes
    → Option Bytes
    → Bytes
    → Bytes
    → Option Bytes
encrypt_with_password p argon none iv data' password = none
encrypt_with_password p argon (some salt) iv data' password =
    elim (encrypt_data p iv data' (argon password salt)) [
      | none ↦ none
      | some encrypted ↦ some (salt ++ encrypted)
    ]
