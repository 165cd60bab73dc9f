-- ===== src/Security/Pin.antt =====
-- internal/security/pin.go: which PIN is accepted, and what the counter counts.
use iskra.Base.{
  ℕ, zero, suc, ◌+◌, ◌%◌, ◌<◌, ◌≡◌, refl, true, some, length, length-append, take_exact, drop_exact,
  arith,
}
use iskra.Base.Bytes.{Bytes, ◌=?◌}
use iskra.Security.{
  Files, first_byte, pin_data, set_pin, matches, verify_pin, verify_panic_pin, get_attempts,
  increment_attempts,
}

matches-pin_data :
    (argon : Bytes → Bytes → Bytes) (salt pin try' : Bytes)
    → length salt ≡ 16
    → ((x y : Bytes) → length (argon x y) ≡ 32)
    → matches argon (some (pin_data argon salt pin)) try' ≡ (argon try' salt =? argon pin salt)
unfolding matches pin_data
matches-pin_data argon salt pin try' hs hh =
    rw
      (
        matches,
        pin_data,
        take_exact 16 salt (argon pin salt) hs,
        drop_exact 16 salt (argon pin salt) hs,
      )
      (ground (arith, length-append salt (argon pin salt), hs, hh pin salt))

-- After a PIN was set, another is accepted exactly if its hash under the same salt is the same; the
-- failed attempts are forgotten, and the panic PIN is as it was. The salt has 16 bytes and
-- Argon2 is asked for 32.
pub verify_pin-set_pin :
    (argon : Bytes → Bytes → Bytes) (salt pin try' : Bytes) (f : Files)
    → length salt ≡ 16
    → ((x y : Bytes) → length (argon x y) ≡ 32)
    → (verify_pin argon try' (set_pin argon (some salt) true pin f).0
        ≡ (argon try' salt =? argon pin salt))
      × (get_attempts (set_pin argon (some salt) true pin f).0 ≡ 0)
      × (verify_panic_pin argon try' (set_pin argon (some salt) true pin f).0
          ≡ verify_panic_pin argon try' f)
unfolding verify_pin verify_panic_pin set_pin get_attempts first_byte
verify_pin-set_pin argon salt pin try' f hs hh =
    (matches-pin_data argon salt pin try' hs hh, refl, refl)

-- `n` failed attempts in a row, where the file can be written.
pub fail : ℕ → Files → Files
fail zero f = f
fail (suc n) f = (increment_attempts true (fail n f)).0

-- The counter is a byte: after `n` failed attempts it stands at the old count and `n`, modulo 256,
-- where its file can be written.
pub get_attempts-fail :
    (n : ℕ) (f : Files)
    → get_attempts f < 256
    → get_attempts (fail n f) ≡ (get_attempts f + n) % 256
unfolding fail get_attempts increment_attempts first_byte
get_attempts-fail zero f h = omega arith
get_attempts-fail (suc n) f h = omega (arith, get_attempts-fail n f h)
