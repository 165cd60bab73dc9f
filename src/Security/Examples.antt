-- ===== src/Security/Examples.antt =====
-- internal/security: the theorems at concrete inputs. The hash keeps the length of the PIN.
use iskra.Base.{◌≡◌, refl, true, some, none, [], ◌∷◌, length, arith}
use iskra.Base.Bytes.{Bytes, zeros, zeros-IsArray, ◌=?◌}
use iskra.Security.{Files, first_byte, get_attempts, set_pin, verify_pin, verify_panic_pin}
use iskra.Security.Pin.{verify_pin-set_pin}

abbrev hash : Bytes → Bytes → Bytes
hash pin salt = length pin ∷ zeros 31

abbrev files : Files
files = record { pin = none; attempts = some (4 ∷ []); panic_pin = none }

four : get_attempts files ≡ 4
unfolding get_attempts first_byte
four = refl

pin_example :
    (verify_pin hash (7 ∷ []) (set_pin hash (some (zeros 16)) true (1 ∷ 2 ∷ []) files).0
      ≡ (1 ∷ zeros 31 =? 2 ∷ zeros 31))
    × (get_attempts (set_pin hash (some (zeros 16)) true (1 ∷ 2 ∷ []) files).0 ≡ 0)
    × (verify_panic_pin hash (7 ∷ []) (set_pin hash (some (zeros 16)) true (1 ∷ 2 ∷ []) files).0
        ≡ verify_panic_pin hash (7 ∷ []) files)
pin_example =
    verify_pin-set_pin hash (zeros 16) (1 ∷ 2 ∷ []) (7 ∷ []) files (zeros-IsArray 16).0
      (λ x y. omega (arith, (zeros-IsArray 31).0))
