-- ===== src/Crypto/Examples.antt =====
-- internal/crypto: the theorems at concrete inputs. `toy` is a model of the primitives that meets
-- their laws; it hides nothing.
use iskra.Base.{
  ℕ, ◌-◌, ◌*◌, ◌≤◌, ◌<◌, ◌^◌, ◌≡◌, ◌↔◌, refl, ap, true, false, some, [], ◌∷◌, ◌++◌, length,
  length-append, take, take_exact, All-append, arith,
}
use iskra.Base.Bytes.{Bytes, IsByte, zeros, zeros-IsArray}
use iskra.Base.Endian.{get_be}
use iskra.Crypto.{Primitives, Laws}
use iskra.Crypto.Pow.{has_leading_zero_bits, verify_pow, solve_pow}
use iskra.Crypto.Pow.Target.{has_leading_zero_bits-Below}
use iskra.Crypto.Pow.Search.{solve_pow-verify_pow}
use iskra.Crypto.Encrypt.{EncryptedPayload, encrypt, decrypt}
use iskra.Crypto.Encrypt.Opens.{decrypt-encrypt}

abbrev pub toy : Primitives
toy = record {
  sha256 = λ x. zeros 32;
  hmac = λ k x. zeros 32;
  x25519 = λ a b. some (zeros 32);
  basepoint = zeros 32;
  ed25519_sign = λ k x. zeros 64;
  ed25519_verify = λ k x s. true;
  ed25519_public = λ k. zeros 32;
  seal = λ m n k. m ++ zeros 16;
  unseal = λ b n k. some (take (length b - 16) b);
}

cut_tail : (m : Bytes) → take (length (m ++ zeros 16) - 16) (m ++ zeros 16) ≡ m
cut_tail m =
    take_exact _ m (zeros 16) (omega (arith, length-append m (zeros 16), (zeros-IsArray 16).0))

pub toy-Laws : Laws toy
toy-Laws = record {
  sha256_array = λ x. zeros-IsArray 32;
  hmac_array = λ k x. zeros-IsArray 32;
  agreement = λ a b pa pb ha hb. refl;
  verify_signed = λ k x. refl;
  unseal_sealed = λ m n k h. ap some (cut_tail m);
  seal_bytes = λ m n k h. All-append IsByte m (zeros 16) h (zeros-IsArray 16).1;
  seal_length = λ m n k. omega (arith, length-append m (zeros 16), (zeros-IsArray 16).0);
}

has_leading_zero_bits_example :
    (has_leading_zero_bits (0 ∷ 0x1f ∷ 7 ∷ []) 11 ≡ true)
    ↔ (get_be (0 ∷ 0x1f ∷ 7 ∷ []) * 2 ^ 11 < 256 ^ 3)
has_leading_zero_bits_example =
    has_leading_zero_bits-Below (0 ∷ 0x1f ∷ 7 ∷ []) 11 (omega arith) (omega arith)

toy_passes : verify_pow toy (zeros 32) 5 0 16 ≡ true
unfolding verify_pow has_leading_zero_bits zeros
toy_passes = refl

solve_pow_example :
    (n : ℕ) × (solve_pow toy 1 (zeros 32) 5 16 ≡ some n)
    × (n ≤ 0)
    × (verify_pow toy (zeros 32) 5 n 16 ≡ true)
    × ((i : ℕ) → i < n → verify_pow toy (zeros 32) 5 i 16 ≡ false)
solve_pow_example =
    solve_pow-verify_pow toy (zeros 32) 5 16 1 0 (omega arith) (omega arith) toy_passes

decrypt-encrypt_example :
    (e : EncryptedPayload) × (encrypt toy
        (some (zeros 32))
        (some (zeros 24))
        (zeros 32)
        (1 ∷ 2 ∷ [])
      ≡ some e)
    × (decrypt toy (zeros 32) e ≡ some (1 ∷ 2 ∷ []))
decrypt-encrypt_example =
    decrypt-encrypt toy toy-Laws (zeros 32) (zeros 32) (zeros 32) (zeros 32) (zeros 32) (zeros 24)
      (1 ∷ 2 ∷ []) refl refl refl (omega arith) (omega arith)
