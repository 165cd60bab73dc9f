-- ===== src/Message/Examples.antt =====
-- internal/message: the theorems at concrete inputs.
use iskra.Base.{ℕ, ◌<◌, ◌^◌, ◌≡◌, ◌↔◌, refl, sym, true, some, ◌>>=◌, [], ◌∷◌, ◌++◌, arith}
use iskra.Base.Bytes.{zeros, zeros-IsArray}
use iskra.Crypto.Pow.{has_leading_zero_bits, verify_pow}
use iskra.Crypto.Encrypt.{decrypt}
use iskra.Crypto.Examples.{toy, toy-Laws}
use iskra.Message.{Message, IsTyped}
use iskra.Message.Wire.{ok, serialize, deserialize}
use iskra.Message.Wire.RoundTrip.{deserialize-serialize}
use iskra.Message.Wire.Parse.{HasRoom, deserialize_accepts}
use iskra.Message.Sign.{signable_bytes, is_for_recipient}
use iskra.Message.Sign.Covers.{SameSigned, signable_bytes_injective}
use iskra.Message.Create.{
  Keypair, RecipientKeys, Flate, FlateLaws, compress_payload, decompress_payload, new_with_type,
}
use iskra.Message.Create.Authentic.{Reachable, IsAuthentic, new_with_type-IsAuthentic}

abbrev pub sample : ℕ → ℕ → Message
sample version pow = record {
  version = version;
  id = zeros 32;
  recipient_id = zeros 20;
  ttl = 1296000;
  timestamp = 1700000000;
  content_type = 0;
  ephemeral_pub = zeros 32;
  nonce = zeros 24;
  payload = 1 ∷ 2 ∷ 3 ∷ [];
  author_pub = zeros 32;
  author_x25519 = zeros 32;
  signature = zeros 64;
  pow_nonce = pow;
}

pub sample-IsTyped : (v pow : ℕ) → v < 256 → pow < 2 ^ 64 → IsTyped (sample v pow)
sample-IsTyped v pow h hp = record {
  version_byte = h;
  id_array = zeros-IsArray 32;
  recipient_array = zeros-IsArray 20;
  ttl_word = omega arith;
  timestamp_word = omega arith;
  content_byte = omega arith;
  ephemeral_array = zeros-IsArray 32;
  nonce_array = zeros-IsArray 24;
  payload_bytes = omega arith;
  author_array = zeros-IsArray 32;
  x25519_array = zeros-IsArray 32;
  signature_array = zeros-IsArray 64;
  pow_word = hp;
}

deserialize-serialize_example : deserialize (serialize (sample 2 9) ++ (7 ∷ [])) ≡ ok (sample 2 9)
deserialize-serialize_example =
    deserialize-serialize (sample 2 9) (7 ∷ []) (sample-IsTyped 2 9 (omega arith) (omega arith))
      (omega arith) (omega arith)

deserialize_accepts_example :
    ((m : Message) × (deserialize (serialize (sample 2 9)) ≡ ok m))
    ↔ HasRoom (serialize (sample 2 9))
deserialize_accepts_example = deserialize_accepts (serialize (sample 2 9))

signable_bytes_example : SameSigned (sample 2 9) (sample 2 4)
signable_bytes_example =
    signable_bytes_injective (sample 2 9) (sample 2 4)
      (sample-IsTyped 2 9 (omega arith) (omega arith))
      (sample-IsTyped 2 4 (omega arith) (omega arith)) (unfold signable_bytes in refl)

-- A compressor that stores: it never saves space.
abbrev pub stored : Flate
stored = record { deflate = λ x. some x; inflate = λ x. some x }

pub stored-FlateLaws : FlateLaws stored
stored-FlateLaws = record { inflate_deflated = λ x y e. sym e }

abbrev pub author : Keypair
author = record {
  ed25519_pub = zeros 32;
  ed25519_private = zeros 64;
  x25519_pub = zeros 32;
  x25519_private = zeros 32;
}

abbrev friend : RecipientKeys
friend = record { ed25519_pub = zeros 32; x25519_pub = zeros 32 }

pub toy-Reachable : Reachable toy 1
unfolding verify_pow has_leading_zero_bits zeros
toy-Reachable id timestamp = (0, omega arith, omega arith, refl)

new_with_type_example :
    (m : Message) × (new_with_type toy stored 1
        (some (zeros 32))
        (some (zeros 24))
        100
        author
        friend
        0
        (5 ∷ [])
      ≡ some m)
    × IsAuthentic toy m
    × (is_for_recipient m (zeros 32) ≡ true)
    × ((decrypt toy
            (zeros 32)
            (record { ephemeral_pub = m.ephemeral_pub; nonce = m.nonce; ciphertext = m.payload })
          >>= decompress_payload stored)
        ≡ some (5 ∷ []))
new_with_type_example =
    new_with_type-IsAuthentic toy toy-Laws stored stored-FlateLaws 1 100 0 author friend (zeros 32)
      (zeros 32) (zeros 32) (zeros 32) (zeros 24) (5 ∷ []) refl refl refl refl
      (unfold compress_payload in omega arith) (unfold compress_payload in omega arith)
      toy-Reachable
