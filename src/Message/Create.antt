-- ===== src/Message/Create.antt =====
-- internal/message/message.go: compression of payloads and the creation of messages.
-- compress/flate is a parameter; the clock and crypto/rand are arguments.
pub mod Authentic
pub mod Header
use iskra.Base.{
  ℕ, ◌+◌, ◌*◌, ◌^◌, ◌<◌, ◌≡◌, Bool, ◌&&◌, ◌||◌, not, ◌==◌, ltb, if◌then◌else◌, Option, some, none,
  ◌>>=◌, List, [], ◌∷◌, ◌++◌, length, take,
}
use iskra.Base.Bytes.{Bytes, zeros}
use iskra.Crypto.{Primitives}
use iskra.Crypto.Pow.{solve_pow}
use iskra.Crypto.Encrypt.{EncryptedPayload, encrypt, sign}
use iskra.Message.{
  Message, protocol_version, ttl_for_content_type, content_text, content_group_text, content_letter,
  content_channel_post,
}
use iskra.Message.Sign.{compute_id, signable_bytes}

-- identity.Keypair, without the seed
pub record Keypair : Type 0 where
  pub ed25519_pub : Bytes
  pub ed25519_private : Bytes
  pub x25519_pub : Bytes
  pub x25519_private : Bytes

pub record RecipientKeys : Type 0 where
  pub ed25519_pub : Bytes
  pub x25519_pub : Bytes

-- compress/flate: what a writer at best compression leaves in its buffer, `none` if it cannot be
-- made, and what io.ReadAll gets from a reader.
pub record Flate : Type 0 where
  pub deflate : Bytes → Option Bytes
  pub inflate : Bytes → Option Bytes

pub record FlateLaws (f : Flate) : Type 0 where
  pub inflate_deflated : (x y : Bytes) → f.deflate x ≡ some y → f.inflate y ≡ some x

abbrev comp_none : ℕ
comp_none = 0x00

abbrev comp_deflate : ℕ
comp_deflate = 0x01

-- Text, group text, letters and channel posts are compressed.
is_compressible : ℕ → Bool
is_compressible ct =
    ct == content_text
    || ct == content_group_text
    || ct == content_letter
    || ct == content_channel_post

smaller_of : Bytes → Option Bytes → Bytes
smaller_of plaintext none = comp_none ∷ plaintext
smaller_of plaintext (some compressed) =
    if ltb (length compressed) (length plaintext)
    then comp_deflate ∷ compressed
    else comp_none ∷ plaintext

-- compressPayload
unfoldable pub compress_payload : Flate → Bytes → ℕ → Bytes
unfolding is_compressible smaller_of
compress_payload f plaintext ct =
    if is_compressible ct then smaller_of plaintext (f.deflate plaintext) else comp_none ∷ plaintext

-- DecompressPayload
unfoldable pub decompress_payload : Flate → Bytes → Option Bytes
decompress_payload f [] = some []
decompress_payload f (tag ∷ rest) =
    if tag == comp_deflate
    then f.inflate rest
    else if tag == comp_none
    then some rest
    else some (tag ∷ rest)

-- The header of a new message; the fields that are computed later are zero.
blank : Keypair → ℕ → ℕ → Bytes → Message
blank author now ct recipient_id = record {
  version = protocol_version;
  id = zeros 32;
  recipient_id = recipient_id;
  ttl = ttl_for_content_type ct;
  timestamp = now;
  content_type = ct;
  ephemeral_pub = zeros 32;
  nonce = zeros 24;
  payload = [];
  author_pub = author.ed25519_pub;
  author_x25519 = author.x25519_pub;
  signature = zeros 64;
  pow_nonce = 0;
}

with_payload : Message → EncryptedPayload → Message
with_payload m e = record m {
  ephemeral_pub = e.ephemeral_pub;
  nonce = e.nonce;
  payload = e.ciphertext;
}

-- The last steps of each constructor: identifier, signature, proof of work of difficulty 16.
identified : Primitives → Message → Message
identified p m = record m { id = compute_id p m }

signed : Primitives → Keypair → Message → Message
signed p author m = record m { signature = sign p author.ed25519_private (signable_bytes m) }

seal_message : Primitives → ℕ → Keypair → Message → Option Message
seal_message p fuel author m = do
  let s = signed p author (identified p m)
  nonce ← solve_pow p fuel s.id s.timestamp 16
  some (record s { pow_nonce = nonce })

-- NewWithType
pub new_with_type :
    Primitives
    → Flate
    → ℕ
    → Option Bytes
    → Option Bytes
    → ℕ
    → Keypair
    → RecipientKeys
    → ℕ
    → Bytes
    → Option Message
unfolding blank with_payload seal_message
new_with_type p f fuel random_key random_nonce now author recipient ct plaintext = do
  encrypted ←
      encrypt p random_key random_nonce recipient.x25519_pub (compress_payload f plaintext ct)
  seal_message p fuel author
      (with_payload (blank author now ct (take 20 recipient.ed25519_pub)) encrypted)

-- NewBroadcast: no compression, zero keys for the recipient.
pub new_broadcast :
    Primitives → ℕ → Option Bytes → Option Bytes → ℕ → Keypair → ℕ → Bytes → Option Message
unfolding blank with_payload seal_message
new_broadcast p fuel random_key random_nonce now author ct plaintext = do
  encrypted ← encrypt p random_key random_nonce (zeros 32) plaintext
  seal_message p fuel author (with_payload (blank author now ct (zeros 20)) encrypted)

-- NewPlainBroadcast
pub new_plain_broadcast : Primitives → ℕ → ℕ → Keypair → ℕ → Bytes → Option Message
unfolding blank seal_message
new_plain_broadcast p fuel now author ct plaintext =
    seal_message p fuel author (record (blank author now ct (zeros 20)) { payload = plaintext })
