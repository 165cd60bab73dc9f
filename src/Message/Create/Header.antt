-- ===== src/Message/Create/Header.antt =====
-- internal/message/message.go: the header of a message that NewWithType returns.
use iskra.Base.{ℕ, ◌≡◌, refl, subst, Option, some, some-injective, >>=-eq-some, take}
use iskra.Base.Bytes.{Bytes}
use iskra.Crypto.{Primitives}
use iskra.Crypto.Pow.{solve_pow}
use iskra.Crypto.Encrypt.{encrypt}
use iskra.Message.{Message, protocol_version, ttl_for_content_type}
use iskra.Message.Create.{
  Keypair, RecipientKeys, Flate, compress_payload, blank, with_payload, identified, signed,
  seal_message, new_with_type,
}

-- What the author, the recipient and the time put into the header.
pub record HasHeader (author : Keypair) (to : RecipientKeys) (ct now : ℕ) (m : Message)
    : Type 0 where
  pub version : m.version ≡ protocol_version
  pub recipient_id : m.recipient_id ≡ take 20 to.ed25519_pub
  pub ttl : m.ttl ≡ ttl_for_content_type ct
  pub timestamp : m.timestamp ≡ now
  pub content_type : m.content_type ≡ ct
  pub author_pub : m.author_pub ≡ author.ed25519_pub
  pub author_x25519 : m.author_x25519 ≡ author.x25519_pub

HasHeader-of :
    (author : Keypair) (to : RecipientKeys) (ct now : ℕ) (m n : Message)
    → some m ≡ some n
    → HasHeader author to ct now m
    → HasHeader author to ct now n
HasHeader-of author to ct now m n e h = subst (HasHeader author to ct now) (some-injective m n e) h

-- The last steps keep the header.
seal_message-HasHeader :
    (p : Primitives) (fuel : ℕ) (author : Keypair) (to : RecipientKeys) (ct now : ℕ)
    (draft m : Message)
    → seal_message p fuel author draft ≡ some m
    → HasHeader author to ct now draft
    → HasHeader author to ct now m
unfolding seal_message signed identified
seal_message-HasHeader p fuel author to ct now draft m e h =
    let (nonce, _, done) =
      >>=-eq-some (solve_pow p fuel (signed p author (identified p draft)).id draft.timestamp 16)
        (λ n. some (record (signed p author (identified p draft)) { pow_nonce = n })) e in
    HasHeader-of author to ct now
      (record (signed p author (identified p draft)) { pow_nonce = nonce }) m done
      (record {
        version = h.version;
        recipient_id = h.recipient_id;
        ttl = h.ttl;
        timestamp = h.timestamp;
        content_type = h.content_type;
        author_pub = h.author_pub;
        author_x25519 = h.author_x25519;
      })

-- Whatever was drawn and found, a message that NewWithType returns has the author's keys, the content
-- type, the lifetime and the time that it was called with, and is addressed to the recipient.
pub new_with_type-HasHeader :
    (p : Primitives) (f : Flate) (fuel now ct : ℕ) (key iv : Option Bytes) (author : Keypair)
    (to : RecipientKeys) (plaintext : Bytes) (m : Message)
    → new_with_type p f fuel key iv now author to ct plaintext ≡ some m
    → HasHeader author to ct now m
unfolding new_with_type blank with_payload
new_with_type-HasHeader p f fuel now ct key iv author to plaintext m e =
    let (enc, _, sealed) =
      >>=-eq-some (encrypt p key iv to.x25519_pub (compress_payload f plaintext ct))
        (λ enc.
          seal_message p fuel author
            (with_payload (blank author now ct (take 20 to.ed25519_pub)) enc))
        e in
    seal_message-HasHeader p fuel author to ct now
      (with_payload (blank author now ct (take 20 to.ed25519_pub)) enc) m sealed
      (record {
        version = refl;
        recipient_id = refl;
        ttl = refl;
        timestamp = refl;
        content_type = refl;
        author_pub = refl;
        author_x25519 = refl;
      })
