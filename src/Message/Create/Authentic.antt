-- ===== src/Message/Create/Authentic.antt =====
-- internal/message/message.go: a created message passes the checks of every node, and opens.
use iskra.Base.{
  ℕ, ◌+◌, ◌<◌, ◌^◌, ◌≡◌, refl, true, Option, some, none, ◌>>=◌, length, take, All, arith,
}
use iskra.Base.Bytes.{Bytes, IsByte, zeros, =?_refl}
use iskra.Crypto.{Primitives, Laws}
use iskra.Crypto.Pow.{verify_pow}
use iskra.Crypto.Pow.Search.{solve_pow-verify_pow}
use iskra.Crypto.Encrypt.{decrypt, sign, verify}
use iskra.Crypto.Encrypt.Opens.{decrypt-encrypt}
use iskra.Message.{Message}
use iskra.Message.Sign.{
  compute_id, id_bytes, signable_bytes, verify_signature, message_pow, is_for_recipient,
}
use iskra.Message.Create.{
  Keypair, RecipientKeys, Flate, FlateLaws, compress_payload, decompress_payload, smaller_of, blank,
  with_payload, identified, signed, seal_message, new_with_type, new_plain_broadcast,
}

-- Decompressing a compressed payload returns the plaintext, for every content type.
pub decompress_payload-compress_payload :
    (f : Flate) (laws : FlateLaws f) (plaintext : Bytes) (ct : ℕ)
    → decompress_payload f (compress_payload f plaintext ct) ≡ some plaintext
unfolding decompress_payload compress_payload
decompress_payload-compress_payload f laws plaintext ct =
    ground (arith, kept (f.deflate plaintext) refl)
  where
    kept :
        (o : Option Bytes)
        → f.deflate plaintext ≡ o
        → decompress_payload f (smaller_of plaintext o) ≡ some plaintext
    kept none e = refl
    kept (some y) e = ground (arith, laws.inflate_deflated plaintext y e)

-- Every identifier and time has a nonce that the search reaches.
abbrev pub Reachable : Primitives → ℕ → Type 0
Reachable p fuel =
    (id : Bytes) (timestamp : ℕ)
    → (k : ℕ) × (k < 2 ^ 64) × (k < fuel) × (verify_pow p id timestamp k 16 ≡ true)

-- What a node checks of a message: the identifier, the signature and the proof of work.
pub record IsAuthentic (p : Primitives) (m : Message) : Type 0 where
  pub identified : m.id ≡ compute_id p m
  pub signed : verify_signature p m ≡ true
  pub worked : message_pow p m 16 ≡ true

-- `m` with the fields that are computed last.
abbrev final : Primitives → Keypair → Message → ℕ → Message
final p author m nonce = record (signed p author (identified p m)) { pow_nonce = nonce }

final-signed :
    (p : Primitives) (laws : Laws p) (author : Keypair) (m : Message) (nonce : ℕ)
    → p.ed25519_public author.ed25519_private ≡ author.ed25519_pub
    → m.author_pub ≡ author.ed25519_pub
    → verify_signature p (final p author m nonce) ≡ true
unfolding signed identified verify_signature verify sign signable_bytes
final-signed p laws author m nonce key owner =
    rw (owner, ← key) (laws.verify_signed author.ed25519_private _)

final-identified :
    (p : Primitives) (author : Keypair) (m : Message) (nonce : ℕ)
    → (final p author m nonce).id ≡ compute_id p (final p author m nonce)
unfolding signed identified compute_id id_bytes
final-identified p author m nonce = refl

seal_message-IsAuthentic :
    (p : Primitives) (laws : Laws p) (fuel : ℕ) (author : Keypair) (m : Message)
    → p.ed25519_public author.ed25519_private ≡ author.ed25519_pub
    → m.author_pub ≡ author.ed25519_pub
    → Reachable p fuel
    → (nonce : ℕ) × (seal_message p fuel author m ≡ some (final p author m nonce))
      × IsAuthentic p (final p author m nonce)
unfolding seal_message signed identified
seal_message-IsAuthentic p laws fuel author m key owner reach =
    let (k, w, hi, good) = reach (compute_id p m) m.timestamp in
    let (n, r, le, passes, least) =
      solve_pow-verify_pow p (compute_id p m) m.timestamp 16 fuel k w hi good in
    (
      n,
      rw r,
      record {
        identified = final-identified p author m n;
        signed = final-signed p laws author m n key owner;
        worked = unfold message_pow in passes;
      },
    )

module _ (p : Primitives) (laws : Laws p) (f : Flate) (flate_laws : FlateLaws f) where
  -- A message made by NewWithType for a recipient has the identifier of its content, a signature
  -- that verifies and a proof of work of difficulty 16, is addressed to the recipient, and its payload
  -- decrypts and decompresses to the plaintext. The author's keys must belong together, the random
  -- bytes must be there, X25519 must accept the keys, the compressed payload must be shorter than
  -- 2 ^ 32 - 16 bytes, and some nonce within the fuel must pass.
  pub new_with_type-IsAuthentic :
      (fuel now ct : ℕ) (author : Keypair) (to : RecipientKeys)
      (private ephemeral ephemeral_pub secret nonce plaintext : Bytes)
      → p.ed25519_public author.ed25519_private ≡ author.ed25519_pub
      → p.x25519 private p.basepoint ≡ some to.x25519_pub
      → p.x25519 ephemeral p.basepoint ≡ some ephemeral_pub
      → p.x25519 ephemeral to.x25519_pub ≡ some secret
      → All IsByte (compress_payload f plaintext ct)
      → length (compress_payload f plaintext ct) + 16 < 2 ^ 32
      → Reachable p fuel
      → (m : Message) × (new_with_type p f fuel
            (some ephemeral)
            (some nonce)
            now
            author
            to
            ct
            plaintext
          ≡ some m)
        × IsAuthentic p m
        × (is_for_recipient m to.ed25519_pub ≡ true)
        × ((decrypt p private (record {
          ephemeral_pub = m.ephemeral_pub;
          nonce = m.nonce;
          ciphertext = m.payload;
        })
              >>= decompress_payload f)
            ≡ some plaintext)
  new_with_type-IsAuthentic fuel now ct author to private ephemeral ephemeral_pub secret nonce
        plaintext key hp he hs bytes fits reach =
      let (e, sent, opened) =
        decrypt-encrypt p laws private to.x25519_pub ephemeral ephemeral_pub secret nonce
          (compress_payload f plaintext ct) hp he hs bytes fits in
      let draft : Message = with_payload (blank author now ct (take 20 to.ed25519_pub)) e in
      let (n, r, authentic) =
        seal_message-IsAuthentic p laws fuel author draft key (unfold blank with_payload in refl)
          reach in
      (
        final p author draft n,
        unfold new_with_type in rw sent r,
        authentic,
        unfold is_for_recipient signed identified blank with_payload in
            =?_refl (take 20 to.ed25519_pub),
        unfold signed identified blank with_payload in
            rw opened (decompress_payload-compress_payload f flate_laws plaintext ct),
      )

-- What a plain broadcast brings to every node.
pub record IsPlainBroadcast (author : Keypair) (ct now : ℕ) (plaintext : Bytes) (m : Message)
    : Type 0 where
  pub recipient_id : m.recipient_id ≡ zeros 20
  pub content_type : m.content_type ≡ ct
  pub timestamp : m.timestamp ≡ now
  pub payload : m.payload ≡ plaintext
  pub author_pub : m.author_pub ≡ author.ed25519_pub

-- NewPlainBroadcast returns a message to all that has the plaintext as its payload and passes the
-- checks of a node. The author's keys must belong together and some nonce within the fuel must pass.
pub new_plain_broadcast-IsAuthentic :
    (p : Primitives) (laws : Laws p) (fuel now ct : ℕ) (author : Keypair) (plaintext : Bytes)
    → p.ed25519_public author.ed25519_private ≡ author.ed25519_pub
    → Reachable p fuel
    → (m : Message) × (new_plain_broadcast p fuel now author ct plaintext ≡ some m)
      × IsAuthentic p m
      × IsPlainBroadcast author ct now plaintext m
unfolding new_plain_broadcast blank signed identified
new_plain_broadcast-IsAuthentic p laws fuel now ct author plaintext key reach =
    let draft : Message = record (blank author now ct (zeros 20)) { payload = plaintext } in
    let (n, r, authentic) = seal_message-IsAuthentic p laws fuel author draft key refl reach in
    (
      final p author draft n,
      r,
      authentic,
      record {
        recipient_id = refl;
        content_type = refl;
        timestamp = refl;
        payload = refl;
        author_pub = refl;
      },
    )
