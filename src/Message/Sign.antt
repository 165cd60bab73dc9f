-- ===== src/Message/Sign.antt =====
-- internal/message/message.go: identifiers, signatures and proof of work of a message.
pub mod Covers
use iskra.Base.{ℕ, ◌≡◌, Bool, List, [], ◌∷◌, ◌++◌, length, take, if◌then◌else◌}
use iskra.Base.Bytes.{Bytes, ◌=?◌, zeros}
use iskra.Base.Endian.{put_be}
use iskra.Crypto.{Primitives}
use iskra.Crypto.Pow.{verify_pow}
use iskra.Crypto.Encrypt.{verify}
use iskra.Message.{Message}

-- The bytes that computeID hashes.
unfoldable pub id_bytes : Message → Bytes
id_bytes m =
    m.version
    ∷ (m.recipient_id
        ++ (put_be 4 m.ttl
            ++ (put_be 8 m.timestamp
                ++ (m.content_type
                    ∷ (m.ephemeral_pub
                        ++ (m.nonce ++ (m.payload ++ (m.author_pub ++ m.author_x25519))))))))

-- computeID
unfoldable pub compute_id : Primitives → Message → Bytes
compute_id p m = p.sha256 (id_bytes m)

-- signableBytes
unfoldable pub signable_bytes : Message → Bytes
signable_bytes m =
    m.version
    ∷ (m.id
        ++ (m.recipient_id
            ++ (put_be 4 m.ttl
                ++ (put_be 8 m.timestamp
                    ++ (m.content_type
                        ∷ (m.ephemeral_pub ++ (m.nonce ++ (m.payload ++ m.author_x25519))))))))

-- VerifySignature and VerifyPoW
unfoldable pub verify_signature : Primitives → Message → Bool
verify_signature p m = verify p m.author_pub (signable_bytes m) m.signature

unfoldable pub message_pow : Primitives → Message → ℕ → Bool
message_pow p m difficulty = verify_pow p m.id m.timestamp m.pow_nonce difficulty

-- IsForRecipient and IsBroadcast
unfoldable pub is_for_recipient : Message → Bytes → Bool
is_for_recipient m ed_pub = m.recipient_id =? take 20 ed_pub

unfoldable pub is_broadcast : Message → Bool
is_broadcast m = m.recipient_id =? zeros 20
