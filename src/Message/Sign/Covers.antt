-- ===== src/Message/Sign/Covers.antt =====
-- internal/message/message.go: what a signature and an identifier bind.
use iskra.Base.{ℕ, ◌≡◌, sym, ◌∙◌, ◌∷◌, ◌++◌, append_cancel, append_cancel_end}
use iskra.Base.Bytes.{Bytes, IsArray}
use iskra.Base.Endian.{put_be, put_be_injective, length-put_be}
use iskra.Message.{Message, IsTyped}
use iskra.Message.Sign.{signable_bytes}

-- Everything that the recipient reads from a message but the author's signing key, the signature and
-- the proof of work.
pub record SameSigned (m n : Message) : Type 0 where
  pub version : m.version ≡ n.version
  pub id : m.id ≡ n.id
  pub recipient_id : m.recipient_id ≡ n.recipient_id
  pub ttl : m.ttl ≡ n.ttl
  pub timestamp : m.timestamp ≡ n.timestamp
  pub content_type : m.content_type ≡ n.content_type
  pub ephemeral_pub : m.ephemeral_pub ≡ n.ephemeral_pub
  pub nonce : m.nonce ≡ n.nonce
  pub payload : m.payload ≡ n.payload
  pub author_x25519 : m.author_x25519 ≡ n.author_x25519

uncons : (x y : ℕ) (xs ys : Bytes) → x ∷ xs ≡ y ∷ ys → (x ≡ y) × (xs ≡ ys)
uncons x y xs ys h = (cc, cc)

arrays :
    (k : ℕ) (xs ys us vs : Bytes)
    → IsArray k xs
    → IsArray k us
    → xs ++ ys ≡ us ++ vs
    → (xs ≡ us) × (ys ≡ vs)
arrays k xs ys us vs h g = append_cancel xs ys us vs (h.0 ∙ sym g.0)

words :
    (k v w : ℕ) (ys vs : Bytes)
    → put_be k v ++ ys ≡ put_be k w ++ vs
    → (put_be k v ≡ put_be k w) × (ys ≡ vs)
words k v w ys vs = append_cancel _ ys _ vs (length-put_be k v ∙ sym (length-put_be k w))

-- Two messages with the same signable bytes agree in every signed field, the author's X25519 key
-- included, if the fields have their Go types: no field can be moved into the payload.
pub signable_bytes_injective :
    (m n : Message) → IsTyped m → IsTyped n → signable_bytes m ≡ signable_bytes n → SameSigned m n
unfolding signable_bytes
signable_bytes_injective m n tm tn e =
    let (version, e1) = uncons m.version n.version _ _ e in
    let (id, e2) = arrays 32 m.id _ n.id _ tm.id_array tn.id_array e1 in
    let (recipient_id, e3) =
      arrays 20 m.recipient_id _ n.recipient_id _ tm.recipient_array tn.recipient_array e2 in
    let (ttl, e4) = words 4 m.ttl n.ttl _ _ e3 in
    let (timestamp, e5) = words 8 m.timestamp n.timestamp _ _ e4 in
    let (content_type, e6) = uncons m.content_type n.content_type _ _ e5 in
    let (ephemeral_pub, e7) =
      arrays 32 m.ephemeral_pub _ n.ephemeral_pub _ tm.ephemeral_array tn.ephemeral_array e6 in
    let (nonce, e8) = arrays 24 m.nonce _ n.nonce _ tm.nonce_array tn.nonce_array e7 in
    let (payload, x25519) =
      append_cancel_end m.payload _ n.payload _ (tm.x25519_array.0 ∙ sym tn.x25519_array.0) e8 in
    record {
      version = version;
      id = id;
      recipient_id = recipient_id;
      ttl = put_be_injective 4 _ _ tm.ttl_word tn.ttl_word ttl;
      timestamp = put_be_injective 8 _ _ tm.timestamp_word tn.timestamp_word timestamp;
      content_type = content_type;
      ephemeral_pub = ephemeral_pub;
      nonce = nonce;
      payload = payload;
      author_x25519 = x25519;
    }
