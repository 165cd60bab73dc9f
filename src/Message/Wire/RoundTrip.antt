-- ===== src/Message/Wire/RoundTrip.antt =====
-- internal/message/serialize.go: what is written is read back.
use iskra.Base.{ℕ, ◌+◌, ◌≤◌, ◌<◌, ◌≡◌, refl, ap, ◌∙◌, leb, if◌then◌else◌, arith}
use iskra.Base.{
  [], ◌∷◌, ◌++◌, All, All-append, Bool-cases, inl, inr, length, take, drop, take_exact, drop_exact,
  length-append, append_assoc,
}
use iskra.Base.Bytes.{Bytes, zeros, IsByte}
use iskra.Base.Endian.{put_be, put_be-IsByte, get_be-put_be, length-put_be}
use iskra.Message.{Message, IsTyped}
use iskra.Message.Wire.{
  ok, max_payload_len, trailer, serialize, read_body, after_nonce, header_fields, read_header,
  deserialize,
}

-- `serialize m` with other bytes behind the proof of work.
body : Message → Bytes → Bytes
body m t = m.payload ++ (m.author_pub ++ (m.signature ++ (put_be 8 m.pow_nonce ++ t)))

wire : Message → Bytes → Bytes
unfolding body
wire m t =
    m.version
    ∷ (m.id
        ++ (m.recipient_id
            ++ (put_be 4 m.ttl
                ++ (put_be 8 m.timestamp
                    ++ (m.content_type
                        ∷ (m.ephemeral_pub
                            ++ (m.nonce ++ (put_be 4 (length m.payload) ++ body m t))))))))

serialize-append :
    (m : Message) (extra : Bytes) → serialize m ++ extra ≡ wire m (trailer m ++ extra)
unfolding serialize wire
serialize-append m extra = simp append_assoc

drop_one : (x : ℕ) (xs : Bytes) → drop 1 (x ∷ xs) ≡ xs
unfolding drop
drop_one x xs = refl

length-body :
    (m : Message) (t : Bytes) → IsTyped m → length (body m t) ≡ length m.payload + 104 + length t
unfolding body
length-body m t h = simp length-append (omega (arith, length-put_be 8 m.pow_nonce))

length-wire :
    (m : Message) (t : Bytes) → IsTyped m → length (wire m t) ≡ length m.payload + 230 + length t
unfolding wire
length-wire m t h = simp length-append (
    omega (
      arith,
      length-put_be 4 m.ttl,
      length-put_be 8 m.timestamp,
      length-put_be 4 (length m.payload),
      length-put_be 8 m.pow_nonce,
    ))

length-trailer : (m : Message) → IsTyped m → length (trailer m) ≤ 32
unfolding trailer
length-trailer m h = ground (arith, h.x25519_array.0)

pub serialize_long : (m : Message) → IsTyped m → 230 ≤ length (serialize m)
serialize_long m h = omega (
  arith,
  ap length (serialize-append m []),
  length-append (serialize m) [],
  length-wire m (trailer m ++ []) h,
  length-append (trailer m) [],
)

pub length-serialize : (m : Message) → IsTyped m → length (serialize m) ≤ length m.payload + 262
length-serialize m h = omega (
  arith,
  ap length (serialize-append m []),
  length-append (serialize m) [],
  length-wire m (trailer m ++ []) h,
  length-append (trailer m) [],
  length-trailer m h,
)

read_body_lem :
    (m z : Message) (t : Bytes)
    → IsTyped m
    → read_body z (length m.payload) (body m t) ≡ record z {
      payload = m.payload;
      author_pub = m.author_pub;
      signature = m.signature;
      pow_nonce = m.pow_nonce;
      author_x25519 = if leb 32 (length t) then take 32 t else zeros 32;
    }
unfolding read_body body
read_body_lem m z t h = simp (
  take_exact (length m.payload) m.payload _ refl,
  drop_exact (length m.payload) m.payload _ refl,
  take_exact 32 m.author_pub _ h.author_array.0,
  drop_exact 32 m.author_pub _ h.author_array.0,
  take_exact 64 m.signature _ h.signature_array.0,
  drop_exact 64 m.signature _ h.signature_array.0,
  take_exact 8 (put_be 8 m.pow_nonce) _ (length-put_be 8 m.pow_nonce),
  drop_exact 8 (put_be 8 m.pow_nonce) _ (length-put_be 8 m.pow_nonce),
  get_be-put_be 8 m.pow_nonce h.pow_word,
)

-- The extension is read if there are 32 bytes left for it.
abbrev extension : Bytes → Bytes
extension t = if leb 32 (length t) then take 32 t else zeros 32

read_header-wire :
    (m : Message) (t : Bytes)
    → IsTyped m
    → length m.payload ≤ max_payload_len
    → read_header (wire m t) ≡ ok (record m { author_x25519 = extension t })
unfolding read_header after_nonce header_fields wire
read_header-wire m t h fits =
    simp
      (
        drop_one,
        take_exact 32 m.id _ h.id_array.0,
        drop_exact 32 m.id _ h.id_array.0,
        take_exact 20 m.recipient_id _ h.recipient_array.0,
        drop_exact 20 m.recipient_id _ h.recipient_array.0,
        take_exact 4 (put_be 4 m.ttl) _ (length-put_be 4 m.ttl),
        drop_exact 4 (put_be 4 m.ttl) _ (length-put_be 4 m.ttl),
        take_exact 8 (put_be 8 m.timestamp) _ (length-put_be 8 m.timestamp),
        drop_exact 8 (put_be 8 m.timestamp) _ (length-put_be 8 m.timestamp),
        take_exact 32 m.ephemeral_pub _ h.ephemeral_array.0,
        drop_exact 32 m.ephemeral_pub _ h.ephemeral_array.0,
        take_exact 24 m.nonce _ h.nonce_array.0,
        drop_exact 24 m.nonce _ h.nonce_array.0,
        take_exact 4 (put_be 4 (length m.payload)) _ (length-put_be 4 _),
        drop_exact 4 (put_be 4 (length m.payload)) _ (length-put_be 4 _),
        get_be-put_be 4 m.ttl h.ttl_word,
        get_be-put_be 8 m.timestamp h.timestamp_word,
        get_be-put_be 4 (length m.payload) (omega arith),
        read_body_lem m _ t h,
      )
      (ground (arith, length-body m t h))

extension_v2 :
    (m : Message) (extra : Bytes)
    → IsTyped m
    → 2 ≤ m.version
    → extension (trailer m ++ extra) ≡ m.author_x25519
unfolding trailer
extension_v2 m extra h v = ground (
  arith,
  length-append m.author_x25519 extra,
  take_exact 32 m.author_x25519 extra h.x25519_array.0,
)

trailer_v1 : (m : Message) → m.version < 2 → trailer m ≡ []
unfolding trailer
trailer_v1 m v = ground arith

deserialize-append :
    (m : Message) (extra : Bytes)
    → IsTyped m
    → length m.payload ≤ max_payload_len
    → deserialize (serialize m ++ extra)
      ≡ ok (record m { author_x25519 = extension (trailer m ++ extra) })
unfolding deserialize
deserialize-append m extra h fits = rw (serialize-append m extra) (
    ground (arith, length-wire m (trailer m ++ extra) h, read_header-wire m (trailer m ++ extra) h))

-- A message of version 2 or later comes back whole from its own bytes, whatever bytes follow them,
-- if its fields have their Go types and its payload is at most 16 MiB.
pub deserialize-serialize :
    (m : Message) (extra : Bytes)
    → IsTyped m
    → 2 ≤ m.version
    → length m.payload ≤ max_payload_len
    → deserialize (serialize m ++ extra) ≡ ok m
deserialize-serialize m extra h v fits =
    deserialize-append m extra h fits
    ∙ ap (λ x. ok (record m { author_x25519 = x })) (extension_v2 m extra h v)

-- Of a version 0 or 1 message the author's X25519 key is lost: in its place stand the first 32
-- bytes that follow the message, or zeros if fewer follow.
pub deserialize-serialize_legacy :
    (m : Message) (extra : Bytes)
    → IsTyped m
    → m.version < 2
    → length m.payload ≤ max_payload_len
    → deserialize (serialize m ++ extra)
      ≡ ok (record m { author_x25519 = if leb 32 (length extra) then take 32 extra else zeros 32 })
deserialize-serialize_legacy m extra h v fits =
    deserialize-append m extra h fits
    ∙ ap (λ x. ok (record m { author_x25519 = extension (x ++ extra) })) (trailer_v1 m v)

module _ (m : Message) (h : IsTyped m) where
  trailer-IsByte : All IsByte (trailer m)
  unfolding trailer
  trailer-IsByte = elim (Bool-cases (leb 2 m.version)) [
    | inl e ↦ rw (trailer, e) h.x25519_array.1
    | inr e ↦ rw (trailer, e) tt
  ]

  -- What is written is bytes.
  pub serialize-IsByte : All IsByte (serialize m)
  unfolding serialize
  serialize-IsByte = (
    h.version_byte,
    All-append IsByte m.id _ h.id_array.1 (
        All-append IsByte m.recipient_id _ h.recipient_array.1 (
          All-append IsByte (put_be 4 m.ttl) _ (put_be-IsByte 4 m.ttl) (
            All-append IsByte (put_be 8 m.timestamp) _ (put_be-IsByte 8 m.timestamp) (
              h.content_byte,
              All-append IsByte m.ephemeral_pub _ h.ephemeral_array.1 (
                  All-append IsByte m.nonce _ h.nonce_array.1 (
                    All-append IsByte (put_be 4 (length m.payload)) _
                      (put_be-IsByte 4 (length m.payload)) payload)),
            )))),
  )
    where
      payload :
          All IsByte
            (m.payload ++ (m.author_pub ++ (m.signature ++ (put_be 8 m.pow_nonce ++ trailer m))))
      payload = All-append IsByte m.payload _ h.payload_bytes (
          All-append IsByte m.author_pub _ h.author_array.1 (
            All-append IsByte m.signature _ h.signature_array.1 (
              All-append IsByte (put_be 8 m.pow_nonce) (trailer m) (put_be-IsByte 8 m.pow_nonce)
                trailer-IsByte)))

-- What parses has the minimal length.
pub length-deserialize :
    (data' : Bytes) {m : Message} → deserialize data' ≡ ok m → 230 ≤ length data'
unfolding deserialize
length-deserialize data' e = ground (arith, e)
