-- ===== src/Message/Wire.antt =====
-- internal/message/serialize.go: the wire format of a message.
pub mod RoundTrip
pub mod Fields
pub mod Parse
mod Examples
use iskra.Base.{ℕ, ◌+◌, ◌*◌, ◌^◌, ◌≤◌, ◌<◌, ◌≡◌, Bool, ◌||◌, ltb, leb, if◌then◌else◌}
use iskra.Base.{List, [], ◌∷◌, ◌++◌, length, get_or, take, drop}
use iskra.Base.Bytes.{Bytes, zeros}
use iskra.Base.Endian.{put_be, get_be}
use iskra.Message.{Message}

pub data WireError : Type 0 where
  too_short : WireError
  too_short_for_payload : WireError

pub data Result {ℓ} (A : Type ℓ) : Type ℓ where
  ok : A → Result A
  err : WireError → Result A

-- 16 << 20
abbrev pub max_payload_len : ℕ
max_payload_len = 16777216

-- The bytes behind the proof of work: v2 and later carry the author's X25519 key.
trailer : Message → Bytes
trailer m = if leb 2 m.version then m.author_x25519 else []

-- Serialize. `uint32(len(m.Payload))` keeps 32 bits, as `put_be 4` does.
pub serialize : Message → Bytes
serialize m =
    m.version
    ∷ (m.id
        ++ (m.recipient_id
            ++ (put_be 4 m.ttl
                ++ (put_be 8 m.timestamp
                    ++ (m.content_type
                        ∷ (m.ephemeral_pub
                            ++ (m.nonce
                                ++ (put_be 4 (length m.payload)
                                    ++ (m.payload
                                        ++ (m.author_pub
                                            ++ (m.signature
                                                ++ (put_be 8 m.pow_nonce ++ trailer m))))))))))))

-- The part of Deserialize behind the payload length; `rest` is `data[offset:]`.
read_body : Message → ℕ → Bytes → Message
read_body m payload_len rest =
    let r1 = drop payload_len rest in
    let r2 = drop 32 r1 in
    let r3 = drop 64 r2 in
    let r4 = drop 8 r3 in
    record m {
      payload = take payload_len rest;
      author_pub = take 32 r1;
      signature = take 64 r2;
      pow_nonce = get_be (take 8 r3);
      author_x25519 = if leb 32 (length r4) then take 32 r4 else zeros 32;
    }

-- `data[offset:]` where Deserialize has read the nonce.
after_nonce : Bytes → Bytes
after_nonce data' = drop 24 (drop 32 (drop 1 (drop 8 (drop 4 (drop 20 (drop 32 (drop 1 data')))))))

-- The header fields of Deserialize, read into a zero message.
header_fields : Bytes → Message
header_fields data' =
    let r1 = drop 1 data' in
    let r2 = drop 32 r1 in
    let r3 = drop 20 r2 in
    let r4 = drop 4 r3 in
    let r5 = drop 8 r4 in
    let r6 = drop 1 r5 in
    let r7 = drop 32 r6 in
    record {
      version = get_or data' 0 0;
      id = take 32 r1;
      recipient_id = take 20 r2;
      ttl = get_be (take 4 r3);
      timestamp = get_be (take 8 r4);
      content_type = get_or r5 0 0;
      ephemeral_pub = take 32 r6;
      nonce = take 24 r7;
      payload = [];
      author_pub = zeros 32;
      author_x25519 = zeros 32;
      signature = zeros 64;
      pow_nonce = 0;
    }

-- The length check, made in uint64, and what follows it.
read_header : Bytes → Result Message
read_header data' =
    let payload_len = get_be (take 4 (after_nonce data')) in
    let rest = drop 4 (after_nonce data') in
    if ltb max_payload_len payload_len || ltb (length rest) (payload_len + 32 + 64 + 8)
    then err too_short_for_payload
    else ok (read_body (header_fields data') payload_len rest)

-- Deserialize
pub deserialize : Bytes → Result Message
deserialize data' = if ltb (length data') 230 then err too_short else read_header data'
