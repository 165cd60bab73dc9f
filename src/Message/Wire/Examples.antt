-- ===== src/Message/Wire/Examples.antt =====
-- internal/message/serialize.go: the theorems about any input at concrete inputs.
use iskra.Base.{◌≡◌, refl, [], ◌∷◌, ◌++◌, take, drop, All, arith}
use iskra.Base.Bytes.{Bytes, IsByte, zeros, zeros-IsArray}
use iskra.Base.Endian.{get_be}
use iskra.Message.{Message}
use iskra.Message.Wire.{
  ok, serialize, deserialize, read_header, read_body, header_fields, after_nonce,
}
use iskra.Message.Wire.Parse.{serialize-deserialize}

-- A version 2 message of zeros.
abbrev zero_wire : Bytes
zero_wire = 2 ∷ zeros 261

abbrev zero_message : Message
zero_message = record {
  version = 2;
  id = zeros 32;
  recipient_id = zeros 20;
  ttl = 0;
  timestamp = 0;
  content_type = 0;
  ephemeral_pub = zeros 32;
  nonce = zeros 24;
  payload = [];
  author_pub = zeros 32;
  author_x25519 = zeros 32;
  signature = zeros 64;
  pow_nonce = 0;
}

zero_parsed : deserialize zero_wire ≡ ok zero_message
unfolding deserialize read_header read_body header_fields after_nonce take drop get_be zeros
zero_parsed = refl

zero_wire-IsByte : All IsByte zero_wire
zero_wire-IsByte = (omega arith, (zeros-IsArray 261).1)

serialize-deserialize_example : (rest : Bytes) × (serialize zero_message ++ rest ≡ zero_wire)
serialize-deserialize_example =
    serialize-deserialize zero_wire zero_message zero_wire-IsByte zero_parsed (omega arith)
      (omega (arith, (zeros-IsArray 261).0))
