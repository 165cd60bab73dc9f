-- ===== src/Message.antt =====
-- internal/message/types.go and the data types of internal/message/message.go.
-- An int64 timestamp is kept as its 64-bit pattern, the form in which the code writes it.
pub mod Wire
pub mod Sign
pub mod Create
pub mod Examples
use iskra.Base.{ℕ, ◌*◌, ◌+◌, ◌^◌, ◌≤◌, ◌<◌, ◌≡◌, Bool, ◌&&◌, not, ◌==◌, if◌then◌else◌}
use iskra.Base.{List, length, All}
use iskra.Base.Bytes.{Bytes, IsByte, IsArray}

-- Content types
abbrev pub content_text : ℕ
content_text = 0

abbrev pub content_delivery_confirm : ℕ
content_delivery_confirm = 1

abbrev pub content_contacts_sync : ℕ
content_contacts_sync = 2

abbrev pub content_group_text : ℕ
content_group_text = 3

abbrev pub content_group_invite : ℕ
content_group_invite = 4

abbrev pub content_channel_post : ℕ
content_channel_post = 5

abbrev pub content_file_chunk : ℕ
content_file_chunk = 6

abbrev pub content_letter : ℕ
content_letter = 0x20

abbrev pub content_fota : ℕ
content_fota = 0x30

abbrev pub protocol_version : ℕ
protocol_version = 2

-- Lifetimes in seconds
abbrev pub ttl_chat : ℕ
ttl_chat = 15 * 24 * 3600

abbrev pub ttl_letter : ℕ
ttl_letter = 60 * 24 * 3600

abbrev pub ttl_channel : ℕ
ttl_channel = 30 * 24 * 3600

abbrev pub ttl_fota : ℕ
ttl_fota = 7 * 24 * 3600

-- TTLForContentType
unfoldable pub ttl_for_content_type : ℕ → ℕ
ttl_for_content_type ct =
    if ct == content_letter
    then ttl_letter
    else if ct == content_channel_post
    then ttl_channel
    else if ct == content_fota
    then ttl_fota
    else ttl_chat

-- ShouldStoreInHold
unfoldable pub should_store_in_hold : ℕ → Bool
should_store_in_hold ct = not (ct == content_file_chunk) && not (ct == content_delivery_confirm)

pub record Message : Type 0 where
  pub version : ℕ
  pub id : Bytes
  pub recipient_id : Bytes
  pub ttl : ℕ
  pub timestamp : ℕ
  pub content_type : ℕ
  pub ephemeral_pub : Bytes
  pub nonce : Bytes
  pub payload : Bytes
  pub author_pub : Bytes
  pub author_x25519 : Bytes
  pub signature : Bytes
  pub pow_nonce : ℕ

-- What the Go types say of a message: array lengths, byte ranges and word widths.
pub record IsTyped (m : Message) : Type 0 where
  pub version_byte : m.version < 256
  pub id_array : IsArray 32 m.id
  pub recipient_array : IsArray 20 m.recipient_id
  pub ttl_word : m.ttl < 2 ^ 32
  pub timestamp_word : m.timestamp < 2 ^ 64
  pub content_byte : m.content_type < 256
  pub ephemeral_array : IsArray 32 m.ephemeral_pub
  pub nonce_array : IsArray 24 m.nonce
  pub payload_bytes : All IsByte m.payload
  pub author_array : IsArray 32 m.author_pub
  pub x25519_array : IsArray 32 m.author_x25519
  pub signature_array : IsArray 64 m.signature
  pub pow_word : m.pow_nonce < 2 ^ 64
