-- ===== src/Store/Channels.antt =====
-- internal/store/channels.go: the channels and their posts.
use iskra.Base.{ℕ, Bool, true, false, if◌then◌else◌, Option, some, none, List, [], ◌∷◌, ◌++◌}
use iskra.Base.Bytes.{Bytes}
use iskra.Base.Dict.{Dict, remove}
use iskra.Crypto.{Primitives}
use iskra.Store.Files.{open_data, seal_data}
use iskra.Store.First.{find, has_id, drop_first, modify}
use iskra.Store.History.{Kind, history, add_post, last}

pub record Channel : Type 0 where
  pub id : Bytes
  pub author_pub : Bytes
  pub x25519_pub : Bytes
  pub title : Bytes
  pub created_at : ℕ
  pub is_owner : Bool

pub record ChannelPost : Type 0 where
  pub id : Bytes
  pub channel_id : Bytes
  pub from : Bytes
  pub from_name : Bytes
  pub text : Bytes
  -- an int64, as its bit pattern
  pub timestamp : ℕ
  pub outgoing : Bool

pub record Channels : Type 0 where
  pub channels : List Channel
  pub posts : Dict (List ChannelPost)
  pub vault_key : Option Bytes
  pub file : Option Bytes

-- json.MarshalIndent and json.Unmarshal of channelsData; `none` for posts is a missing map.
pub record ChannelsJson : Type 0 where
  pub encode : List Channel → Dict (List ChannelPost) → Bytes
  pub decode : Bytes → Option (List Channel × Option (Dict (List ChannelPost)))

abbrev pub post_kind : Kind ChannelPost
post_kind = record {
  id_of = λ m. m.id;
  time_of = λ m. m.timestamp;
  at = λ now m. record m { timestamp = now };
}

module _ (p : Primitives) (json : ChannelsJson) where
  -- load
  unfoldable pub load_channels : Channels → Channels × Bool
  load_channels ch = elim ch.file [
    | none ↦ (ch, false)
    | some data' ↦ elim (json.decode (open_data p b'{' ch.vault_key data')) [
      | none ↦ (ch, false)
      | some (channels, none) ↦ (record ch { channels = channels }, true)
      | some (channels, some posts) ↦ (record ch { channels = channels; posts = posts }, true)
    ]
  ]

  -- save: where the encryption fails, the plain text is written.
  unfoldable pub save_channels : Option Bytes → Bool → Channels → Channels × Bool
  save_channels iv writable ch =
      let plain = json.encode ch.channels ch.posts in
      let data' : Bytes = elim (seal_data p iv ch.vault_key plain) [ none ↦ plain | some e ↦ e ] in
      if writable then (record ch { file = some data' }, true) else (ch, false)

  -- SetVaultKey
  unfoldable pub set_channels_key : Option Bytes → Bool → Option Bytes → Channels → Channels
  set_channels_key iv writable key ch =
      (save_channels iv writable (load_channels (record ch { vault_key = key })).0).0

  -- Create: the channel of a user, in place of an earlier one.
  unfoldable pub create_channel :
      Option Bytes → Bool → ℕ → Bytes → Bytes → Bytes → Bytes → Channels → Channels × Channel
  create_channel iv writable now user_id author_pub x25519_pub title ch =
      let c : Channel = record {
        id = user_id;
        author_pub = author_pub;
        x25519_pub = x25519_pub;
        title = title;
        created_at = now;
        is_owner = true;
      } in
      let changed : List Channel =
        if has_id (λ x. x.id) user_id ch.channels
        then modify (λ x. x.id) user_id (λ old. c) ch.channels
        else ch.channels ++ c ∷ [] in
      ((save_channels iv writable (record ch { channels = changed })).0, c)

  -- Subscribe
  unfoldable pub subscribe : Option Bytes → Bool → Channel → Channels → Channels
  subscribe iv writable c ch =
      if has_id (λ x. x.id) c.id ch.channels
      then ch
      else (save_channels iv writable (record ch { channels = ch.channels ++ c ∷ [] })).0

  -- Unsubscribe: the channel and its posts.
  unfoldable pub unsubscribe : Option Bytes → Bool → Bytes → Channels → Channels
  unsubscribe iv writable channel_id ch =
      if has_id (λ x. x.id) channel_id ch.channels
      then (save_channels iv writable (record ch {
        channels = drop_first (λ x. x.id) channel_id ch.channels;
        posts = remove channel_id ch.posts;
      })).0
      else ch

-- Get
unfoldable pub get_channel : Bytes → Channels → Option Channel
get_channel channel_id ch = find (λ x. x.id) channel_id ch.channels

-- AddPost
unfoldable pub add_channel_post :
    (List ChannelPost → List ChannelPost) → ChannelPost → Channels → Channels
add_channel_post sort post ch = record ch {
  posts = add_post post_kind sort post.channel_id post ch.posts;
}

-- Posts
unfoldable pub posts_of : Bytes → Channels → List ChannelPost
posts_of channel_id ch = history channel_id ch.posts

-- LastPost
unfoldable pub last_post : Bytes → Channels → Option ChannelPost
last_post channel_id ch = last (history channel_id ch.posts)
