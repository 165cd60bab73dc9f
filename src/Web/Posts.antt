-- ===== src/Web/Posts.antt =====
-- internal/web/api.go: the channel posts of HandleIncomingMessage. `none` is a panic.
use iskra.Base.{true, false, ◌&&◌, ◌==◌, if◌then◌else◌, Option, some, none, ◌>>=◌, [], ◌∷◌}
use iskra.Base.Bytes.{Bytes}
use iskra.Base.Hex.{hex}
use iskra.Identity.{user_id, to_base58}
use iskra.Message.{Message, content_channel_post}
use iskra.Message.Sign.{is_broadcast, verify_signature}
use iskra.Store.Channels.{Channels, get_channel, subscribe, add_channel_post, save_channels}
use iskra.Web.{Env, Moment, Api, prefix}

-- strings.SplitN(s, "|", 2), where the separator occurs.
unfoldable pub split_once : Bytes → Option (Bytes × Bytes)
split_once [] = none
split_once (c ∷ s) = elim (c == b'|') [
  | true ↦ some ([], s)
  | false ↦ elim (split_once s) [ none ↦ none | some (before, after) ↦ some (c ∷ before, after) ]
]

-- strings.SplitN(s, "|", 3), where it gives three parts.
unfoldable pub split_twice : Bytes → Option (Bytes × Bytes × Bytes)
split_twice s = elim (split_once s) [
  | none ↦ none
  | some (first, rest) ↦ elim (split_once rest) [
    | none ↦ none
    | some (second, third) ↦ some (first, second, third)
  ]
]

module _ (env : Env) (at : Moment) where
  -- A channel post: the channel is subscribed to if it is not yet.
  unfoldable pub subscribed : Message → Bytes → Bytes → Channels → Channels
  subscribed m channel_id title ch = elim (get_channel channel_id ch) [
    | some _ ↦ ch
    | none ↦
        subscribe env.primitives env.channels_json at.world.iv at.world.writable
          (record {
            id = channel_id;
            author_pub = to_base58 m.author_pub;
            x25519_pub = [];
            title = title;
            created_at = at.world.now;
            is_owner = false;
          })
          ch
  ]

  unfoldable pub add_post_of : Message → Bytes → Bytes → Bytes → Channels → Option Channels
  add_post_of m channel_id title text ch = do
    logged ← prefix 8 (user_id m.author_pub)
    some
        (save_channels env.primitives env.channels_json at.world.iv at.world.writable (
          add_channel_post env.sort_posts
            (record {
              id = hex m.id;
              channel_id = channel_id;
              from = user_id m.author_pub;
              from_name = title;
              text = text;
              timestamp = m.timestamp;
              outgoing = false;
            })
            (subscribed m channel_id title ch))).0

  unfoldable pub receive_post : Message → Channels → Option Channels
  receive_post m ch =
      if verify_signature env.primitives m
      then (elim (split_twice m.payload) [
        | none ↦ some ch
        | some (channel_id, title, text) ↦ add_post_of m channel_id title text ch
      ])
      else some ch

  unfoldable pub receive_broadcast : Message → Api → Option Api
  receive_broadcast m a =
      if is_broadcast m && m.content_type == content_channel_post
      then (elim a.channels [
        | none ↦ some a
        | some ch ↦ elim (receive_post m ch) [
          | none ↦ none
          | some ch' ↦ some (record a { channels = some ch' })
        ]
      ])
      else some a
