-- ===== src/Web/Publish.antt =====
-- internal/web/api.go: the handlers of channels. A channel that is asked for may be missing; `none` for
-- a body is a request that does not parse.
pub mod Reaches
use iskra.Base.{
  ℕ, Bool, true, false, not, ◌||◌, if◌then◌else◌, Option, some, none, List, [], ◌∷◌, ◌++◌,
}
use iskra.Base.Bytes.{Bytes, codes, ◌=?◌}
use iskra.Base.Hex.{hex}
use iskra.Identity.{user_id, to_base58}
use iskra.Message.{Message, content_channel_post}
use iskra.Message.Create.{new_plain_broadcast}
use iskra.Store.Channels.{
  Channel, ChannelPost, Channels, create_channel, subscribe, unsubscribe, get_channel,
  add_channel_post, save_channels,
}
use iskra.Web.{Env, Moment, Api, Sent, lan_send, relay_send}
use iskra.Web.Send.{remember}

-- The reply of HandlePostToChannel.
pub data PostReply : Type 0 where
  post_error : ℕ → PostReply
  posted : ChannelPost → PostReply

module _ (env : Env) (at : Moment) where
  -- The post as the author keeps it.
  unfoldable pub own_post : Message → Bytes → Bytes → Api → ChannelPost
  own_post m channel_id text a = record {
    id = hex m.id;
    channel_id = channel_id;
    from = user_id a.keypair.ed25519_pub;
    from_name = codes "You";
    text = text;
    timestamp = at.world.now;
    outgoing = true;
  }

  -- The part of HandlePostToChannel behind the creation of the message.
  unfoldable pub publish : Message → Bytes → Bytes → Channels → Api → Api × List Sent × PostReply
  publish m channel_id text ch a =
      let post = own_post m channel_id text a in
      let saved =
        (save_channels env.primitives env.channels_json at.world.iv at.world.writable
          (add_channel_post env.sort_posts post ch)).0 in
      (
        remember env at m (record a { channels = some saved }),
        relay_send at.links m ++ lan_send at.links m,
        posted post,
      )

  -- HandlePostToChannel
  unfoldable pub handle_post_to_channel :
      Bytes → Option Bytes → Channels → Api → Api × List Sent × PostReply
  handle_post_to_channel channel_id body ch a = elim (get_channel channel_id ch) [
    | none ↦ (a, [], post_error 404)
    | some c ↦ if not c.is_owner then (a, [], post_error 403) else (elim body [
      | none ↦ (a, [], post_error 400)
      | some text ↦
          if text =? []
          then (a, [], post_error 400)
          else (elim (new_plain_broadcast env.primitives env.fuel at.world.now a.keypair
              content_channel_post (channel_id ++ b'|' ∷ (c.title ++ b'|' ∷ text))) [
                | none ↦ (a, [], post_error 500)
                | some m ↦ publish m channel_id text ch a
              ])
    ])
  ]

  -- HandleCreateChannel; `none` is an HTTP error.
  unfoldable pub handle_create_channel : Option Bytes → Channels → Api → Api × Option Channel
  handle_create_channel none ch a = (a, none)
  handle_create_channel (some title) ch a =
      if title =? []
      then (a, none)
      else (let (ch', c) =
            create_channel env.primitives env.channels_json at.world.iv at.world.writable
              at.world.now (user_id a.keypair.ed25519_pub) (to_base58 a.keypair.ed25519_pub)
              (to_base58 a.keypair.x25519_pub) title ch in
          (record a { channels = some ch' }, some c))

  -- HandleSubscribeChannel: the id, the two keys and the title.
  unfoldable pub handle_subscribe :
      Option (Bytes × Bytes × Bytes × Bytes) → Channels → Api → Api × Bool
  handle_subscribe none ch a = (a, false)
  handle_subscribe (some (channel_id, author_pub, x25519_pub, title)) ch a =
      if channel_id =? [] then (a, false) else (
        record a {
          channels = some (
              subscribe env.primitives env.channels_json at.world.iv at.world.writable
                (record {
                  id = channel_id;
                  author_pub = author_pub;
                  x25519_pub = x25519_pub;
                  title = title;
                  created_at = at.world.now;
                  is_owner = false;
                })
                ch);
        },
        true,
      )

  -- HandleUnsubscribeChannel
  unfoldable pub handle_unsubscribe : Option Bytes → Channels → Api → Api × Bool
  handle_unsubscribe none ch a = (a, false)
  handle_unsubscribe (some channel_id) ch a = if channel_id =? [] then (a, false) else (
    record a {
      channels = some (
          unsubscribe env.primitives env.channels_json at.world.iv at.world.writable channel_id ch);
    },
    true,
  )
