-- ===== src/Web/Publish/Reaches.antt =====
-- internal/web/api.go: a post reaches the other nodes.
use iskra.Base.{◌≡◌, refl, Bool, false, ◌==◌, some, [], ◌∷◌, ◌++◌, arith, any}
use iskra.Base.Bytes.{Bytes}
use iskra.Base.Hex.{hex}
use iskra.Identity.{user_id, to_base58}
use iskra.Message.{Message}
use iskra.Store.Channels.{Channel, Channels, add_channel_post, save_channels}
use iskra.Web.{Env, Moment}
use iskra.Web.Posts.{split_once, subscribed}

-- Whether a text has the separator of the parts of a post.
abbrev pub has_bar : Bytes → Bool
has_bar s = any (λ c. c == b'|') s

pub split_once-join : (s t : Bytes) → has_bar s ≡ false → split_once (s ++ b'|' ∷ t) ≡ some (s, t)
unfolding split_once any
split_once-join [] t h = refl
split_once-join (c ∷ s) t h = ground (arith, split_once-join s t)

module _ (env : Env) where
  -- The channels of a node that has taken in a post.
  abbrev pub with_post : Moment → Message → Bytes → Bytes → Bytes → Channels → Channels
  with_post at m channel_id title text ch =
      (save_channels env.primitives env.channels_json at.world.iv at.world.writable (
        add_channel_post env.sort_posts
          (record {
            id = hex m.id;
            channel_id = channel_id;
            from = user_id m.author_pub;
            from_name = title;
            text = text;
            timestamp = m.timestamp;
            outgoing = false;
          })
          (subscribed env at m channel_id title ch))).0

module _ (env : Env) (at : Moment) where
  saved : (ch : Channels) → Channels
  saved ch = (save_channels env.primitives env.channels_json at.world.iv at.world.writable ch).0

  -- The channel that a post is subscribed to.
  abbrev pub new_channel : Message → Bytes → Bytes → Channel
  new_channel m channel_id title = record {
    id = channel_id;
    author_pub = to_base58 m.author_pub;
    x25519_pub = [];
    title = title;
    created_at = at.world.now;
    is_owner = false;
  }
