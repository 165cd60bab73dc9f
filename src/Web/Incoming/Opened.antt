-- ===== src/Web/Incoming/Opened.antt =====
-- internal/web/api.go: what becomes of a message that another node made for this one.
use iskra.Base.{
  List, ℕ, ◌+◌, ◌<◌, ◌^◌, ◌≡◌, ◌≢◌, ◌∙◌, refl, sym, subst, inl, inr, true, ◌==◌, ==_iff, Option,
  some, none, ◌>>=◌, >>=-eq-some, length, All, Bool-cases,
}
use iskra.Base.Bytes.{Bytes, IsByte}
use iskra.Crypto.{Laws}
use iskra.Crypto.Encrypt.{decrypt}
use iskra.Message.{Message, content_channel_post}
use iskra.Message.Create.{Keypair, RecipientKeys, FlateLaws, compress_payload, decompress_payload}
use iskra.Message.Create.Authentic.{Reachable, IsAuthentic, new_with_type-IsAuthentic}
use iskra.Message.Create.Header.{HasHeader, new_with_type-HasHeader}
use iskra.Message.Sign.{is_for_recipient, is_broadcast}
use iskra.Web.{Env, Moment, Api, Sent, create_message}
use iskra.Web.Posts.{receive_broadcast}
use iskra.Web.Incoming.{raw_or, receive_opened, receive_content, then_broadcast, handle_incoming}

-- What a sender needs for a message: keys that belong together, random bytes, a payload that fits,
-- and a proof of work within the fuel. `private` is the recipient's X25519 key.
pub record CanSend (env : Env) (at : Moment) (i : ℕ) (from : Keypair) (to : RecipientKeys) (ct : ℕ)
    (plaintext private : Bytes) : Type 0 where
  pub ephemeral : Bytes
  pub ephemeral_pub : Bytes
  pub secret : Bytes
  pub iv : Bytes
  pub keys : env.primitives.ed25519_public from.ed25519_private ≡ from.ed25519_pub
  pub recipient : env.primitives.x25519 private env.primitives.basepoint ≡ some to.x25519_pub
  pub drawn_key : (at.draws i).key ≡ some ephemeral
  pub drawn_iv : (at.draws i).iv ≡ some iv
  pub public : env.primitives.x25519 ephemeral env.primitives.basepoint ≡ some ephemeral_pub
  pub agreed : env.primitives.x25519 ephemeral to.x25519_pub ≡ some secret
  pub bytes : All IsByte (compress_payload env.flate plaintext ct)
  pub fits : length (compress_payload env.flate plaintext ct) + 16 < 2 ^ 32
  pub worked : Reachable env.primitives env.fuel

no_post :
    (env : Env) (at : Moment) (m : Message) (a : Api)
    → m.content_type ≢ content_channel_post
    → receive_broadcast env at m a ≡ some a
unfolding receive_broadcast
no_post env at m a h = elim (Bool-cases (m.content_type == content_channel_post)) [
  | inl e ↦ absurd (h ((==_iff m.content_type content_channel_post).0 e))
  | inr e ↦ elim (Bool-cases (is_broadcast m)) [
    | inl q ↦ rw (receive_broadcast, q, e) refl
    | inr q ↦ rw (receive_broadcast, q) refl
  ]
]

-- Where the step after the first does no more.
bind_same {ℓ} :
    {A : Type ℓ} (o : Option A) (f : A → Option A) → ((a : A) → f a ≡ some a) → (o >>= f) ≡ o
bind_same none f h = refl
bind_same (some a) f h = h a

nothing_more :
    (env : Env) (at : Moment) (m : Message) (r : Api × List Sent)
    → m.content_type ≢ content_channel_post
    → then_broadcast env at m r ≡ some r
unfolding then_broadcast
nothing_more env at m (a, sent) h = rw (then_broadcast, no_post env at m a h) refl

own_message :
    (env : Env) (at : Moment) (m : Message) (plaintext compressed : Bytes) (a : Api)
    → decrypt env.primitives a.keypair.x25519_private
        (record { ephemeral_pub = m.ephemeral_pub; nonce = m.nonce; ciphertext = m.payload })
      ≡ some compressed
    → decompress_payload env.flate compressed ≡ some plaintext
    → is_for_recipient m a.keypair.ed25519_pub ≡ true
    → m.content_type ≢ content_channel_post
    → handle_incoming env at m a ≡ receive_content env at m plaintext a
unfolding handle_incoming receive_opened raw_or
own_message env at m plaintext compressed a opened clear mine other =
    rw (handle_incoming, mine, opened, receive_opened, clear)
      (bind_same (receive_content env at m plaintext a) (then_broadcast env at m)
        (λ r. nothing_more env at m r other))

module _ (env : Env) (laws : Laws env.primitives) (flate_laws : FlateLaws env.flate) where
  -- A message of any type but a channel post that one node makes for another passes the checks of
  -- every node between them, and the other handles it with the plaintext, the author and the
  -- content type that it was made with. The sender must be able to send, and the recipient's keys
  -- must be the node's.
  pub handle_incoming-create_message :
      (at at' : Moment) (i ct : ℕ) (from : Keypair) (to : RecipientKeys) (plaintext : Bytes)
      (b : Api)
      → CanSend env at i from to ct plaintext b.keypair.x25519_private
      → to.ed25519_pub ≡ b.keypair.ed25519_pub
      → ct ≢ content_channel_post
      → (m : Message) × (create_message env at i from to ct plaintext ≡ some m)
        × IsAuthentic env.primitives m
        × HasHeader from to ct at.world.now m
        × (handle_incoming env at' m b ≡ receive_content env at' m plaintext b)
  unfolding create_message
  handle_incoming-create_message at at' i ct from to plaintext b can mine other =
      let (m, made, authentic, addressed, opens) =
        new_with_type-IsAuthentic env.primitives laws env.flate flate_laws env.fuel at.world.now ct
          from to b.keypair.x25519_private can.ephemeral can.ephemeral_pub can.secret can.iv
          plaintext can.keys can.recipient can.public can.agreed can.bytes can.fits can.worked in
      let sent : create_message env at i from to ct plaintext ≡ some m =
        rw (can.drawn_key, can.drawn_iv) made in
      let header =
        new_with_type-HasHeader env.primitives env.flate env.fuel at.world.now ct (at.draws i).key
          (at.draws i).iv from to plaintext m sent in
      let (compressed, opened, clear) =
        >>=-eq-some
          (decrypt env.primitives b.keypair.x25519_private
            (record { ephemeral_pub = m.ephemeral_pub; nonce = m.nonce; ciphertext = m.payload }))
          (decompress_payload env.flate) opens in
      (
        m,
        sent,
        authentic,
        header,
        own_message env at' m plaintext compressed b opened clear
            (subst (λ k. is_for_recipient m k ≡ true) mine addressed)
            (λ e. other (sym header.content_type ∙ e)),
      )
