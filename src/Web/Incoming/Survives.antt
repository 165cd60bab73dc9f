-- ===== src/Web/Incoming/Survives.antt =====
-- internal/web/api.go: no message can make HandleIncomingMessage panic.
use iskra.Base.{
  ℕ, ◌≤◌, ◌≡◌, refl, inl, inr, false, not, ◌&&◌, ◌==◌, ltb, Option, some, none, List, [], ◌||◌,
  length, take, arith, Bool-cases, Option-cases,
}
use iskra.Base.Bytes.{Bytes, ◌=?◌, zeros}
use iskra.Base.Runs.{Runs, bind-Runs, then-Runs, if-Runs}
use iskra.FileTransfer.{Manager}
use iskra.FileTransfer.Survives.{receive_chunk-Runs}
use iskra.Identity.{user_id, to_base58}
use iskra.Identity.Base58.{length-user_id}
use iskra.Message.{Message, content_channel_post}
use iskra.Message.Sign.{is_for_recipient, is_broadcast, verify_signature}
use iskra.Store.Channels.{Channels}
use iskra.Store.Contacts.{Contacts, update_x25519, id_of}
use iskra.Store.First.{find}
use iskra.Store.Groups.{Groups}
use iskra.Web.{Env, Moment, Api, Sent, prefix}
use iskra.Web.Posts.{split_once, split_twice, add_post_of, receive_post, receive_broadcast}
use iskra.Web.GroupTexts.{add_group_text, receive_group_text, receive_invite}
use iskra.Web.Incoming.{
  learn_key, receive_text, on_groups, receive_letter, receive_file, receive_file_chunk,
  receive_content, announce_file, then_broadcast, receive_opened, handle_incoming,
}

prefix-Runs : (n : ℕ) (s : Bytes) → n ≤ length s → prefix n s ≡ some (take n s)
unfolding prefix
prefix-Runs n s h = ground arith

pub start_of_id : (key : Bytes) → prefix 8 (user_id key) ≡ some (take 8 (user_id key))
start_of_id key = prefix-Runs 8 (user_id key) (omega (arith, length-user_id key))

long_id : (key : Bytes) → ltb (length (user_id key)) 12 ≡ false
long_id key = ground (arith, length-user_id key)

module _ (env : Env) (at : Moment) where
  update_x25519-Runs :
      (key x25519 : Bytes) (c : Contacts)
      → Runs (update_x25519 env.primitives env.contacts_json at.world (user_id key) x25519 c)
  unfolding update_x25519
  update_x25519-Runs key x25519 c = elim (Option-cases (find id_of (user_id key) c.contacts)) [
    | inl e ↦ rw (update_x25519, e, long_id key) (_, refl)
    | inr (ct, e) ↦
        rw (update_x25519, e)
          (if-Runs (ct.x25519_pub =? [] || not (ct.x25519_pub =? x25519)) (some _) (some _)
            (_, refl) (_, refl))
  ]

  pub learn_key-Runs : (m : Message) (a : Api) → Runs (learn_key env at m a)
  unfolding learn_key
  learn_key-Runs m a =
      if-Runs (m.author_x25519 =? zeros 32) _ _ (a, refl)
        (then-Runs _ _ (update_x25519-Runs m.author_pub (to_base58 m.author_x25519) a.contacts))

  receive_text-Runs : (m : Message) (t : Bytes) (a : Api) → Runs (receive_text env at m t a)
  unfolding receive_text
  receive_text-Runs m t a =
      rw (start_of_id m.author_pub) (bind-Runs _ _ (learn_key-Runs m _) (λ a1. (_, refl)))

  add_group_text-Runs :
      (m : Message) (group_id t : Bytes) (groups : Groups) (a : Api)
      → Runs (add_group_text env at m group_id t groups a)
  unfolding add_group_text
  add_group_text-Runs m group_id t groups a =
      rw (start_of_id m.author_pub) (elim (Bool-cases (ltb 8 (length group_id))) [
        | inl e ↦ rw (e, prefix-Runs 8 group_id (ground (arith, e))) (_, refl)
        | inr e ↦ rw e (_, refl)
      ])

  receive_group_text-Runs :
      (m : Message) (t : Bytes) (groups : Groups) (a : Api)
      → Runs (receive_group_text env at m t groups a)
  unfolding receive_group_text
  receive_group_text-Runs m t groups a = elim (Option-cases (split_once t)) [
    | inl e ↦ rw (receive_group_text, e) (groups, refl)
    | inr ((group_id, text), e) ↦
        rw (receive_group_text, e) (add_group_text-Runs m group_id text groups a)
  ]

  receive_invite-Runs : (t : Bytes) (groups : Groups) → Runs (receive_invite env at t groups)
  unfolding receive_invite
  receive_invite-Runs t groups = elim (Option-cases (env.read_group t)) [
    | inl e ↦ rw (receive_invite, e) (groups, refl)
    | inr (group, e) ↦ elim (Bool-cases (ltb (length group.id) 8)) [
      | inl q ↦ rw (receive_invite, e, q) (groups, refl)
      | inr q ↦ rw (receive_invite, e, q, prefix-Runs 8 group.id (ground (arith, q))) (_, refl)
    ]
  ]

  on_groups-Runs :
      (f : Groups → Option Groups) (a : Api)
      → ((groups : Groups) → Runs (f groups))
      → Runs (on_groups env at f a)
  unfolding on_groups
  on_groups-Runs f a h = elim (Option-cases a.groups) [
    | inl e ↦ rw (on_groups, e) (_, refl)
    | inr (groups, e) ↦ rw (on_groups, e) (then-Runs (f groups) _ (h groups))
  ]

  receive_letter-Runs : (m : Message) (t : Bytes) (a : Api) → Runs (receive_letter env at m t a)
  unfolding receive_letter
  receive_letter-Runs m t a = rw (start_of_id m.author_pub) (_, refl)

  announce_file-Runs :
      (m : Message) (file : Option (Bytes × Bytes)) (a : Api) → Runs (announce_file env at m file a)
  unfolding announce_file
  announce_file-Runs m none a = (_, refl)
  announce_file-Runs m (some (name, content)) a =
      rw (announce_file, start_of_id m.author_pub) (_, refl)

  receive_file-Runs :
      (m : Message) (t : Bytes) (mgr : Manager) (a : Api) → Runs (receive_file env at m t mgr a)
  unfolding receive_file
  receive_file-Runs m t mgr a =
      bind-Runs _ _ (receive_chunk-Runs env.packages at.writes at.nanos t mgr)
        (λ r. announce_file-Runs m r.1 _)

  receive_file_chunk-Runs :
      (m : Message) (t : Bytes) (a : Api) → Runs (receive_file_chunk env at m t a)
  unfolding receive_file_chunk
  receive_file_chunk-Runs m t a = elim (Option-cases a.file_mgr) [
    | inl e ↦ rw (receive_file_chunk, e) (_, refl)
    | inr (mgr, e) ↦ rw (receive_file_chunk, e) (then-Runs _ _ (receive_file-Runs m t mgr a))
  ]

  receive_content-Runs : (m : Message) (t : Bytes) (a : Api) → Runs (receive_content env at m t a)
  unfolding receive_content
  receive_content-Runs m t a = if-Runs _ _ _ (receive_text-Runs m t a) (
      if-Runs _ _ _ (_, refl)
        (if-Runs _ _ _ (on_groups-Runs _ a (λ groups. receive_group_text-Runs m t groups a)) (
          if-Runs _ _ _ (on_groups-Runs _ a (λ groups. receive_invite-Runs t groups)) (
            if-Runs _ _ _ (receive_letter-Runs m t a)
              (if-Runs _ _ _ (receive_file_chunk-Runs m t a) (_, refl))))))

  receive_post-Runs : (m : Message) (ch : Channels) → Runs (receive_post env at m ch)
  unfolding receive_post add_post_of
  receive_post-Runs m ch = elim (Bool-cases (verify_signature env.primitives m)) [
    | inr q ↦ rw (receive_post, q) (ch, refl)
    | inl q ↦ elim (Option-cases (split_twice m.payload)) [
      | inl e ↦ rw (receive_post, q, e) (ch, refl)
      | inr ((channel_id, title, t), e) ↦
          rw (receive_post, q, e, start_of_id m.author_pub) (_, refl)
    ]
  ]

  receive_broadcast-Runs : (m : Message) (a : Api) → Runs (receive_broadcast env at m a)
  unfolding receive_broadcast
  receive_broadcast-Runs m a =
      elim (Bool-cases (is_broadcast m && m.content_type == content_channel_post)) [
        | inr q ↦ rw (receive_broadcast, q) (a, refl)
        | inl q ↦ elim (Option-cases a.channels) [
          | inl e ↦ rw (receive_broadcast, q, e) (a, refl)
          | inr (ch, e) ↦
              rw (receive_broadcast, q, e)
                (then-Runs (receive_post env at m ch) _ (receive_post-Runs m ch))
        ]
      ]

  then_broadcast-Runs : (m : Message) (r : Api × List Sent) → Runs (then_broadcast env at m r)
  unfolding then_broadcast
  then_broadcast-Runs m (a, sent) = bind-Runs _ _ (receive_broadcast-Runs m a) (λ a1. (_, refl))

  receive_opened-Runs :
      (m : Message) (a : Api) (opened : Option Bytes) → Runs (receive_opened env at m a opened)
  unfolding receive_opened
  receive_opened-Runs m a none = (_, refl)
  receive_opened-Runs m a (some t) =
      bind-Runs _ _ (receive_content-Runs m _ a) (then_broadcast-Runs m)

  -- Whatever message arrives, with whatever content, and whatever state the node is in,
  -- HandleIncomingMessage comes to its end: none of the slices that it takes is out of range, nor
  -- any that ReceiveChunk and its decoders take of a file chunk.
  pub handle_incoming_returns :
      (m : Message) (a : Api) → (r : Api × List Sent) × (handle_incoming env at m a ≡ some r)
  unfolding handle_incoming
  handle_incoming_returns m a =
      if-Runs (is_for_recipient m a.keypair.ed25519_pub) _ _ (receive_opened-Runs m a _)
        (then_broadcast-Runs m (a, []))
