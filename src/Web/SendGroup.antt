-- ===== src/Web/SendGroup.antt =====
-- internal/web/api.go: HandleGroups, HandleGroupMessages and sendGroupInvites. `none` is a panic.
use Prim.Native.Nat.{bit_xor}
use iskra.Base.{
  ℕ, zero, suc, ◌+◌, ◌/◌, ◌%◌, ◌^◌, Bool, true, false, ◌||◌, ltb, if◌then◌else◌, Option, some, none,
  ◌>>=◌, List, [], ◌∷◌, ◌++◌, length,
}
use iskra.Base.Bytes.{Bytes, ◌=?◌}
use iskra.Base.Hex.{hex}
use iskra.Identity.{user_id, to_base58}
use iskra.Message.{content_group_text, content_group_invite}
use iskra.Message.Create.{RecipientKeys}
use iskra.Store.Contacts.{Contacts, get_by_user_id, key_of, x25519_of}
use iskra.Store.Groups.{
  Groups, Group, GroupMember, create, get_group, delete_group, add_group_message, save_groups,
}
use iskra.Web.{Env, Moment, Api, Sent, prefix, create_message, lan_send, relay_send}
use iskra.Web.Send.{remember}

-- The reply of a group handler.
pub data GroupReply : Type 0 where
  group_error : ℕ → GroupReply
  group_made : Group → GroupReply
  group_sent : Bytes → GroupReply

-- A member's keys; `none` where the public key is none.
unfoldable pub member_keys : GroupMember → Option RecipientKeys
member_keys member = elim (key_of member.pub_key) [
  | none ↦ none
  | some ed_pub ↦ some (record { ed25519_pub = ed_pub; x25519_pub = x25519_of member.x25519_pub })
]

-- "Я"
abbrev pub own_name : Bytes
own_name = 0xd0 ∷ 0xaf ∷ []

-- The id of a group message: a clock reading in nanoseconds for each of its bytes, from index `i` on.
unfoldable pub id_loop : (ℕ → ℕ) → ℕ → ℕ → Bytes
id_loop clock zero i = []
id_loop clock (suc n) i = bit_xor (i % 256) (clock i / 2 ^ (i % 8) % 256) ∷ id_loop clock n (i + 1)

unfoldable pub group_msg_id : (ℕ → ℕ) → Bytes
group_msg_id clock = hex (id_loop clock 32 0)

module _ (env : Env) (at : Moment) where
  -- The round of a loop over the members, with its draw. The start of the member's id is logged where
  -- the message cannot be made, and after it was sent if `logs`.
  unfoldable pub member_round : Bool → ℕ → Bytes → ℕ → GroupMember → Api → Option (Api × List Sent)
  member_round logs ct payload i member a =
      if member.user_id =? user_id a.keypair.ed25519_pub
      then some (a, [])
      else (elim (member_keys member) [
        | none ↦ some (a, [])
        | some to ↦ elim (create_message env at i a.keypair to ct payload) [
          | none ↦ do logged ← prefix 8 member.user_id; some (a, [])
          | some m ↦ do
            logged ← (if logs then prefix 8 member.user_id else some [])
            some (remember env at m a, relay_send at.links m ++ lan_send at.links m)
        ]
      ])

  unfoldable pub send_to_members :
      Bool → ℕ → Bytes → ℕ → List GroupMember → Api → Option (Api × List Sent)
  send_to_members logs ct payload i [] a = some (a, [])
  send_to_members logs ct payload i (member ∷ members) a = do
    (a1, sent) ← member_round logs ct payload i member a
    (a2, later) ← send_to_members logs ct payload (i + 1) members a1
    some (a2, sent ++ later)

  -- sendGroupInvites
  unfoldable pub send_group_invites : Group → Api → Option (Api × List Sent)
  send_group_invites group a = elim (env.write_group group) [
    | none ↦ some (a, [])
    | some invite ↦ send_to_members true content_group_invite invite 0 group.members a
  ]

  -- The members of a new group; `none` where one is no contact.
  unfoldable pub members_of : List Bytes → Contacts → Option (List GroupMember)
  members_of [] c = some []
  members_of (uid ∷ uids) c = do
    contact ← get_by_user_id uid c
    members ← members_of uids c
    some (
        record {
          user_id = contact.user_id;
          name = contact.name;
          pub_key = contact.pub_key;
          x25519_pub = contact.x25519_pub;
        }
        ∷ members)

  unfoldable pub own_member : Api → GroupMember
  own_member a = record {
    user_id = user_id a.keypair.ed25519_pub;
    name = own_name;
    pub_key = to_base58 a.keypair.ed25519_pub;
    x25519_pub = to_base58 a.keypair.x25519_pub;
  }

  -- HandleGroups, POST, and the invitations that follow; `random` is drawn for the id.
  unfoldable pub handle_groups :
      Bytes → Option (Bytes × List Bytes) → Api → Option (Api × List Sent × GroupReply)
  handle_groups random body a = elim a.groups [
    | none ↦ some (a, [], group_error 500)
    | some groups ↦ elim body [
      | none ↦ some (a, [], group_error 400)
      | some (name, uids) ↦
          if name =? [] || ltb (length uids) 1
          then some (a, [], group_error 400)
          else (elim (members_of uids a.contacts) [
            | none ↦ some (a, [], group_error 400)
            | some members ↦ do
              let (groups', group) =
                  create env.primitives env.groups_json at.world.iv at.world.writable at.world.now
                    random name (user_id a.keypair.ed25519_pub) (own_member a ∷ members) groups
              (a1, sent) ← send_group_invites group (record a { groups = some groups' })
              some (a1, sent, group_made group)
          ])
    ]
  ]

  -- What a member writes: the text, and the message that it replies to.
  unfoldable pub own_text : Bytes → Bytes → Bytes × Bytes × Bytes × Bytes → Groups → Api → Groups
  own_text msg_id group_id (text, reply_to, reply_text, reply_from) groups a =
      add_group_message env.sort_group at.world.now
        (record {
          id = msg_id;
          group_id = group_id;
          from = user_id a.keypair.ed25519_pub;
          from_name = own_name;
          text = text;
          timestamp = at.world.now;
          outgoing = true;
          reply_to = reply_to;
          reply_text = reply_text;
          reply_from = reply_from;
        })
        groups

  unfoldable pub save_all : Api → Api
  save_all a = elim a.groups [
    | none ↦ a
    | some groups ↦ record a {
      groups =
          some (save_groups env.primitives env.groups_json at.world.iv at.world.writable groups).0;
    }
  ]

  -- HandleGroupMessages, POST
  unfoldable pub handle_group_messages :
      (ℕ → ℕ)
      → Bytes
      → Option (Bytes × Bytes × Bytes × Bytes)
      → Api
      → Option (Api × List Sent × GroupReply)
  handle_group_messages clock group_id body a = elim a.groups [
    | none ↦ some (a, [], group_error 500)
    | some groups ↦ if group_id =? [] then some (a, [], group_error 400) else (elim body [
      | none ↦ some (a, [], group_error 400)
      | some said ↦ elim (get_group group_id groups) [
        | none ↦ some (a, [], group_error 404)
        | some group ↦ do
          let msg_id = group_msg_id clock
          let a1 : Api = record a { groups = some (own_text msg_id group_id said groups a) }
          (a2, sent) ←
              send_to_members false content_group_text (group_id ++ b'|' ∷ said.0) 0 group.members
                a1
          some (save_all a2, sent, group_sent msg_id)
      ]
    ])
  ]

  -- HandleDeleteGroup; the flag is false for an HTTP error.
  unfoldable pub handle_delete_group : Bytes → Groups → Api → Api × Bool
  handle_delete_group group_id groups a =
      if group_id =? []
      then (a, false)
      else (let (groups', deleted) =
            delete_group env.primitives env.groups_json at.world.iv at.world.writable group_id
              groups in
          (record a { groups = some groups' }, deleted))
