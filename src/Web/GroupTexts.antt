-- ===== src/Web/GroupTexts.antt =====
-- internal/web/api.go: the group texts and invitations of HandleIncomingMessage. `none` is a panic.
use iskra.Base.{false, ltb, if◌then◌else◌, Option, some, none, ◌>>=◌, [], length}
use iskra.Base.Bytes.{Bytes}
use iskra.Base.Hex.{hex}
use iskra.Identity.{user_id}
use iskra.Message.{Message}
use iskra.Store.Contacts.{Contacts, get_by_user_id}
use iskra.Store.First.{find}
use iskra.Store.Groups.{Groups, get_group, add_group_message, add_by_invite, save_groups}
use iskra.Web.{Env, Moment, Api, prefix}
use iskra.Web.Posts.{split_once}

module _ (env : Env) (at : Moment) where
  -- The name of a group message's sender: the contact's, the group member's, or the user id's start.
  unfoldable pub sender_name : Bytes → Bytes → Bytes → Groups → Contacts → Bytes
  sender_name short group_id sender groups contacts = elim (get_by_user_id sender contacts) [
    | some contact ↦ contact.name
    | none ↦ elim (get_group group_id groups) [
      | none ↦ short
      | some group ↦ elim (find (λ x. x.user_id) sender group.members) [
        | none ↦ short
        | some member ↦ member.name
      ]
    ]
  ]

  -- A group text, in the parts that it has.
  unfoldable pub add_group_text : Message → Bytes → Bytes → Groups → Api → Option Groups
  add_group_text m group_id text groups a = do
    short ← prefix 8 (user_id m.author_pub)
    logged ← (if ltb 8 (length group_id) then prefix 8 group_id else some group_id)
    some
        (save_groups env.primitives env.groups_json at.world.iv at.world.writable (
          add_group_message env.sort_group at.world.now
            (record {
              id = hex m.id;
              group_id = group_id;
              from = user_id m.author_pub;
              from_name = sender_name short group_id (user_id m.author_pub) groups a.contacts;
              text = text;
              timestamp = m.timestamp;
              outgoing = false;
              reply_to = [];
              reply_text = [];
              reply_from = [];
            })
            groups)).0

  unfoldable pub receive_group_text : Message → Bytes → Groups → Api → Option Groups
  receive_group_text m plaintext groups a = elim (split_once plaintext) [
    | none ↦ some groups
    | some (group_id, text) ↦ add_group_text m group_id text groups a
  ]

  unfoldable pub receive_invite : Bytes → Groups → Option Groups
  receive_invite plaintext groups = elim (env.read_group plaintext) [
    | none ↦ some groups
    | some group ↦ if ltb (length group.id) 8 then some groups else do
      logged ← prefix 8 group.id
      some (add_by_invite env.primitives env.groups_json at.world.iv at.world.writable group groups)
  ]
