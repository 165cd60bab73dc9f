-- ===== src/Store/Groups.antt =====
-- internal/store/groups.go: the groups and their messages.
use iskra.Base.{ℕ, Bool, true, false, if◌then◌else◌, Option, some, none, List, [], ◌∷◌, ◌++◌}
use iskra.Base.Bytes.{Bytes}
use iskra.Base.Dict.{Dict, remove}
use iskra.Base.Hex.{hex}
use iskra.Crypto.{Primitives}
use iskra.Store.Files.{open_data, seal_data}
use iskra.Store.First.{find, has_id, drop_first}
use iskra.Store.History.{Kind, history, add_message}

pub record GroupMember : Type 0 where
  pub user_id : Bytes
  pub name : Bytes
  pub pub_key : Bytes
  pub x25519_pub : Bytes

pub record Group : Type 0 where
  pub id : Bytes
  pub name : Bytes
  pub members : List GroupMember
  pub created_at : ℕ
  pub created_by : Bytes

pub record GroupMessage : Type 0 where
  pub id : Bytes
  pub group_id : Bytes
  pub from : Bytes
  pub from_name : Bytes
  pub text : Bytes
  -- an int64, as its bit pattern
  pub timestamp : ℕ
  pub outgoing : Bool
  pub reply_to : Bytes
  pub reply_text : Bytes
  pub reply_from : Bytes

-- `file` is the content of the file.
pub record Groups : Type 0 where
  pub groups : List Group
  pub messages : Dict (List GroupMessage)
  pub vault_key : Option Bytes
  pub file : Option Bytes

-- json.MarshalIndent and json.Unmarshal of what is stored; `none` for messages is a missing map.
pub record GroupsJson : Type 0 where
  pub encode : List Group → Dict (List GroupMessage) → Bytes
  pub decode : Bytes → Option (List Group × Option (Dict (List GroupMessage)))

abbrev pub group_kind : Kind GroupMessage
group_kind = record {
  id_of = λ m. m.id;
  time_of = λ m. m.timestamp;
  at = λ now m. record m { timestamp = now };
}

module _ (p : Primitives) (json : GroupsJson) where
  -- load
  unfoldable pub load_groups : Groups → Groups × Bool
  load_groups g = elim g.file [
    | none ↦ (g, false)
    | some data' ↦ elim (json.decode (open_data p b'{' g.vault_key data')) [
      | none ↦ (g, false)
      | some (groups, none) ↦ (record g { groups = groups }, true)
      | some (groups, some messages) ↦ (record g { groups = groups; messages = messages }, true)
    ]
  ]

  -- save, with the nonce that was drawn and whether the file can be written.
  unfoldable pub save_groups : Option Bytes → Bool → Groups → Groups × Bool
  save_groups iv writable g = elim (seal_data p iv g.vault_key (json.encode g.groups g.messages)) [
    | none ↦ (g, false)
    | some data' ↦ if writable then (record g { file = some data' }, true) else (g, false)
  ]

  -- SetVaultKey
  unfoldable pub set_groups_key : Option Bytes → Groups → Groups
  set_groups_key key g = (load_groups (record g { vault_key = key })).0

  -- Create, with the 32 random bytes of the id.
  unfoldable pub create :
      Option Bytes → Bool → ℕ → Bytes → Bytes → Bytes → List GroupMember → Groups → Groups × Group
  create iv writable now random name created_by members g =
      let group : Group = record {
        id = hex random;
        name = name;
        members = members;
        created_at = now;
        created_by = created_by;
      } in
      ((save_groups iv writable (record g { groups = g.groups ++ group ∷ [] })).0, group)

  -- AddByInvite
  unfoldable pub add_by_invite : Option Bytes → Bool → Group → Groups → Groups
  add_by_invite iv writable group g =
      if has_id (λ x. x.id) group.id g.groups
      then g
      else (save_groups iv writable (record g { groups = g.groups ++ group ∷ [] })).0

  -- Delete: the group and its messages.
  unfoldable pub delete_group : Option Bytes → Bool → Bytes → Groups → Groups × Bool
  delete_group iv writable group_id g =
      if has_id (λ x. x.id) group_id g.groups
      then (
        (save_groups iv writable (record g {
          groups = drop_first (λ x. x.id) group_id g.groups;
          messages = remove group_id g.messages;
        })).0,
        true,
      )
      else (g, false)

-- Get
unfoldable pub get_group : Bytes → Groups → Option Group
get_group group_id g = find (λ x. x.id) group_id g.groups

-- AddMessage
unfoldable pub add_group_message :
    (List GroupMessage → List GroupMessage) → ℕ → GroupMessage → Groups → Groups
add_group_message sort now msg g = record g {
  messages = add_message group_kind sort now msg.group_id msg g.messages;
}

-- GetMessages
unfoldable pub group_messages : Bytes → Groups → List GroupMessage
group_messages group_id g = history group_id g.messages

-- DeleteMessages
unfoldable pub delete_messages : Bytes → Groups → Groups
delete_messages group_id g = record g { messages = remove group_id g.messages }
