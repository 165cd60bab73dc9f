-- ===== src/Web/Session.antt =====
-- internal/web/api.go: the node with its files, for the handlers that lock, unlock and wipe;
-- internal/security/wipe.go and the files that internal/security/decoy.go writes. Every file of the
-- data directory can be removed and the decoy's can be written. Overwriting a file before it is
-- removed leaves nothing to model.
use iskra.Base.{Bool, true, false, Option, some, none, [], ◌∷◌, ◌++◌}
use iskra.Base.Bytes.{Bytes, codes}
use iskra.Base.Dict.{Dict, lookup, insert, remove}
use iskra.Identity.{user_id}
use iskra.Security.{Files, derive_storage_key}
use iskra.Store.Channels.{set_channels_key}
use iskra.Store.Contacts.{set_vault_key}
use iskra.Store.Groups.{set_groups_key}
use iskra.Store.Inbox.Saved.{Inbox}
use iskra.Web.{Env, Moment, Api}

-- `files` has the files of the data directory but for those of the stores and the PINs, by name; `shadow`
-- is the shadow store, which lies elsewhere. `opened` says that UnlockCh is closed.
pub record Session : Type 0 where
  pub api : Api
  pub pins : Files
  pub files : Dict Bytes
  pub shadow : Option Bytes
  pub inbox_key : Option Bytes
  pub inbox_path : Bytes
  pub seed : Bytes
  pub vault_key : Option Bytes
  pub locked : Bool
  pub opened : Bool

-- The inbox with the files at its path.
unfoldable pub inbox_of : Session → Inbox
inbox_of s = record {
  messages = s.api.inbox;
  vault_key = s.inbox_key;
  file = lookup s.inbox_path s.files;
  corrupt = lookup (s.inbox_path ++ codes ".corrupt") s.files;
  shadow = s.shadow;
}

unfoldable pub put_file : Bytes → Option Bytes → Dict Bytes → Dict Bytes
put_file path none files = remove path files
put_file path (some content) files = insert path content files

unfoldable pub with_inbox : Inbox → Session → Session
with_inbox inbox s = record s {
  api = record s.api { inbox = inbox.messages };
  inbox_key = inbox.vault_key;
  shadow = inbox.shadow;
  files =
      put_file (s.inbox_path ++ codes ".corrupt") inbox.corrupt
        (put_file s.inbox_path inbox.file s.files);
}

-- WipeAll: every file of the data directory is removed. What is in memory stays.
unfoldable pub wipe_all : Session → Session
wipe_all s = record s {
  pins = record { pin = none; attempts = none; panic_pin = none };
  files = [];
  api = record s.api {
    contacts = record s.api.contacts { file = none; corrupt = none };
    groups = elim s.api.groups [ none ↦ none | some g ↦ some (record g { file = none }) ];
    channels = elim s.api.channels [ none ↦ none | some c ↦ some (record c { file = none }) ];
    hold = record s.api.hold { files = []; saved = [] };
  };
}

-- What GenerateDecoy makes up: a seed, contacts, conversations, and the files of the hold by their ids.
pub record Decoy : Type 0 where
  pub seed : Bytes
  pub contacts : Bytes
  pub inbox : Bytes
  pub hold : Dict Bytes

unfoldable pub add_files : Dict Bytes → Dict Bytes → Dict Bytes
add_files [] files = files
add_files ((name, content) ∷ rest) files = add_files rest (insert name content files)

abbrev pub empty_groups : Bytes
empty_groups = codes "{\"groups\":[],\"messages\":{}}"

-- GenerateDecoy
unfoldable pub generate_decoy : Decoy → Session → Session
generate_decoy d s = record s {
  files = insert (codes "inbox.json") d.inbox (insert (codes "seed.key") d.seed s.files);
  api = record s.api {
    contacts = record s.api.contacts { file = some d.contacts };
    groups = elim s.api.groups [
      | none ↦ none
      | some g ↦ some (record g { file = some empty_groups })
    ];
    hold = record s.api.hold { files = add_files d.hold s.api.hold.files };
  };
}

unfoldable pub destroy : Decoy → Session → Session
destroy d s = generate_decoy d (wipe_all s)

-- The key that a PIN stands for, and the path of the inbox of this identity.
unfoldable pub storage_key : Env → Bytes → Session → Bytes
storage_key env pin s = derive_storage_key env.primitives s.seed pin

unfoldable pub own_inbox_path : Session → Bytes
own_inbox_path s = codes "inbox-" ++ (user_id s.api.keypair.ed25519_pub ++ codes ".json")

-- SetVaultKey of the contacts, the groups and the channels.
unfoldable pub set_store_keys : Env → Moment → Bytes → Api → Api
set_store_keys env at key a = record a {
  contacts = set_vault_key env.primitives env.contacts_json at.world (some key) a.contacts;
  groups = elim a.groups [
    | none ↦ none
    | some g ↦ some (set_groups_key env.primitives env.groups_json (some key) g)
  ];
  channels = elim a.channels [
    | none ↦ none
    | some c ↦ some (
        set_channels_key env.primitives env.channels_json at.world.iv at.world.writable (some key)
          c)
  ];
}

unfoldable pub unlocked : Session → Session
unlocked s = record s { locked = false; opened = true }
