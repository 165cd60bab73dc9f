-- ===== src/Web/Account.antt =====
-- internal/web/api.go: HandleRestore and HandleMasterLogin, and internal/web/master.go. argon2.IDKey
-- with the parameters of master.go is an argument.
use iskra.Base.{
  Bool, true, false, not, ◌==◌, if◌then◌else◌, Option, some, none, ◌>>=◌, List, ◌∷◌, ◌++◌, length,
}
use iskra.Base.Bytes.{Bytes, codes, ◌=?◌}
use iskra.Base.Dict.{insert}
use iskra.Base.Hex.{hex}
use iskra.Identity.{user_id, validate_mnemonic, mnemonic_to_seed}
use iskra.Identity.Keys.{KeyPackages, keypair_from_seed}
use iskra.Message.Create.{Keypair}
use iskra.Store.Inbox.Saved.{InboxJson, load_inbox}
use iskra.Web.{Env}
use iskra.Web.Session.{Session, inbox_of, with_inbox, own_inbox_path, unlocked}

-- The reply of HandleRestore.
pub data RestoreReply : Type 0 where
  bad_request : RestoreReply
  need_24_words : RestoreReply
  bad_mnemonic : RestoreReply
  restore_error : RestoreReply
  not_saved : RestoreReply
  restored : Bytes → RestoreReply

-- masterCredHash, as deobf gives it.
abbrev pub master_cred_hash : Bytes
master_cred_hash = codes "1f0a67bc5be3312c0d31dade47ad6213701328b3f4bce3934de4c606ce392d7b"

module _ (env : Env) (keys : KeyPackages) (trim : Bytes → Bytes) (words : List Bytes) where
  -- What HandleRestore does with a seed: it is saved, and the user id of its keys is returned.
  unfoldable pub save_seed : Bool → Bytes → Session → Option (Session × RestoreReply)
  save_seed writable seed s =
      if writable
      then (elim (keypair_from_seed env.primitives keys seed) [
        | none ↦ none
        | some keypair ↦ some (
          record s { files = insert (codes "seed.key") seed s.files },
          restored (user_id keypair.ed25519_pub),
        )
      ])
      else some (s, not_saved)

  -- HandleRestore, of the words of the request; `none` is a panic.
  unfoldable pub handle_restore :
      Bool → Option (List Bytes) → Session → Option (Session × RestoreReply)
  handle_restore writable none s = some (s, bad_request)
  handle_restore writable (some phrase) s =
      if not (length phrase == 24)
      then some (s, need_24_words)
      else if not (validate_mnemonic env.primitives trim words phrase)
      then some (s, bad_mnemonic)
      else (elim (mnemonic_to_seed env.primitives trim words phrase) [
        | none ↦ some (s, restore_error)
        | some seed ↦ save_seed writable seed s
      ])

module _ (env : Env) (json : InboxJson) (keys : KeyPackages) (argon : Bytes → Bytes → Bytes) where
  -- VerifyMasterCredentials
  unfoldable pub verify_master_credentials : Bytes → Bytes → Option Bytes
  verify_master_credentials login password =
      if not (hex (env.primitives.sha256 (login ++ b':' ∷ password)) =? master_cred_hash)
      then none
      else some (argon password (env.primitives.sha256 (codes "iskra-master-v1-" ++ login)))

  -- The switch of HandleMasterLogin to another identity. The contacts and the other stores stay.
  unfoldable pub switch_identity : Bytes → Keypair → Session → Session
  switch_identity seed keypair s =
      let s1 : Session = record s { api = record s.api { keypair = keypair }; seed = seed } in
      let s2 : Session = record s1 {
        inbox_path = own_inbox_path s1;
        vault_key = none;
        inbox_key = none;
      } in
      unlocked (with_inbox (load_inbox env.primitives json (inbox_of s2)) s2)

  -- HandleMasterLogin; the flag is false where the credentials are wrong, and `none` is a panic.
  unfoldable pub handle_master_login : Option (Bytes × Bytes) → Session → Option (Session × Bool)
  handle_master_login none s = some (s, false)
  handle_master_login (some (login, password)) s = elim (verify_master_credentials login password) [
    | none ↦ some (s, false)
    | some seed ↦ do
      keypair ← keypair_from_seed env.primitives keys seed
      some (switch_identity seed keypair s, true)
  ]
