-- ===== src/Web/Lock/Attempts.antt =====
-- internal/web/api.go: how many wrong PINs HandlePINVerify takes.
use iskra.Base.{◌≡◌, Bool, not, ◌&&◌, if◌then◌else◌, Option, some, none, List, [], ◌∷◌}
use iskra.Base.Bytes.{Bytes, codes, ◌=?◌}
use iskra.Base.Dict.{Dict, lookup}
use iskra.Security.{Files, verify_pin}
use iskra.Store.Channels.{Channels}
use iskra.Store.Groups.{Groups}
use iskra.Store.Inbox.Saved.{InboxJson}
use iskra.Web.{Env, Moment}
use iskra.Web.Session.{Session, Decoy}
use iskra.Web.Lock.{is_panic, pin_verify}

abbrev pub groups_file : Option Groups → Option Bytes
groups_file none = none
groups_file (some g) = g.file

abbrev pub channels_file : Option Channels → Option Bytes
channels_file none = none
channels_file (some c) = c.file

-- A node on whose disk are the decoy and nothing else: no PIN, no file of the data directory but the
-- decoy's inbox and seed, the decoy's contacts, the messages of its hold, no groups and no channels.
pub record IsDecoy (d : Decoy) (s : Session) : Type 0 where
  pub pins : s.pins ≡ record { pin = none; attempts = none; panic_pin = none }
  pub files :
      (j : Bytes)
      → lookup j s.files ≡ (
          if codes "inbox.json" =? j
          then some d.inbox
          else if codes "seed.key" =? j
          then some d.seed
          else none)
  pub contacts : s.api.contacts.file ≡ some d.contacts
  pub hold : (j : Bytes) → lookup j s.api.hold.files ≡ lookup j d.hold
  pub groups : groups_file s.api.groups ≡ (elim s.api.groups [
    | none ↦ none
    | some _ ↦ some (codes "{\"groups\":[],\"messages\":{}}")
  ])
  pub channels : channels_file s.api.channels ≡ none

module _ (env : Env) (json : InboxJson) (argon : Bytes → Bytes → Bytes) (at : Moment)
    (d : Decoy) where
  -- Neither the PIN nor the panic PIN.
  abbrev pub is_wrong : Files → Bytes → Bool
  is_wrong f pin = not (is_panic env json argon at pin f) && not (verify_pin argon pin f)

  -- HandlePINVerify once for each PIN.
  pub guess : List Bytes → Session → Session
  guess [] s = s
  guess (pin ∷ pins) s = guess pins (pin_verify env json argon at d (some pin) s).0
