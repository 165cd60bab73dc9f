-- ===== src/Web/Lock/Examples.antt =====
-- internal/web/api.go: the theorems on PINs at concrete inputs. The hash is the PIN, filled up to 32
-- bytes.
use iskra.Base.{◌≡◌, refl, true, false, leb, some, none, List, [], ◌∷◌, ◌++◌, take, drop}
use iskra.Base.Bytes.{Bytes, zeros, codes, ◌=?◌}
use iskra.Message.Examples.{author}
use iskra.Security.{
  matches, verify_pin, has_file, has_panic_pin, get_attempts, first_byte, pin_data,
}
use iskra.Store.Inbox.Saved.{InboxJson}
use iskra.Web.Examples.{env, moment, node}
use iskra.Web.Session.{Session, Decoy, with_inbox, unlocked}
use iskra.Web.Lock.{PinDraw, is_panic, max_attempts, pin_verify, open_stores}
use iskra.Web.Lock.Unlock.{Opened, pin_verify-Opened}

abbrev argon : Bytes → Bytes → Bytes
argon pin salt = take 32 (pin ++ zeros 32)

abbrev right : Bytes
right = codes "1234"

abbrev wrong : Bytes
wrong = codes "0000"

abbrev json : InboxJson
json = record { encode = λ d. []; decode = λ x. none }

abbrev decoy : Decoy
decoy = record { seed = zeros 32; contacts = []; inbox = []; hold = (codes "ab", zeros 8) ∷ [] }

abbrev locked : Session
locked = record {
  api = node author [];
  pins = record { pin = some (pin_data argon (zeros 16) right); attempts = none; panic_pin = none };
  files = [];
  shadow = none;
  inbox_key = none;
  inbox_path = codes "inbox.json";
  seed = zeros 32;
  vault_key = none;
  locked = true;
  opened = false;
}

abbrev draw : PinDraw
draw = record {
  salt = some (zeros 16);
  pin_writable = true;
  shadow_iv = some (zeros 24);
  shadow_writable = true;
}

unlock_example :
    Opened env json argon moment decoy locked
      (pin_verify env json argon moment decoy (some right) locked).0
    × (leb max_attempts (get_attempts locked.pins) ≡ false)
unlock_example = pin_verify-Opened env json argon moment decoy (some right) locked refl (
    unfold pin_verify is_panic has_panic_pin has_file verify_pin matches pin_data get_attempts
      first_byte open_stores unlocked with_inbox take drop zeros ◌=?◌ in
    refl)

abbrev four_wrong : List Bytes
four_wrong = wrong ∷ wrong ∷ wrong ∷ wrong ∷ []
