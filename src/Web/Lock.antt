-- ===== src/Web/Lock.antt =====
-- internal/web/api.go: the handlers of the PIN and of panic. `argon` is argon2.IDKey with the
-- parameters of internal/security/pin.go. A PIN is `none` where the request does not parse.
pub mod Attempts
pub mod Unlock
mod Examples
use iskra.Base.{
  ℕ, ◌+◌, ◌-◌, Bool, true, false, not, ◌&&◌, ◌||◌, ltb, leb, if◌then◌else◌, Option, some, none,
  List, [], ◌∷◌, length,
}
use iskra.Base.Bytes.{Bytes, codes, ◌=?◌}
use iskra.Security.{
  Files, has_pin, has_panic_pin, set_pin, set_panic_pin, verify_pin, verify_panic_pin, get_attempts,
  increment_attempts, reset_attempts,
}
use iskra.Store.Inbox.Saved.{InboxJson, save_inbox, load_inbox}
use iskra.Web.{Env, Moment}
use iskra.Web.Session.{
  Session, Decoy, inbox_of, with_inbox, destroy, storage_key, own_inbox_path, set_store_keys,
  unlocked,
}

-- security.MaxAttempts
abbrev pub max_attempts : ℕ
max_attempts = 5

abbrev pub attempts_file : Bytes
attempts_file = codes "attempts.dat"

-- What a handler answers.
pub data PinReply : Type 0 where
  pin_error : PinReply
  pin_ok : PinReply
  panic_ok : PinReply
  wiped : PinReply
  remaining : ℕ → PinReply

-- HandlePINStatus: locked, needs setup, attempts, and the most attempts.
unfoldable pub pin_status : Session → Bool × Bool × ℕ × ℕ
pin_status s = (s.locked, not (has_pin s.pins), get_attempts s.pins, max_attempts)

-- What crypto/rand and the file system give for a PIN and for the two files of the inbox.
pub record PinDraw : Type 0 where
  pub salt : Option Bytes
  pub pin_writable : Bool
  pub shadow_iv : Option Bytes
  pub shadow_writable : Bool

module _ (env : Env) (inbox_json : InboxJson) (argon : Bytes → Bytes → Bytes) (at : Moment) where
  -- What HandlePINSetup does once the PIN is set.
  unfoldable pub encrypt_stores : PinDraw → Bytes → Session → Session
  encrypt_stores draw pin s =
      let key = storage_key env pin s in
      let s1 : Session = record s {
        inbox_path = own_inbox_path s;
        vault_key = some key;
        inbox_key = some key;
        api = set_store_keys env at key s.api;
      } in
      unlocked (
        with_inbox
          (save_inbox env.primitives inbox_json draw.shadow_iv draw.shadow_writable at.world.iv
            at.world.writable (inbox_of s1)).0
          s1)

  -- HandlePINSetup
  unfoldable pub pin_setup : PinDraw → Option Bytes → Session → Session × PinReply
  pin_setup draw none s = (s, pin_error)
  pin_setup draw (some pin) s =
      if ltb (length pin) 4 || ltb 6 (length pin)
      then (s, pin_error)
      else (let (pins, set) = set_pin argon draw.salt draw.pin_writable pin s.pins in
          let s1 : Session = record s { pins = pins } in
          if set then (encrypt_stores draw pin s1, pin_ok) else (s1, pin_error))

  -- The end of HandlePINVerify, where the PIN was right.
  unfoldable pub open_stores : Bytes → Session → Session
  open_stores pin s =
      let key = storage_key env pin s in
      let s1 : Session = record s {
        pins = reset_attempts s.pins;
        inbox_path = own_inbox_path s;
        vault_key = some key;
        inbox_key = some key;
        api = set_store_keys env at key s.api;
      } in
      unlocked (with_inbox (load_inbox env.primitives inbox_json (inbox_of s1)) s1)

  unfoldable pub is_panic : Bytes → Files → Bool
  is_panic pin f = has_panic_pin f && verify_panic_pin argon pin f

  -- A PIN that is wrong is counted; the last attempt wipes.
  unfoldable pub count_failure : Decoy → Session → Session × PinReply
  count_failure d s =
      let (pins, count) = increment_attempts (at.writes attempts_file) s.pins in
      let s1 : Session = record s { pins = pins } in
      if leb max_attempts count
      then (destroy d s1, wiped)
      else (s1, remaining (max_attempts - count))

  -- HandlePINVerify
  unfoldable pub pin_verify : Decoy → Option Bytes → Session → Session × PinReply
  pin_verify d none s = (s, pin_error)
  pin_verify d (some pin) s =
      if leb max_attempts (get_attempts s.pins)
      then (destroy d s, wiped)
      else if is_panic pin s.pins
      then (unlocked (destroy d s), panic_ok)
      else if not (verify_pin argon pin s.pins)
      then count_failure d s
      else (open_stores pin s, pin_ok)

  -- HandlePanicPinSet
  unfoldable pub panic_pin_set : PinDraw → Option Bytes → Session → Session × PinReply
  panic_pin_set draw none s = (s, pin_error)
  panic_pin_set draw (some pin) s =
      if ltb (length pin) 4
      then (s, pin_error)
      else (let (pins, set) = set_panic_pin argon draw.salt draw.pin_writable pin s.pins in
          (record s { pins = pins }, if set then pin_ok else pin_error))

-- HandlePanic; the panic code that is set, if any, and the code of the request.
unfoldable pub handle_panic : Decoy → Bytes → Option Bytes → Session → Session × PinReply
handle_panic d panic_code none s = (s, pin_error)
handle_panic d panic_code (some code) s =
    if not (code =? (if panic_code =? [] then codes "159" else panic_code))
    then (s, pin_error)
    else (destroy d s, wiped)
