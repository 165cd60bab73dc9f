-- ===== src/Web/Lock/Unlock.antt =====
-- internal/web/api.go: what unlocks a node.
use iskra.Base.{
  ◌≤◌, ◌≡◌, ◌∙◌, refl, sym, inl, inr, Bool, true, false, ◌||◌, ltb, leb, Option, some, none, length,
  arith, Bool-cases,
}
use iskra.Base.Bytes.{Bytes}
use iskra.Security.{get_attempts, verify_pin}
use iskra.Store.Inbox.Saved.{InboxJson}
use iskra.Web.{Env, Moment}
use iskra.Web.Session.{
  Session, Decoy, wipe_all, generate_decoy, destroy, unlocked, storage_key, with_inbox,
}
use iskra.Web.Lock.{max_attempts, is_panic, count_failure, open_stores, pin_verify}

not_both : (b : Bool) → b ≡ true → b ≡ false → ⊥
not_both b e e' = cc

length_ok :
    (pin : Bytes)
    → 4 ≤ length pin
    → length pin ≤ 6
    → (ltb (length pin) 4 || ltb 6 (length pin)) ≡ false
length_ok pin lo hi = ground (arith, lo, hi)

module _ (env : Env) (json : InboxJson) (argon : Bytes → Bytes → Bytes) (at : Moment)
    (d : Decoy) where
  -- How a node was unlocked: with the PIN, which gives the vault key, or with the panic PIN, which
  -- wipes.
  pub data Opened (s s' : Session) : Type 0 where
    with_pin :
        (pin : Bytes)
        → verify_pin argon pin s.pins ≡ true
        → s'.vault_key ≡ some (storage_key env pin s)
        → Opened s s'
    with_panic :
        (pin : Bytes)
        → is_panic env json argon at pin s.pins ≡ true
        → s' ≡ unlocked (destroy d s)
        → Opened s s'

  count_failure-locked : (s : Session) → (count_failure env json argon at d s).0.locked ≡ s.locked
  unfolding count_failure destroy generate_decoy wipe_all
  count_failure-locked s = ground arith

  -- HandlePINVerify unlocks a locked node only for its PIN or its panic PIN, before the attempts are
  -- used up. With the PIN the vault key is the one derived from it; with the panic PIN the data
  -- directory is wiped first.
  pub pin_verify-Opened :
      (body : Option Bytes) (s : Session)
      → s.locked ≡ true
      → (pin_verify env json argon at d body s).0.locked ≡ false
      → Opened s (pin_verify env json argon at d body s).0
        × (leb max_attempts (get_attempts s.pins) ≡ false)
  unfolding pin_verify destroy generate_decoy wipe_all
  pin_verify-Opened none s shut free = absurd (not_both s.locked shut free)
  pin_verify-Opened (some pin) s shut free =
      elim (Bool-cases (leb max_attempts (get_attempts s.pins))) [
        | inl e ↦ absurd (not_both s.locked shut (rw (pin_verify, e) at free))
        | inr e ↦ elim (Bool-cases (is_panic env json argon at pin s.pins)) [
          | inl q ↦ rw (pin_verify, e, q) (with_panic pin q refl, refl)
          | inr q ↦ elim (Bool-cases (verify_pin argon pin s.pins)) [
            | inl v ↦
                rw (pin_verify, e, q, v)
                  (with_pin pin v (unfold open_stores unlocked with_inbox in refl), refl)
            | inr v ↦ absurd (
                not_both s.locked shut
                  (sym (count_failure-locked s) ∙ (rw (pin_verify, e, q, v) at free)))
          ]
        ]
      ]
