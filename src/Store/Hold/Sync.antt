-- ===== src/Store/Hold/Sync.antt =====
-- internal/store/hold.go: which messages GetForSync offers.
use iskra.Base.{
  ℕ, ◌≡◌, ◌∙◌, ap, ap₂, sym, refl, inl, inr, true, ◌||◌, ltb, leb, if◌then◌else◌, Option, some,
  none, List, [], ◌∷◌, ◌++◌, ◌-◌, false, arith, Bool-cases, Option-cases,
}
use iskra.Base.Bytes.{Bytes, codes, ◌=?◌, =?→eq}
use iskra.Base.Dict.{Dict, lookup, insert, lookup-insert}
use iskra.Message.{Message}
use iskra.Message.Wire.{ok, err, deserialize}
use iskra.Store.Hold.{
  Hold, HoldMeta, Disk, default_fwd_limit, file_name, offer, read_dir, sync_loop, cleanup_locked,
  get_for_sync,
}

-- An entry that may be offered: not exhausted, not in the morgue, forwarded fewer than 15 times.
abbrev pub live : Option HoldMeta → Option HoldMeta
live none = none
live (some m) =
    if m.exhausted || (ltb 0 m.morgue_at || leb default_fwd_limit m.forward_count)
    then none
    else some m

-- The message in a file, if the file can be read and holds one.
abbrev pub content_of : Disk → Bytes → Bytes → Option Message
content_of disk k content =
    if disk.readable (k ++ codes ".msg")
    then (elim (deserialize content) [ err _ ↦ none | ok msg ↦ some msg ])
    else none

-- What a receiver gets for a live entry whose file holds a message: the message and one hop less.
abbrev pub offered : Option HoldMeta → Option Message → List (Message × ℕ)
offered (some m) (some msg) = (msg, m.hop_ttl - 1) ∷ []
offered (some m) none = []
offered none msg = []

-- The messages behind the live entries of a directory, in its order.
pub offers : Disk → Dict HoldMeta → Dict Bytes → List (Message × ℕ)
offers disk meta [] = []
offers disk meta ((k, content) ∷ entries) =
    offered (live (lookup k meta)) (content_of disk k content) ++ offers disk meta entries

offer_lem :
    (disk : Disk) (k content : Bytes) (m : HoldMeta) (out : List (Message × ℕ))
    → offer disk k content m out ≡ offered (some m) (content_of disk k content) ++ out
unfolding offer file_name
offer_lem disk k content m out = elim (Bool-cases (disk.readable (k ++ codes ".msg"))) [
  | inr e ↦ rw (offer, e) refl
  | inl e ↦
      rw (offer, e)
        (elim (deserialize content)
          as (λ r.
            (elim r [ ok msg ↦ (msg, m.hop_ttl - 1) ∷ out | err _ ↦ out ])
            ≡ offered (some m) (elim r [ err _ ↦ none | ok msg ↦ some msg ]) ++ out) [
              | ok msg ↦ refl
              | err x ↦ refl
            ])
]

live_some :
    (m : HoldMeta)
    → (m.exhausted || ltb 0 m.morgue_at) ≡ false
    → (if m.exhausted || (ltb 0 m.morgue_at || false) then none else some m) ≡ some m
live_some m alive = ground (arith, alive)

offers-same :
    (disk : Disk) (meta meta' : Dict HoldMeta) (entries : Dict Bytes)
    → ((k : Bytes) → live (lookup k meta) ≡ live (lookup k meta'))
    → offers disk meta entries ≡ offers disk meta' entries
unfolding offers
offers-same disk meta meta' [] h = refl
offers-same disk meta meta' ((k, content) ∷ entries) h =
    ap₂ (λ l rest. offered l (content_of disk k content) ++ rest) (h k)
      (offers-same disk meta meta' entries h)

-- Moving a spent entry to the morgue offers no less.
live-spent :
    (now : ℕ) (k j : Bytes) (m : HoldMeta) (meta : Dict HoldMeta)
    → lookup k meta ≡ some m
    → leb default_fwd_limit m.forward_count ≡ true
    → live (lookup j (insert k (record m { exhausted = true; morgue_at = now }) meta))
      ≡ live (lookup j meta)
live-spent now k j m meta e spent = elim (Bool-cases (k =? j)) [
  | inl q ↦
      rw (lookup-insert, q)
        (sym (ap live (ap (λ i. lookup i meta) (sym (=?→eq k j q)) ∙ e) ∙ ground (arith, spent)))
  | inr q ↦ rw (lookup-insert, q) refl
]

sync_loop-offers :
    (disk : Disk) (now : ℕ) (entries : Dict Bytes) (meta : Dict HoldMeta)
    → (sync_loop disk now entries meta).1 ≡ offers disk meta entries
unfolding sync_loop offers
sync_loop-offers disk now [] meta = refl
sync_loop-offers disk now ((k, content) ∷ entries) meta = elim (Option-cases (lookup k meta)) [
  | inl e ↦ rw (sync_loop, offers, e) (sync_loop-offers disk now entries meta)
  | inr (m, e) ↦ elim (Bool-cases (m.exhausted || ltb 0 m.morgue_at)) [
    | inl dead ↦
        rw (sync_loop, offers, e, dead)
          (sync_loop-offers disk now entries meta ∙ ground (arith, dead))
    | inr alive ↦ elim (Bool-cases (leb default_fwd_limit m.forward_count)) [
      | inl spent ↦
          rw (sync_loop, offers, e, alive, spent)
            (sync_loop-offers disk now entries _
              ∙ offers-same disk _ meta entries (λ j. live-spent now k j m meta e spent)
              ∙ ground (arith, spent))
      | inr more ↦
          rw (sync_loop, e, alive, more, sync_loop-offers disk now entries meta)
            (offer_lem disk k content m (offers disk meta entries)
              ∙ ap (λ l. offered l (content_of disk k content) ++ offers disk meta entries)
                  (sym (live_some m alive)))
    ]
  ]
]

-- GetForSync offers exactly the messages in the readable files that a cleanup leaves and whose
-- entries are not exhausted, not in the morgue and forwarded fewer than 15 times, in the order of
-- the file names, each with its stored hop count less one; if the directory cannot be listed, it
-- offers none.
pub get_for_sync-offers :
    (disk : Disk) (now : ℕ) (h : Hold)
    → (get_for_sync disk now h).1 ≡ (
        if disk.listable
        then offers disk (cleanup_locked now h).meta (read_dir (cleanup_locked now h).files)
        else [])
unfolding get_for_sync
get_for_sync-offers disk now h = elim (Bool-cases disk.listable) [
  | inl e ↦ simp e (
      sync_loop-offers disk now (read_dir (cleanup_locked now h).files) (cleanup_locked now h).meta)
  | inr e ↦ simp e refl
]
