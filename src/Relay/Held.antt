-- ===== src/Relay/Held.antt =====
-- cmd/relay/main.go: what a step of the server leaves in the queue of a user who is offline.
use iskra.Base.{
  ℕ, ◌≡◌, ◌≢◌, ◌∙◌, ap, refl, inl, inr, Bool, true, false, ◌==◌, ltb, Option, some, none, List,
  ◌++◌, length, take, drop, any, any-append, arith, Bool-cases, Option-cases,
}
use iskra.Base.Bytes.{Bytes, zeros, ◌=?◌, =?_iff}
use iskra.Base.Dict.{Dict, lookup, insert, remove, lookup-insert, lookup-remove, lookup-insert_self}
use iskra.Base.Hex.{hex}
use iskra.Relay.{Relay, HoldEntry, queue, save_hold, hold_max_per_uid}
use iskra.Relay.Server.{
  register, deliver_held, notify, connect, keys_of, mark_sender, count_frame, hold_frame, route,
  receive, disconnect, sync_due, is_file_chunk,
}
use iskra.Relay.Pool.{Net, post_federation}

-- Whether a queue has an entry with the frame.
abbrev pub is_held : Bytes → List HoldEntry → Bool
is_held frame entries = any (λ e. e.frame =? frame) entries

pub save_hold-hold : (writable : Bool) (r : Relay) → (save_hold writable r).hold ≡ r.hold
unfolding save_hold
save_hold-hold true r = refl
save_hold-hold false r = refl

notify-hold : (now : ℕ) (uid ed_pub : Bytes) (r : Relay) → (notify now uid ed_pub r).0.hold ≡ r.hold
unfolding notify
notify-hold now uid ed_pub r = elim (Bool-cases (sync_due now (lookup uid r.last_sync))) [
  | inl e ↦ rw (notify, e) refl
  | inr e ↦ rw (notify, e) refl
]

deliver_held-hold :
    (writable : Bool) (conn : ℕ) (uid : Bytes) (r : Relay)
    → (deliver_held writable conn uid r).0.hold ≡ remove uid r.hold
unfolding deliver_held
deliver_held-hold writable conn uid r = elim (Bool-cases (ltb 0 (length (queue uid r.hold)))) [
  | inl e ↦ rw (deliver_held, e) (save_hold-hold writable _)
  | inr e ↦ rw (deliver_held, e) refl
]

queue-remove :
    (k uid : Bytes) (hold : Dict (List HoldEntry))
    → k ≢ uid
    → queue uid (remove k hold) ≡ queue uid hold
unfolding queue
queue-remove k uid hold n = rw (queue, lookup-remove k uid hold) (ground (arith, =?_iff k uid, n))

pub queue-connect :
    (writable : Bool) (now conn : ℕ) (alias msg ed_pub x25519_pub uid : Bytes) (r : Relay)
    → keys_of msg ≡ some (ed_pub, x25519_pub)
    → hex (take 20 ed_pub) ≢ uid
    → queue uid (connect writable now conn alias msg r).0.hold ≡ queue uid r.hold
unfolding connect register
queue-connect writable now conn alias msg ed_pub x25519_pub uid r e n =
    rw (connect, e)
      (ap (queue uid) (notify-hold now _ ed_pub _ ∙ deliver_held-hold writable conn _ _)
        ∙ queue-remove _ uid r.hold n)

pub queue-insert_self :
    (uid : Bytes) (entries : List HoldEntry) (hold : Dict (List HoldEntry))
    → queue uid (insert uid entries hold) ≡ entries
unfolding queue
queue-insert_self uid entries hold = rw (queue, lookup-insert_self uid entries hold) refl

queue-insert :
    (k uid : Bytes) (entries : List HoldEntry) (hold : Dict (List HoldEntry))
    → k ≢ uid
    → queue uid (insert k entries hold) ≡ queue uid hold
unfolding queue
queue-insert k uid entries hold n =
    rw (queue, lookup-insert k uid entries hold) (ground (arith, =?_iff k uid, n))

is_held-append :
    (frame : Bytes) (es fs : List HoldEntry)
    → is_held frame es ≡ true
    → is_held frame (es ++ fs) ≡ true
is_held-append frame es fs w = any-append _ es fs ∙ rw w refl

is_held-insert :
    (frame uid k : Bytes) (fs : List HoldEntry) (hold : Dict (List HoldEntry))
    → is_held frame (queue uid hold) ≡ true
    → is_held frame (queue uid (insert k (queue k hold ++ fs) hold)) ≡ true
is_held-insert frame uid k fs hold w = elim (Bool-cases (k =? uid)) [
  | inl q ↦
      let same = (=?_iff k uid).0 q in
      ap (λ u. is_held frame (queue uid (insert u (queue u hold ++ fs) hold))) same
      ∙ ap (is_held frame) (queue-insert_self uid _ hold)
      ∙ is_held-append frame (queue uid hold) fs w
  | inr q ↦
      ap (is_held frame) (queue-insert k uid _ hold (λ h. ground (arith, (=?_iff k uid).1 h, q)))
      ∙ w
]

-- A step that keeps the held frames of a user.
module _ (uid frame : Bytes) where
  abbrev pub Waits : Relay → Type 0
  Waits r = is_held frame (queue uid r.hold) ≡ true

  hold_frame-Waits :
      (now : ℕ) (k new : Bytes) (r : Relay) → Waits r → Waits (hold_frame now k new r)
  unfolding hold_frame
  hold_frame-Waits now k new r w =
      elim (Bool-cases (ltb (length (queue k r.hold)) hold_max_per_uid)) [
        | inr e ↦ rw (hold_frame, e) w
        | inl e ↦ rw (hold_frame, e) (is_held-insert frame uid k _ r.hold w)
      ]

  route-Waits :
      (writable : Bool) (now : ℕ) (sender recipient new : Bytes) (r : Relay)
      → Waits r
      → Waits (route writable now sender recipient new r).0
  unfolding route
  route-Waits writable now sender recipient new r w =
      elim (Bool-cases (recipient =? zeros (length recipient))) [
        | inl e ↦ rw (route, e) w
        | inr e ↦ elim (Option-cases (lookup (hex recipient) r.clients)) [
          | inl q ↦ rw (route, e, q, save_hold-hold) (hold_frame-Waits now (hex recipient) new r w)
          | inr (target, q) ↦ rw (route, e, q) w
        ]
      ]

  pub receive-Waits :
      (writable : Bool) (now : ℕ) (ed_pub input : Bytes) (r : Relay)
      → Waits r
      → Waits (receive writable now ed_pub input r).0
  unfolding receive mark_sender count_frame
  receive-Waits writable now ed_pub input r w = elim (Bool-cases (ltb (length input) 20)) [
    | inl e ↦ rw (receive, e) w
    | inr e ↦ elim (Bool-cases (is_file_chunk (drop 20 input))) [
      | inl q ↦ rw (receive, e, q) w
      | inr q ↦ rw (receive, e, q) (route-Waits writable now _ _ _ _ w)
    ]
  ]

pub disconnect-hold :
    (conn : ℕ) (ed_pub : Bytes) (r : Relay) → (disconnect conn ed_pub r).hold ≡ r.hold
unfolding disconnect
disconnect-hold conn ed_pub r = elim (Option-cases (lookup (hex (take 20 ed_pub)) r.clients)) [
  | inl e ↦ rw (disconnect, e) refl
  | inr (ci, e) ↦ elim (Bool-cases (ci.conn == conn)) [
    | inl q ↦ rw (disconnect, e, q) refl
    | inr q ↦ rw (disconnect, e, q) refl
  ]
]

pub post_federation-hold :
    (net : Net) (now : ℕ) (src_ip : Bytes) (url : Option Bytes) (r : Relay)
    → (post_federation net now src_ip url r).0.hold ≡ r.hold
unfolding post_federation
post_federation-hold net now src_ip none r = refl
post_federation-hold net now src_ip (some url) r = ground arith
