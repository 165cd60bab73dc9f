-- ===== src/Relay/Limits.antt =====
-- cmd/relay/main.go: the limits, and what connections, frames and the hourly cleanup leave of them.
use iskra.Base.{
  ltb→lt, ℕ, ◌≤◌, ◌≡◌, subst, inl, inr, Bool, true, false, ◌==◌, ltb, Option, some, none, List, [],
  ◌∷◌, ◌++◌, length, take, drop, keep, length-append, length-keep, arith, Bool-cases, Option-cases,
  All,
}
use iskra.Base.Bytes.{Bytes, zeros, ◌=?◌}
use iskra.Base.Dict.{Dict, lookup, contains, Values, insert-Values, remove-Values}
use iskra.Base.Hex.{hex}
use iskra.Relay.{
  Relay, HoldEntry, queue, save_hold, hold_max_per_uid, max_known_relays, is_fresh, fresh_hold,
  load_hold, total, cleanup_hold, cleanup_known_peers, log_hourly_stats, start_relay, every_hour,
}
use iskra.Relay.Server.{
  register, deliver_held, notify, connect, keys_of, mark_sender, count_frame, hold_frame, route,
  receive, disconnect, sync_due, is_file_chunk,
}
use iskra.Relay.Pool.{Net, valid_federation_url}

-- A queue has at most 200 entries.
abbrev pub IsShort : List HoldEntry → Type 0
IsShort entries = length entries ≤ hold_max_per_uid

-- A list without repetition.
abbrev pub Distinct : List Bytes → Type 0
Distinct [] = Unit
Distinct (u ∷ us) = (contains u us ≡ false) × Distinct us

abbrev pub IsPool : Net → List Bytes → Type 0
IsPool net urls =
    (length urls ≤ max_known_relays)
    × Distinct urls
    × All (λ u. valid_federation_url net u ≡ true) urls

abbrev pub IsStored : Option (Dict (List HoldEntry)) → Type 0
IsStored none = Unit
IsStored (some stored) = Values IsShort stored

-- Every queue is short, also in the file; the pool has at most 64 addresses, all valid, none twice.
abbrev pub IsBounded : Net → Relay → Type 0
IsBounded net r = Values IsShort r.hold × IsStored r.saved × IsPool net r.known_relays

fresh_hold-IsShort :
    (now : ℕ) (hold : Dict (List HoldEntry))
    → Values IsShort hold
    → Values IsShort (fresh_hold now hold)
unfolding fresh_hold
fresh_hold-IsShort now [] h = tt
fresh_hold-IsShort now ((k, es) ∷ hold) (s, h) =
    elim (Bool-cases (ltb 0 (length (keep (is_fresh now) es)))) [
      | inl e ↦
          rw (fresh_hold, e)
            (omega (arith, length-keep (is_fresh now) es), fresh_hold-IsShort now hold h)
      | inr e ↦ rw (fresh_hold, e) (fresh_hold-IsShort now hold h)
    ]

snoc-IsShort :
    (es : List HoldEntry) (e : HoldEntry)
    → ltb (length es) hold_max_per_uid ≡ true
    → IsShort (es ++ e ∷ [])
snoc-IsShort es e h = omega (arith, ltb→lt _ _ h, length-append es (e ∷ []))

module _ (net : Net) where
  save_hold-IsBounded :
      (writable : Bool) (r : Relay) → IsBounded net r → IsBounded net (save_hold writable r)
  unfolding save_hold
  save_hold-IsBounded true r (h, f, p) = (h, h, p)
  save_hold-IsBounded false r b = b

  load_hold-IsBounded : (now : ℕ) (r : Relay) → IsBounded net r → IsBounded net (load_hold now r)
  unfolding load_hold
  load_hold-IsBounded now r (h, f, p) = elim (Option-cases r.saved) [
    | inl e ↦ rw (load_hold, e) (h, f, p)
    | inr (stored, e) ↦ rw (load_hold, e) (fresh_hold-IsShort now stored (subst IsStored e f), f, p)
  ]

  pub start_relay-IsBounded :
      (now : ℕ) (stored : Option (Dict (List HoldEntry)))
      → IsStored stored
      → IsBounded net (start_relay now stored)
  unfolding start_relay
  start_relay-IsBounded now stored f = load_hold-IsBounded now _ (tt, f, (omega arith, tt, tt))

  deliver_held-IsBounded :
      (writable : Bool) (conn : ℕ) (uid : Bytes) (r : Relay)
      → IsBounded net r
      → IsBounded net (deliver_held writable conn uid r).0
  unfolding deliver_held
  deliver_held-IsBounded writable conn uid r (h, f, p) =
      elim (Bool-cases (ltb 0 (length (queue uid r.hold)))) [
        | inl e ↦
            rw (deliver_held, e)
              (save_hold-IsBounded writable _ (remove-Values IsShort uid r.hold h, f, p))
        | inr e ↦ rw (deliver_held, e) (remove-Values IsShort uid r.hold h, f, p)
      ]

  notify-IsBounded :
      (now : ℕ) (uid ed_pub : Bytes) (r : Relay)
      → IsBounded net r
      → IsBounded net (notify now uid ed_pub r).0
  unfolding notify
  notify-IsBounded now uid ed_pub r b = elim (Bool-cases (sync_due now (lookup uid r.last_sync))) [
    | inl e ↦ rw (notify, e) b
    | inr e ↦ rw (notify, e) b
  ]

  pub connect-IsBounded :
      (writable : Bool) (now conn : ℕ) (alias msg : Bytes) (r : Relay)
      → IsBounded net r
      → IsBounded net (connect writable now conn alias msg r).0
  unfolding connect register
  connect-IsBounded writable now conn alias msg r b = elim (Option-cases (keys_of msg)) [
    | inl e ↦ rw (connect, e) b
    | inr ((ed_pub, x25519_pub), e) ↦
        rw (connect, e)
          (notify-IsBounded now _ ed_pub _ (
            deliver_held-IsBounded writable conn _ (register now conn alias ed_pub x25519_pub r) b))
  ]

  hold_frame-IsBounded :
      (now : ℕ) (uid frame : Bytes) (r : Relay)
      → IsBounded net r
      → IsBounded net (hold_frame now uid frame r)
  unfolding hold_frame
  hold_frame-IsBounded now uid frame r (h, f, p) =
      elim (Bool-cases (ltb (length (queue uid r.hold)) hold_max_per_uid)) [
        | inl e ↦
            rw (hold_frame, e)
              (insert-Values IsShort uid _ r.hold (snoc-IsShort (queue uid r.hold) _ e) h, f, p)
        | inr e ↦ rw (hold_frame, e) (h, f, p)
      ]

  route-IsBounded :
      (writable : Bool) (now : ℕ) (uid recipient frame : Bytes) (r : Relay)
      → IsBounded net r
      → IsBounded net (route writable now uid recipient frame r).0
  unfolding route
  route-IsBounded writable now uid recipient frame r b =
      elim (Bool-cases (recipient =? zeros (length recipient))) [
        | inl e ↦ rw (route, e) b
        | inr e ↦ elim (Option-cases (lookup (hex recipient) r.clients)) [
          | inl q ↦
              rw (route, e, q)
                (save_hold-IsBounded writable _ (hold_frame-IsBounded now _ frame r b))
          | inr (target, q) ↦ rw (route, e, q) b
        ]
      ]

  pub receive-IsBounded :
      (writable : Bool) (now : ℕ) (ed_pub input : Bytes) (r : Relay)
      → IsBounded net r
      → IsBounded net (receive writable now ed_pub input r).0
  unfolding receive mark_sender count_frame
  receive-IsBounded writable now ed_pub input r b = elim (Bool-cases (ltb (length input) 20)) [
    | inl e ↦ rw (receive, e) b
    | inr e ↦ elim (Bool-cases (is_file_chunk (drop 20 input))) [
      | inl q ↦ rw (receive, e, q) b
      | inr q ↦ rw (receive, e, q) (route-IsBounded writable now _ _ _ _ b)
    ]
  ]

  pub disconnect-IsBounded :
      (conn : ℕ) (ed_pub : Bytes) (r : Relay)
      → IsBounded net r
      → IsBounded net (disconnect conn ed_pub r)
  unfolding disconnect
  disconnect-IsBounded conn ed_pub r b =
      elim (Option-cases (lookup (hex (take 20 ed_pub)) r.clients)) [
        | inl e ↦ rw (disconnect, e) b
        | inr (ci, e) ↦ elim (Bool-cases (ci.conn == conn)) [
          | inl q ↦ rw (disconnect, e, q) b
          | inr q ↦ rw (disconnect, e, q) b
        ]
      ]

  pub every_hour-IsBounded :
      (writable : Bool) (now : ℕ) (r : Relay)
      → IsBounded net r
      → IsBounded net (every_hour writable now r)
  unfolding every_hour log_hourly_stats cleanup_known_peers cleanup_hold
  every_hour-IsBounded writable now r (h, f, p) =
      elim (Bool-cases (ltb (total (fresh_hold now r.hold)) (total r.hold))) [
        | inl e ↦
            rw (cleanup_hold, e)
              (save_hold-IsBounded writable (record r { hold = fresh_hold now r.hold })
                (fresh_hold-IsShort now r.hold h, f, p))
        | inr e ↦ rw (cleanup_hold, e) (fresh_hold-IsShort now r.hold h, f, p)
      ]
