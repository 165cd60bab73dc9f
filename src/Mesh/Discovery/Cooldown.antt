-- ===== src/Mesh/Discovery/Cooldown.antt =====
-- internal/mesh/discovery.go: how often onPeer is called for a peer.
use iskra.Base.{
  ℕ, ◌+◌, ◌≤◌, ◌≡◌, inl, inr, Bool, true, false, if◌then◌else◌, Option, some, none, List, [], ◌∷◌,
  ◌++◌, keep, take, arith, Bool-cases,
}
use iskra.Base.Bytes.{Bytes, ◌=?◌, =?→eq}
use iskra.Base.Dict.{lookup, lookup-insert}
use iskra.Mesh.Discovery.{
  Discovery, PeerCall, Parsed, beacon_too_short, invalid_magic, parsed, parse_beacon, cooldown_time,
  cooling, meet_peer, hear_parsed, hear_beacon, Datagram, listen,
}

-- The calls about a peer.
unfoldable pub is_about : Bytes → PeerCall → Bool
is_about k c = c.pub_key =? k

-- Calls of which the first comes at `from` or later, and each other at least the cooldown after the
-- one before.
abbrev pub Apart : ℕ → List PeerCall → Type 0
Apart from [] = Unit
Apart from (c ∷ cs) = (from ≤ c.time) × Apart (c.time + cooldown_time) cs

-- When a peer may be announced next.
unfoldable pub after_cooldown : Option ℕ → ℕ
after_cooldown none = 0
after_cooldown (some last) = last + cooldown_time

pub next_call : Bytes → Discovery → ℕ
next_call k d = after_cooldown (lookup k d.cooldown)

Apart-later : (a b : ℕ) (cs : List PeerCall) → a ≤ b → Apart b cs → Apart a cs
Apart-later a b [] le h = tt
Apart-later a b (c ∷ cs) le (first, h) = (omega arith, h)

cooled : (now : ℕ) (o : Option ℕ) → cooling now o ≡ false → after_cooldown o ≤ now
unfolding cooling after_cooldown
cooled now none h = omega arith
cooled now (some last) h = ground (arith, h)

-- A call of a peer, or none where no callback is set, that comes after the peer's cooldown.
called_Apart :
    (k : Bytes) (on : Bool) (c : PeerCall) (o : Option ℕ) (later : List PeerCall)
    → ((c.pub_key =? k) ≡ true → after_cooldown o ≤ c.time)
    → Apart (after_cooldown (if c.pub_key =? k then some c.time else o)) (keep (is_about k) later)
    → Apart (after_cooldown o) (keep (is_about k) ((if on then c ∷ [] else []) ++ later))
unfolding keep is_about after_cooldown
called_Apart k true c o later due h = elim (Bool-cases (c.pub_key =? k)) [
  | inr q ↦ rw (keep, is_about, q) (rw q at h)
  | inl q ↦ rw (keep, is_about, q) (due q, rw q at h)
]
called_Apart k false c o later due h = elim (Bool-cases (c.pub_key =? k)) [
  | inr q ↦ rw q at h
  | inl q ↦
      Apart-later (after_cooldown o) (c.time + cooldown_time) (keep (is_about k) later)
        (omega (arith, due q)) (rw q at h)
]

-- The calls of a round stand before those that follow it.
round_Apart :
    (k ip pub_key : Bytes) (now port : ℕ) (d : Discovery) (later : List PeerCall)
    → Apart (next_call k (meet_peer now ip pub_key port d).0) (keep (is_about k) later)
    → Apart (next_call k d) (keep (is_about k) ((meet_peer now ip pub_key port d).1 ++ later))
unfolding next_call meet_peer
round_Apart k ip pub_key now port d later h =
    elim (Bool-cases (cooling now (lookup pub_key d.cooldown))) [
      | inl e ↦ rw (meet_peer, e) (rw (meet_peer, e) at h)
      | inr e ↦
          rw (meet_peer, e)
            (called_Apart k d.has_on_peer _ (lookup k d.cooldown) later
              (λ q. rw (← =?→eq pub_key k q) (cooled now (lookup pub_key d.cooldown) e))
              (rw (meet_peer, e, lookup-insert) at h))
    ]

heard_Apart :
    (k ip : Bytes) (now : ℕ) (b : Parsed) (d : Discovery) (later : List PeerCall)
    → Apart (next_call k (hear_parsed now ip b d).0) (keep (is_about k) later)
    → Apart (next_call k d) (keep (is_about k) ((hear_parsed now ip b d).1 ++ later))
unfolding hear_parsed
heard_Apart k ip now (beacon_too_short n) d later h = h
heard_Apart k ip now invalid_magic d later h = h
heard_Apart k ip now (parsed pub_key port version) d later h =
    elim (Bool-cases (pub_key =? d.pub_key)) [
      | inl e ↦ rw (hear_parsed, e) (rw (hear_parsed, e) at h)
      | inr e ↦
          rw (hear_parsed, e) (round_Apart k ip pub_key now port d later (rw (hear_parsed, e) at h))
    ]

-- Whatever datagrams arrive, from whom and when, any two calls of onPeer about one peer are at
-- least two minutes apart, and the first comes no earlier than two minutes after the last one noted.
pub listen-Apart :
    (k : Bytes) (gs : List Datagram) (d : Discovery)
    → Apart (next_call k d) (keep (is_about k) (listen gs d).1)
unfolding listen hear_beacon
listen-Apart k [] d = unfold keep in tt
listen-Apart k (g ∷ gs) d =
    heard_Apart k g.ip g.time (parse_beacon (take 1024 g.content)) d
      (listen gs (hear_beacon g.time g.ip g.content d).0).1
      (listen-Apart k gs (hear_beacon g.time g.ip g.content d).0)
