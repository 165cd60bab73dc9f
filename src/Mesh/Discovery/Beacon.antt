-- ===== src/Mesh/Discovery/Beacon.antt =====
-- internal/mesh/discovery.go: what a node makes of the beacon of another.
use iskra.Base.{
  ℕ, ◌+◌, ◌*◌, ◌^◌, ◌<◌, ◌≡◌, ◌∙◌, refl, sym, ap, inl, inr, Bool, false, not, ◌&&◌, ◌||◌, ltb,
  if◌then◌else◌, Option, some, none, Bool-cases, Option-cases, [], ◌∷◌, ◌++◌, length, length-append,
  take, drop, take_exact, drop_exact, take_all, drop-drop, arith,
}
use iskra.Base.Bytes.{Bytes, ◌=?◌}
use iskra.Base.Endian.{put_be, get_be-put_be, length-put_be}
use iskra.Base.Dict.{Dict, lookup, lookup-insert, lookup-insert_self}
use iskra.Mesh.Peer.{Peer, add_or_update}
use iskra.Mesh.Peer.Stale.{IsPeerList}
use iskra.Mesh.Discovery.{
  cooling, Discovery, parsed, make_beacon, parse_beacon, beacon_magic, meet_peer, hear_parsed,
  hear_beacon,
}

length-make_beacon :
    (now : ℕ) (d : Discovery) → length d.pub_key ≡ 32 → length (make_beacon now d) ≡ 49
unfolding make_beacon
length-make_beacon now d h = omega (
  arith,
  h,
  length-append beacon_magic (d.pub_key ++ (put_be 2 d.listen_port ++ d.version ∷ put_be 8 now)),
  length-append d.pub_key (put_be 2 d.listen_port ++ d.version ∷ put_be 8 now),
  length-append (put_be 2 d.listen_port) (d.version ∷ put_be 8 now),
  length-put_be 2 d.listen_port,
  length-put_be 8 now,
)

after_key :
    (now : ℕ) (d : Discovery)
    → length d.pub_key ≡ 32
    → drop 38 (make_beacon now d) ≡ put_be 2 d.listen_port ++ d.version ∷ put_be 8 now
unfolding make_beacon
after_key now d h =
    sym (drop-drop 32 6 (make_beacon now d))
    ∙ ap (drop 32) (drop_exact 6 beacon_magic _ refl)
    ∙ drop_exact 32 d.pub_key _ h

after_port :
    (now : ℕ) (d : Discovery)
    → length d.pub_key ≡ 32
    → drop 40 (make_beacon now d) ≡ d.version ∷ put_be 8 now
after_port now d h =
    sym (drop-drop 2 38 (make_beacon now d))
    ∙ ap (drop 2) (after_key now d h)
    ∙ drop_exact 2 (put_be 2 d.listen_port) _ (length-put_be 2 d.listen_port)

front : (now : ℕ) (d : Discovery) → take 6 (make_beacon now d) ≡ beacon_magic
unfolding make_beacon
front now d = take_exact 6 beacon_magic _ refl

key_part :
    (now : ℕ) (d : Discovery)
    → length d.pub_key ≡ 32
    → take 32 (drop 6 (make_beacon now d)) ≡ d.pub_key
unfolding make_beacon
key_part now d h = ap (take 32) (drop_exact 6 beacon_magic _ refl) ∙ take_exact 32 d.pub_key _ h

pub parse_beacon-make_beacon :
    (now : ℕ) (d : Discovery)
    → length d.pub_key ≡ 32
    → d.listen_port < 2 ^ 16
    → parse_beacon (make_beacon now d) ≡ parsed d.pub_key d.listen_port d.version
unfolding parse_beacon ◌=?◌
parse_beacon-make_beacon now d h port =
    rw
      (
        parse_beacon,
        length-make_beacon now d h,
        front now d,
        key_part now d h,
        after_key now d h,
        after_port now d h,
        take_exact 2 (put_be 2 d.listen_port) (d.version ∷ put_be 8 now)
            (length-put_be 2 d.listen_port),
        get_be-put_be 2 d.listen_port port,
      )
      refl

-- Whether a peer was announced less than two minutes ago.
abbrev pub is_recent : ℕ → Option ℕ → Bool
is_recent now none = false
is_recent now (some last) = ltb now (last + 2 * 60 * 1000000000)

-- What is known of a peer that was heard; a connection that is up stays so.
abbrev pub heard : ℕ → Bytes → Bytes → ℕ → Option Peer → Peer
heard now pub_key ip port old = record {
  pub_key = pub_key;
  ip = ip;
  port = port;
  last_seen = now;
  connected = elim old [ none ↦ false | some p ↦ p.connected ];
}

cooling_lem : (now : ℕ) (last : Option ℕ) → cooling now last ≡ is_recent now last
unfolding cooling
cooling_lem now none = refl
cooling_lem now (some last) = refl

lookup-add_or_update :
    (now : ℕ) (k ip j : Bytes) (port : ℕ) (peers : Dict Peer)
    → IsPeerList peers
    → lookup j (add_or_update now k ip port peers)
      ≡ (if k =? j then some (heard now k ip port (lookup k peers)) else lookup j peers)
unfolding add_or_update
lookup-add_or_update now k ip j port peers h = elim (Option-cases (lookup k peers)) [
  | inl e ↦ rw (add_or_update, e, lookup-insert) refl
  | inr (p, e) ↦ rw (add_or_update, e, lookup-insert, h.keyed k p e) refl
]

meet_peer_effect :
    (now : ℕ) (ip k : Bytes) (port : ℕ) (d : Discovery)
    → IsPeerList d.peers
    → let r = meet_peer now ip k port d in
      ((j : Bytes)
        → lookup j r.0.peers
          ≡ (if k =? j then some (heard now k ip port (lookup k d.peers)) else lookup j d.peers))
      × (lookup k r.0.cooldown
          ≡ (if is_recent now (lookup k d.cooldown) then lookup k d.cooldown else some now))
      × (r.1 ≡ (
          if is_recent now (lookup k d.cooldown) || not d.has_on_peer
          then []
          else record { time = now; pub_key = k; ip = ip; port = port } ∷ []))
unfolding meet_peer
meet_peer_effect now ip k port d h = elim (Bool-cases (is_recent now (lookup k d.cooldown))) [
  | inl e ↦
      rw (meet_peer, cooling_lem, e)
        (λ j. lookup-add_or_update now k ip j port d.peers h, refl, refl)
  | inr e ↦
      rw (meet_peer, cooling_lem, e)
        (
          λ j. lookup-add_or_update now k ip j port d.peers h,
          lookup-insert_self k now d.cooldown,
          ground arith,
        )
]

-- A node that reads the beacon of another, whose key has 32 bytes and whose port is below 65536,
-- lists that peer with the address it was heard from, the port it listens on and the time; every
-- other peer stays as it was. If the peer was not announced in the last two minutes, the time is
-- noted, and it is announced once if a callback is set. Of its own beacon it learns nothing. Each
-- peer must be listed under its own key, once.
pub hear_beacon-make_beacon :
    (now sent : ℕ) (ip : Bytes) (d other : Discovery)
    → length other.pub_key ≡ 32
    → other.listen_port < 2 ^ 16
    → IsPeerList d.peers
    → let r = hear_beacon now ip (make_beacon sent other) d in
      let own = other.pub_key =? d.pub_key in
      let recent = is_recent now (lookup other.pub_key d.cooldown) in
      ((j : Bytes)
        → lookup j r.0.peers ≡ (
            if not own && other.pub_key =? j
            then some (heard now other.pub_key ip other.listen_port (lookup other.pub_key d.peers))
            else lookup j d.peers))
      × (lookup other.pub_key r.0.cooldown
          ≡ (if own || recent then lookup other.pub_key d.cooldown else some now))
      × (r.1 ≡ (
          if own || (recent || not d.has_on_peer)
          then []
          else record { time = now; pub_key = other.pub_key; ip = ip; port = other.listen_port }
            ∷ []))
unfolding hear_beacon hear_parsed
hear_beacon-make_beacon now sent ip d other h port listed =
    rw
      (
        hear_beacon,
        take_all 1024 (make_beacon sent other) (omega (arith, length-make_beacon sent other h)),
        parse_beacon-make_beacon sent other h port,
      )
      (elim (Bool-cases (other.pub_key =? d.pub_key)) [
        | inl e ↦ rw (hear_parsed, e) (λ j. refl, refl, refl)
        | inr e ↦
            rw (hear_parsed, e) (meet_peer_effect now ip other.pub_key other.listen_port d listed)
      ])
