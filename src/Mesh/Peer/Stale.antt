-- ===== src/Mesh/Peer/Stale.antt =====
-- internal/mesh/peer.go: what the list holds after each operation.
use iskra.Base.{
  ℕ, ◌≡◌, inl, inr, refl, Bool, false, if◌then◌else◌, Option, some, none, [], ◌∷◌, arith,
  Option-cases, Bool-cases,
}
use iskra.Base.Bytes.{Bytes, ◌=?◌, =?_iff}
use iskra.Base.Dict.{Dict, lookup, insert, lookup-insert, lookup-insert_self, Unique, insert-Unique}
use iskra.Mesh.Peer.{Peer, add_or_update, get, set_connected, is_stale, remove_stale}

-- Each entry stands under its own key, once.
pub record IsPeerList (peers : Dict Peer) : Type 0 where
  pub unique : Unique peers
  pub keyed : (k : Bytes) (p : Peer) → lookup k peers ≡ some p → p.pub_key ≡ k

-- What RemoveStale leaves of an entry.
abbrev pub survivor : ℕ → ℕ → Option Peer → Option Peer
survivor now max_age none = none
survivor now max_age (some p) = if is_stale now max_age p then none else some p

-- RemoveStale removes the peers last seen longer than the given age ago, and keeps every other as it
-- is. The map must have one entry a key.
pub lookup-remove_stale :
    (now max_age : ℕ) (peers : Dict Peer) (k : Bytes)
    → Unique peers
    → lookup k (remove_stale now max_age peers) ≡ survivor now max_age (lookup k peers)
unfolding remove_stale is_stale lookup
lookup-remove_stale now max_age [] k u = refl
lookup-remove_stale now max_age ((j, p) ∷ peers) k (fresh, u) =
    ground (arith, lookup-remove_stale now max_age peers k u, =?_iff j k, fresh)

one_of : (p q : Peer) → some p ≡ some q → p ≡ q
one_of p q e = cc

none_of : (q : Peer) → none ≡ some q → ⊥
none_of q e = cc

insert-IsPeerList :
    (k : Bytes) (p : Peer) (peers : Dict Peer)
    → p.pub_key ≡ k
    → IsPeerList peers
    → IsPeerList (insert k p peers)
insert-IsPeerList k p peers own h = record {
  unique = insert-Unique k p peers h.unique;
  keyed = λ j q. elim (Bool-cases (k =? j)) [
    | inl e ↦ rw (lookup-insert, e) (λ eq. ground (arith, one_of p q eq, own, e, =?_iff k j))
    | inr e ↦ rw (lookup-insert, e) (h.keyed j q)
  ];
}

pub add_or_update-IsPeerList :
    (now : ℕ) (k ip : Bytes) (port : ℕ) (peers : Dict Peer)
    → IsPeerList peers
    → IsPeerList (add_or_update now k ip port peers)
unfolding add_or_update
add_or_update-IsPeerList now k ip port peers h = elim (Option-cases (lookup k peers)) [
  | inl e ↦ rw (add_or_update, e) (insert-IsPeerList k _ peers refl h)
  | inr (p, e) ↦ rw (add_or_update, e) (insert-IsPeerList k _ peers (h.keyed k p e) h)
]

pub set_connected-IsPeerList :
    (k : Bytes) (c : Bool) (peers : Dict Peer)
    → IsPeerList peers
    → IsPeerList (set_connected k c peers)
unfolding set_connected
set_connected-IsPeerList k c peers h = elim (Option-cases (lookup k peers)) [
  | inl e ↦ rw (set_connected, e) h
  | inr (p, e) ↦ rw (set_connected, e) (insert-IsPeerList k _ peers (h.keyed k p e) h)
]

-- After a handshake the peer is listed with its new address, and a connection that is up stays marked
-- as up; a peer seen for the first time is not marked. In a list keyed by public key with one entry
-- a key, the peer's own key stands in its entry.
pub get-add_or_update :
    (now : ℕ) (k ip : Bytes) (port : ℕ) (peers : Dict Peer)
    → IsPeerList peers
    → get k (add_or_update now k ip port peers)
      ≡ some (record {
        pub_key = k;
        ip = ip;
        port = port;
        last_seen = now;
        connected = elim (get k peers) [ none ↦ false | some p ↦ p.connected ];
      })
unfolding add_or_update get
get-add_or_update now k ip port peers h = elim (Option-cases (lookup k peers)) [
  | inl e ↦ rw (add_or_update, e, lookup-insert_self) refl
  | inr (p, e) ↦ rw (add_or_update, e, lookup-insert_self, h.keyed k p e) refl
]
