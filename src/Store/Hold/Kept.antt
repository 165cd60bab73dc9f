-- ===== src/Store/Hold/Kept.antt =====
-- internal/store/hold.go: a stored message is in the hold and can be read back.
use iskra.Base.{
  ℕ, ◌≤◌, ◌<◌, ◌≡◌, ◌∙◌, ap, sym, refl, inl, inr, true, false, not, ◌||◌, ◌==◌, some, none, [],
  append-nil, length, arith, Bool-cases, Option-cases,
}
use iskra.Base.Bytes.{Bytes}
use iskra.Base.Dict.{lookup, insert, lookup-insert_self, lookup-remove_self}
use iskra.Base.Hex.{hex}
use iskra.Message.{Message, IsTyped}
use iskra.Message.Wire.{serialize, deserialize, ok, max_payload_len}
use iskra.Message.Wire.RoundTrip.{deserialize-serialize}
use iskra.Store.Hold.{
  Hold, HoldMeta, Disk, file_name, save_meta, fresh_meta, store_with_ttl, store, get, has, delete,
}

save_meta-parts :
    (disk : Disk) (h : Hold)
    → ((save_meta disk h).meta ≡ h.meta) × ((save_meta disk h).files ≡ h.files)
unfolding save_meta
save_meta-parts disk h = ground arith

-- What is written when a message is new, has a hop left and its file can be written.
stored-new :
    (disk : Disk) (now : ℕ) (h : Hold) (m : Message) (ttl : ℕ)
    → lookup (hex m.id) h.meta ≡ none
    → (ttl == 0) ≡ false
    → disk.writable (file_name (hex m.id)) ≡ true
    → ((store_with_ttl disk now h m ttl).0.meta ≡ insert (hex m.id) (fresh_meta now m ttl) h.meta)
      × ((store_with_ttl disk now h m ttl).0.files ≡ insert (hex m.id) (serialize m) h.files)
unfolding store_with_ttl
stored-new disk now h m ttl e z w = rw (store_with_ttl, e, z, w) (save_meta-parts disk _)

-- What is known already, or has no hop left, changes nothing.
stored-old :
    (disk : Disk) (now : ℕ) (h : Hold) (m : Message) (ttl : ℕ) {old : HoldMeta}
    → lookup (hex m.id) h.meta ≡ some old
    → (store_with_ttl disk now h m ttl).0 ≡ h
unfolding store_with_ttl
stored-old disk now h m ttl e = rw (store_with_ttl, e) refl

stored-none :
    (disk : Disk) (now : ℕ) (h : Hold) (m : Message) (ttl : ℕ)
    → lookup (hex m.id) h.meta ≡ none
    → (ttl == 0) ≡ true
    → (store_with_ttl disk now h m ttl).0 ≡ h
unfolding store_with_ttl
stored-none disk now h m ttl e z = rw (store_with_ttl, e, z) refl

has-some :
    (h : Hold) (m : Message) {v : HoldMeta} → lookup (hex m.id) h.meta ≡ some v → has h m.id ≡ true
unfolding has
has-some h m e = rw (has, e) refl

-- A message that was stored is in the hold if it was there before or is stored with a hop left, when
-- its file can be written.
pub has-store_with_ttl :
    (disk : Disk) (now : ℕ) (h : Hold) (m : Message) (ttl : ℕ)
    → disk.writable (file_name (hex m.id)) ≡ true
    → has (store_with_ttl disk now h m ttl).0 m.id ≡ (has h m.id || not (ttl == 0))
has-store_with_ttl disk now h m ttl w = elim (Option-cases (lookup (hex m.id) h.meta)) [
  | inr (old, e) ↦ rw (stored-old disk now h m ttl e) (ground (arith, has-some h m e))
  | inl e ↦ elim (Bool-cases (ttl == 0)) [
    | inl z ↦ rw (stored-none disk now h m ttl e z) (ground (arith, z))
    | inr z ↦
        has-some (store_with_ttl disk now h m ttl).0 m {v = fresh_meta now m ttl}
          (rw (stored-new disk now h m ttl e z w).0 (lookup-insert_self _ _ h.meta))
        ∙ ground (arith, z)
  ]
]

pub has-store :
    (disk : Disk) (now : ℕ) (h : Hold) (m : Message)
    → disk.writable (file_name (hex m.id)) ≡ true
    → has (store disk now h m).0 m.id ≡ true
unfolding store
has-store disk now h m w = has-store_with_ttl disk now h m 10 w ∙ ground arith

-- A new message that is stored with a hop left is read back whole, if its file can be written and
-- read, its fields have their Go types, its version is 2 or later and its payload at most 16 MiB.
pub get-store_with_ttl :
    (disk : Disk) (now : ℕ) (h : Hold) (m : Message) (ttl : ℕ)
    → IsTyped m
    → 2 ≤ m.version
    → length m.payload ≤ max_payload_len
    → lookup (hex m.id) h.meta ≡ none
    → 0 < ttl
    → disk.writable (file_name (hex m.id)) ≡ true
    → disk.readable (file_name (hex m.id)) ≡ true
    → get disk (store_with_ttl disk now h m ttl).0 m.id ≡ some m
unfolding get
get-store_with_ttl disk now h m ttl t v fits e pos w r =
    rw (get, r, (stored-new disk now h m ttl e (ground arith) w).1, lookup-insert_self, parsed) refl
  where
    parsed : deserialize (serialize m) ≡ ok m
    parsed = ap deserialize (sym (append-nil (serialize m))) ∙ deserialize-serialize m [] t v fits

-- Delete takes the message out, whether the map can be saved or not.
pub has-delete : (disk : Disk) (h : Hold) (id : Bytes) → has (delete disk h id) id ≡ false
unfolding has delete
has-delete disk h id = rw (has, (save_meta-parts disk _).0, lookup-remove_self) refl
