-- ===== src/Store/Hold/Cleanup.antt =====
-- internal/store/hold.go: cleanup removes the expired entries and no others.
use iskra.Base.{
  ℕ, ◌≡◌, refl, Bool, false, if◌then◌else◌, Option, some, none, List, [], ◌∷◌, arith, ◌∙◌,
}
use iskra.Base.Bytes.{Bytes, =?_iff}
use iskra.Base.Dict.{Dict, lookup, lookup-remove, Unique, contains}
use iskra.Store.Hold.{Hold, HoldMeta, is_expired, to_delete, delete_all, cleanup_locked}

meta-delete_all :
    (ids : List Bytes) (h : Hold) (k : Bytes)
    → lookup k (delete_all ids h).meta ≡ (if contains k ids then none else lookup k h.meta)
unfolding delete_all contains
meta-delete_all [] h k = refl
meta-delete_all (id_hex ∷ ids) h k = meta-delete_all ids _ k ∙ rw lookup-remove (ground arith)

files-delete_all :
    (ids : List Bytes) (h : Hold) (k : Bytes)
    → lookup k (delete_all ids h).files ≡ (if contains k ids then none else lookup k h.files)
unfolding delete_all contains
files-delete_all [] h k = refl
files-delete_all (id_hex ∷ ids) h k = files-delete_all ids _ k ∙ rw lookup-remove (ground arith)

-- Whether cleanup drops a key with this entry.
abbrev pub drops : ℕ → Option HoldMeta → Bool
drops now none = false
drops now (some m) = is_expired now m

contains-to_delete :
    (now : ℕ) (meta : Dict HoldMeta) (k : Bytes)
    → Unique meta
    → contains k (to_delete now meta) ≡ drops now (lookup k meta)
unfolding contains to_delete lookup
contains-to_delete now [] k u = refl
contains-to_delete now ((j, m) ∷ meta) k (fresh, u) =
    ground (arith, contains-to_delete now meta k u, =?_iff j k, fresh)

-- After a cleanup exactly the expired entries are gone, with their files; every other entry and file
-- is as it was. The map must have one entry a key.
pub cleanup_exact :
    (now : ℕ) (h : Hold) (k : Bytes)
    → Unique h.meta
    → (lookup k (cleanup_locked now h).meta
        ≡ (if drops now (lookup k h.meta) then none else lookup k h.meta))
      × (lookup k (cleanup_locked now h).files
          ≡ (if drops now (lookup k h.meta) then none else lookup k h.files))
unfolding cleanup_locked
cleanup_exact now h k u =
    rw (meta-delete_all, files-delete_all, contains-to_delete now h.meta k u) (refl, refl)
