-- ===== src/Store/Hold.antt =====
-- internal/store/hold.go: the store-and-forward hold. A file `<hex id>.msg` is an entry of `files`
-- under the hex id; `saved` is the map that `_meta.json` holds. Hop counts are natural: the code
-- stores no count below 1. Files can be removed. Times are Unix seconds; the clock is an argument.
pub mod Cleanup
pub mod Sync
pub mod Kept
pub mod Lifetime
mod Examples
use iskra.Base.{
  ℕ, zero, suc, ◌+◌, ◌-◌, ◌*◌, ◌^◌, ◌≤◌, ◌<◌, ◌≡◌, Bool, true, false, ◌&&◌, ◌||◌, ◌==◌, ltb, leb,
  if◌then◌else◌, Option, some, none, List, [], ◌∷◌, ◌++◌,
}
use iskra.Base.Bytes.{Bytes, codes}
use iskra.Base.Dict.{Dict, lookup, insert, remove}
use iskra.Base.Hex.{hex}
use iskra.Message.{Message}
use iskra.Message.Wire.{Result, ok, err, serialize, deserialize}

abbrev pub default_hop_ttl : ℕ
default_hop_ttl = 10

abbrev pub default_fwd_limit : ℕ
default_fwd_limit = 15

-- in seconds
abbrev pub morgue_timeout : ℕ
morgue_timeout = 3 * 3600

abbrev pub kill_switch_ttl : ℕ
kill_switch_ttl = 30 * 24 * 3600

pub record HoldMeta : Type 0 where
  pub hop_ttl : ℕ
  pub forward_count : ℕ
  pub stored_at : ℕ
  -- an int64, as its bit pattern
  pub msg_timestamp : ℕ
  pub exhausted : Bool
  pub morgue_at : ℕ

pub record Hold : Type 0 where
  pub files : Dict Bytes
  pub meta : Dict HoldMeta
  pub saved : Dict HoldMeta

-- What the file system answers: whether a file can be written or read, and the directory listed.
pub record Disk : Type 0 where
  pub writable : Bytes → Bool
  pub readable : Bytes → Bool
  pub listable : Bool

-- saveMeta
pub save_meta : Disk → Hold → Hold
save_meta disk h = if disk.writable (codes "_meta.json") then record h { saved = h.meta } else h

pub file_name : Bytes → Bytes
file_name id_hex = id_hex ++ codes ".msg"

fresh_meta : ℕ → Message → ℕ → HoldMeta
fresh_meta now m hop_ttl = record {
  hop_ttl = hop_ttl;
  forward_count = 0;
  stored_at = now;
  msg_timestamp = m.timestamp;
  exhausted = false;
  morgue_at = 0;
}

-- StoreWithTTL; the flag is false where the error is returned.
pub store_with_ttl : Disk → ℕ → Hold → Message → ℕ → Hold × Bool
store_with_ttl disk now h m hop_ttl =
    let id_hex = hex m.id in
    elim (lookup id_hex h.meta) [
      | some _ ↦ (h, true)
      | none ↦
          if hop_ttl == 0
          then (h, true)
          else if disk.writable (file_name id_hex)
          then (
            save_meta disk (record h {
              files = insert id_hex (serialize m) h.files;
              meta = insert id_hex (fresh_meta now m hop_ttl) h.meta;
            }),
            true,
          )
          else (h, false)
    ]

-- Store
pub store : Disk → ℕ → Hold → Message → Hold × Bool
store disk now h m = store_with_ttl disk now h m default_hop_ttl

-- The author's time counts if it is a positive int64, else the time of storing.
pub origin_time : HoldMeta → ℕ
origin_time m =
    if ltb 0 m.msg_timestamp && ltb m.msg_timestamp (2 ^ 63) then m.msg_timestamp else m.stored_at

-- The two tests of cleanupLocked. A difference that is negative in Go is 0 here, and neither exceeds
-- the limit.
pub is_expired : ℕ → HoldMeta → Bool
is_expired now m =
    if ltb kill_switch_ttl (now - origin_time m)
    then true
    else ltb 0 m.morgue_at && ltb morgue_timeout (now - m.morgue_at)

-- The keys that cleanupLocked collects, and their removal.
to_delete : ℕ → Dict HoldMeta → List Bytes
to_delete now [] = []
to_delete now ((id_hex, m) ∷ rest) =
    let tail = to_delete now rest in if is_expired now m then id_hex ∷ tail else tail

delete_all : List Bytes → Hold → Hold
delete_all [] h = h
delete_all (id_hex ∷ ids) h =
    delete_all ids (record h { files = remove id_hex h.files; meta = remove id_hex h.meta })

-- cleanupLocked and Cleanup
pub cleanup_locked : ℕ → Hold → Hold
cleanup_locked now h = delete_all (to_delete now h.meta) h

pub cleanup : Disk → ℕ → Hold → Hold
cleanup disk now h = save_meta disk (cleanup_locked now h)

-- The parsed file behind a live entry, with the hop count for the receiver.
pub offer : Disk → Bytes → Bytes → HoldMeta → List (Message × ℕ) → List (Message × ℕ)
offer disk id_hex content m out =
    if disk.readable (file_name id_hex)
    then (elim (deserialize content) [ ok msg ↦ (msg, m.hop_ttl - 1) ∷ out | err _ ↦ out ])
    else out

-- The loop of GetForSync over the directory; it moves entries at the forward limit to the morgue.
sync_loop : Disk → ℕ → Dict Bytes → Dict HoldMeta → Dict HoldMeta × List (Message × ℕ)
sync_loop disk now [] meta = (meta, [])
sync_loop disk now ((id_hex, content) ∷ entries) meta = elim (lookup id_hex meta) [
  | none ↦ sync_loop disk now entries meta
  | some m ↦ elim (m.exhausted || ltb 0 m.morgue_at) [
    | true ↦ sync_loop disk now entries meta
    | false ↦ elim (leb default_fwd_limit m.forward_count) [
      | true ↦
          sync_loop disk now entries
            (insert id_hex (record m { exhausted = true; morgue_at = now }) meta)
      | false ↦
          let (meta', out) = sync_loop disk now entries meta in
          (meta', offer disk id_hex content m out)
    ]
  ]
]

-- os.ReadDir lists a directory in the order of the file names, compared byte by byte.
pub name_before : Bytes → Bytes → Bool
name_before s [] = false
name_before [] (b ∷ t) = true
name_before (a ∷ s) (b ∷ t) =
    let rest = name_before s t in if ltb a b then true else if a == b then rest else false

pub place_file : Bytes × Bytes → Dict Bytes → Dict Bytes
place_file e [] = e ∷ []
place_file e (f ∷ files) =
    let rest = place_file e files in
    if name_before (file_name f.0) (file_name e.0) then f ∷ rest else e ∷ f ∷ files

pub read_dir : Dict Bytes → Dict Bytes
read_dir [] = []
read_dir (e ∷ files) = place_file e (read_dir files)

-- GetForSync
pub get_for_sync : Disk → ℕ → Hold → Hold × List (Message × ℕ)
get_for_sync disk now h =
    let c = cleanup_locked now h in
    if disk.listable
    then (let (meta, out) = sync_loop disk now (read_dir c.files) c.meta in
        (save_meta disk (record c { meta = meta }), out))
    else (c, [])

-- The counters that MarkForwarded writes.
forwarded : ℕ → HoldMeta → HoldMeta
forwarded now m =
    let count = m.forward_count + 1 in
    if leb default_fwd_limit count
    then record m { forward_count = count; exhausted = true; morgue_at = now }
    else record m { forward_count = count }

-- MarkForwarded
pub mark_forwarded : Disk → ℕ → Bytes → Hold → Hold
mark_forwarded disk now id h = elim (lookup (hex id) h.meta) [
  | none ↦ h
  | some m ↦ save_meta disk (record h { meta = insert (hex id) (forwarded now m) h.meta })
]

-- Get; `none` stands for every error.
pub get : Disk → Hold → Bytes → Option Message
get disk h id =
    if disk.readable (file_name (hex id))
    then (elim (lookup (hex id) h.files) [
      | none ↦ none
      | some content ↦ elim (deserialize content) [ ok m ↦ some m | err _ ↦ none ]
    ])
    else none

-- Delete
pub delete : Disk → Hold → Bytes → Hold
delete disk h id =
    save_meta disk (record h { files = remove (hex id) h.files; meta = remove (hex id) h.meta })

-- Count
pub count : Dict HoldMeta → ℕ
count [] = 0
count ((id_hex, m) ∷ rest) = if m.morgue_at == 0 then suc (count rest) else count rest

-- Has
pub has : Hold → Bytes → Bool
has h id = elim (lookup (hex id) h.meta) [ none ↦ false | some _ ↦ true ]
