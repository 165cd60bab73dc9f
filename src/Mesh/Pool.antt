-- ===== src/Mesh/Pool.antt =====
-- internal/mesh/relay_pool.go: the list of known relays. `saved` is the content of the persistence
-- file, which the JSON package reads back as it was written; `writable` says whether the file can be
-- written. Times are Unix seconds; a negative difference in Go is 0 here, and both are below the
-- limits they are compared with. Locks are left out, and so is the log.
pub mod Known
use iskra.Base.{
  ℕ, zero, suc, ◌+◌, ◌-◌, ◌*◌, ◌<◌, ◌≡◌, Bool, true, false, not, ◌&&◌, ◌||◌, ◌==◌, ltb, leb,
  if◌then◌else◌, Option, some, none, List, [], ◌∷◌, ◌++◌, length, take, drop, keep, any,
}
use iskra.Base.Bytes.{Bytes, codes, ◌=?◌}

pub record RelayEntry : Type 0 where
  pub url : Bytes
  pub last_seen : ℕ
  pub source : Bytes
  pub added_at : ℕ
  pub alive : Bool

pub record RelayPool : Type 0 where
  pub entries : List RelayEntry
  pub saved : Option (List RelayEntry)
  pub writable : Bool

abbrev pub relay_ttl : ℕ
relay_ttl = 90 * 24 * 3600

abbrev pub builtin : Bytes
builtin = codes "builtin"

abbrev pub mesh : Bytes
mesh = codes "mesh"

-- load
unfoldable pub load : RelayPool → RelayPool
load rp = elim rp.saved [ none ↦ rp | some entries ↦ record rp { entries = entries } ]

-- save
unfoldable pub save : RelayPool → RelayPool
save rp = if rp.writable then record rp { saved = some rp.entries } else rp

-- has
unfoldable pub has : Bytes → List RelayEntry → Bool
has url [] = false
has url (e ∷ es) = elim (e.url =? url) [ true ↦ true | false ↦ has url es ]

-- The test of cleanup.
unfoldable pub is_kept : ℕ → RelayEntry → Bool
is_kept now e = e.source =? builtin || ltb (now - e.last_seen) relay_ttl

-- cleanup
unfoldable pub cleanup : ℕ → RelayPool → RelayPool
cleanup now rp = record rp { entries = keep (is_kept now) rp.entries }

-- The loop of NewRelayPool over the builtin addresses.
unfoldable pub add_builtins : ℕ → List Bytes → List RelayEntry → List RelayEntry
add_builtins now [] es = es
add_builtins now (url ∷ urls) es =
    if has url es
    then add_builtins now urls es
    else add_builtins now urls (
        es
        ++ (record { url = url; last_seen = now; source = builtin; added_at = now; alive = true })
          ∷ [])

-- NewRelayPool, given the file and whether it can be written.
unfoldable pub new_relay_pool : ℕ → Option (List RelayEntry) → Bool → List Bytes → RelayPool
new_relay_pool now file writable builtin_urls =
    let rp = load (record { entries = []; saved = file; writable = writable }) in
    save (cleanup now (record rp { entries = add_builtins now builtin_urls rp.entries }))

-- The effect of Add on a known relay: only the mesh confirms it, and only the first entry counts.
unfoldable pub confirm : ℕ → Bytes → Bytes → List RelayEntry → List RelayEntry
confirm now url source [] = []
confirm now url source (e ∷ es) = elim (e.url =? url) [
  | true ↦ (if source =? mesh then record e { last_seen = now } else e) ∷ es
  | false ↦ e ∷ confirm now url source es
]

-- Add; the flag is true for a new relay. A new one was never seen.
unfoldable pub add : ℕ → Bytes → Bytes → RelayPool → RelayPool × Bool
add now url source rp =
    if has url rp.entries
    then (record rp { entries = confirm now url source rp.entries }, false)
    else (
      save (record rp {
        entries =
            rp.entries
            ++ (record { url = url; last_seen = 0; source = source; added_at = now; alive = false })
              ∷ [];
      }),
      true,
    )

-- Remove
unfoldable pub remove : Bytes → RelayPool → RelayPool
remove url rp = save (record rp { entries = keep (λ e. not (e.url =? url)) rp.entries })

-- The addresses of the entries that pass a test.
unfoldable pub urls_of : (RelayEntry → Bool) → List RelayEntry → List Bytes
urls_of p [] = []
urls_of p (e ∷ es) = let rest = urls_of p es in if p e then e.url ∷ rest else rest

-- AliveURLs
unfoldable pub alive_urls : RelayPool → List Bytes
alive_urls rp = urls_of (λ e. e.alive) rp.entries

-- ForExchange
unfoldable pub for_exchange : ℕ → RelayPool → List Bytes
for_exchange now rp = urls_of (λ e. e.alive || ltb (now - e.last_seen) (7 * 24 * 3600)) rp.entries

-- The loop of MergeFromMesh, with the number of new relays.
unfoldable pub merge_loop : ℕ → List Bytes → RelayPool → ℕ → RelayPool × ℕ
merge_loop now [] rp added = (rp, added)
merge_loop now (url ∷ urls) rp added =
    let (rp', fresh) = add now url mesh rp in
    merge_loop now urls rp' (if fresh then added + 1 else added)

-- The change that MarkAlive makes to the first entry of an address.
unfoldable pub mark_first : ℕ → Bytes → Bool → List RelayEntry → List RelayEntry
mark_first now url alive [] = []
mark_first now url alive (e ∷ es) = elim (e.url =? url) [
  | true ↦ record e { alive = alive; last_seen = if alive then now else e.last_seen } ∷ es
  | false ↦ e ∷ mark_first now url alive es
]

-- MarkAlive
unfoldable pub mark_alive : ℕ → Bytes → Bool → RelayPool → RelayPool
mark_alive now url alive rp = save (record rp { entries = mark_first now url alive rp.entries })

-- checkRelay: `responds` is the HTTP client's answer, whether a GET returns status 200.
unfoldable pub check_relay : (Bytes → Bool) → Bytes → Bool
check_relay responds ws_url =
    if not (take 2 ws_url =? codes "ws") || ltb (length ws_url) 6
    then false
    else (let http_url = codes "https" ++ drop 3 ws_url in
        let n = length http_url in
        let host =
          if ltb 3 n && drop (n - 3) http_url =? codes "/ws"
          then take (n - 3) http_url
          else http_url in
        responds (host ++ codes "/"))

-- The loop of CheckAll over a copy of the list.
unfoldable pub check_loop : (Bytes → Bool) → ℕ → List RelayEntry → RelayPool → RelayPool
check_loop responds now [] rp = rp
check_loop responds now (e ∷ es) rp =
    check_loop responds now es (mark_alive now e.url (check_relay responds e.url) rp)

-- CheckAll
unfoldable pub check_all : (Bytes → Bool) → ℕ → RelayPool → RelayPool
check_all responds now rp = check_loop responds now rp.entries rp

-- MergeFromMesh, with the check that runs in the background behind it.
unfoldable pub merge_from_mesh : (Bytes → Bool) → ℕ → List Bytes → RelayPool → RelayPool × ℕ
merge_from_mesh responds now urls rp =
    let (rp', added) = merge_loop now urls rp 0 in
    (if ltb 0 added then check_all responds now rp' else rp', added)
