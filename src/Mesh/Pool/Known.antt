-- ===== src/Mesh/Pool/Known.antt =====
-- internal/mesh/relay_pool.go: which relays are known.
use iskra.Base.{
  ℕ, ◌+◌, ◌≡◌, ◌∙◌, ap, inl, inr, refl, Bool, true, false, ◌&&◌, ◌||◌, if◌then◌else◌, Option, some,
  none, List, [], ◌∷◌, ◌++◌, length, length-append, arith, Bool-cases,
}
use iskra.Base.Bytes.{Bytes, ◌=?◌, =?_iff, =?→eq}
use iskra.Base.Dict.{contains}
use iskra.Mesh.Pool.{
  mesh, RelayEntry, RelayPool, save, has, confirm, add, merge_loop, mark_first, mark_alive,
  check_relay, check_loop, check_all,
}

-- No address is listed twice.
abbrev pub Distinct : List RelayEntry → Type 0
Distinct [] = Unit
Distinct (e ∷ es) = (has e.url es ≡ false) × Distinct es

has-append :
    (url : Bytes) (es fs : List RelayEntry) → has url (es ++ fs) ≡ (has url es || has url fs)
unfolding has
has-append url [] fs = ground arith
has-append url (e ∷ es) fs = ground (arith, has-append url es fs)

append-Distinct :
    (es : List RelayEntry) (e : RelayEntry)
    → has e.url es ≡ false
    → Distinct es
    → Distinct (es ++ e ∷ [])
unfolding has
append-Distinct [] e h d = (refl, tt)
append-Distinct (f ∷ es) e h (fresh, d) = (
  rw has-append (ground (arith, h, fresh, =?_iff f.url e.url, =?_iff e.url f.url)),
  append-Distinct es e (ground (arith, h)) d,
)

has-confirm :
    (now : ℕ) (url source other : Bytes) (es : List RelayEntry)
    → has other (confirm now url source es) ≡ has other es
unfolding has confirm
has-confirm now url source other [] = refl
has-confirm now url source other (e ∷ es) = ground (arith, has-confirm now url source other es)

confirm-Distinct :
    (now : ℕ) (url source : Bytes) (es : List RelayEntry)
    → Distinct es
    → Distinct (confirm now url source es)
unfolding confirm
confirm-Distinct now url source [] d = tt
confirm-Distinct now url source (e ∷ es) (fresh, d) = elim (Bool-cases (e.url =? url)) [
  | inl q ↦ rw (confirm, q) (ground (arith, fresh), d)
  | inr q ↦
      rw (confirm, q)
        (has-confirm now url source e.url es ∙ fresh, confirm-Distinct now url source es d)
]

save-entries : (rp : RelayPool) → (save rp).entries ≡ rp.entries
unfolding save
save-entries rp = ground arith

abbrev unverified : ℕ → Bytes → Bytes → RelayEntry
unverified now url source = record {
  url = url;
  last_seen = 0;
  source = source;
  added_at = now;
  alive = false;
}

add_known :
    (now : ℕ) (url source : Bytes) (rp : RelayPool)
    → has url rp.entries ≡ true
    → ((add now url source rp).0.entries ≡ confirm now url source rp.entries)
      × ((add now url source rp).1 ≡ false)
unfolding add
add_known now url source rp h = rw (add, h) (refl, refl)

add_new :
    (now : ℕ) (url source : Bytes) (rp : RelayPool)
    → has url rp.entries ≡ false
    → ((add now url source rp).0.entries ≡ rp.entries ++ unverified now url source ∷ [])
      × ((add now url source rp).1 ≡ true)
unfolding add
add_new now url source rp h = rw (add, h) (save-entries _, refl)

pub add-Distinct :
    (now : ℕ) (url source : Bytes) (rp : RelayPool)
    → Distinct rp.entries
    → Distinct (add now url source rp).0.entries
add-Distinct now url source rp d = elim (Bool-cases (has url rp.entries)) [
  | inl h ↦ rw (add_known now url source rp h).0 (confirm-Distinct now url source rp.entries d)
  | inr h ↦ rw (add_new now url source rp h).0 (append-Distinct rp.entries _ h d)
]

known-has :
    (url other : Bytes) (es : List RelayEntry)
    → has url es ≡ true
    → (url =? other) ≡ true
    → has other es ≡ true
unfolding has
known-has url other es h e = ground (arith, =?_iff url other)

has-add :
    (now : ℕ) (url source other : Bytes) (rp : RelayPool)
    → has other (add now url source rp).0.entries ≡ (url =? other || has other rp.entries)
unfolding has
has-add now url source other rp = elim (Bool-cases (has url rp.entries)) [
  | inl h ↦
      rw ((add_known now url source rp h).0, has-confirm)
        (ground (arith, known-has url other rp.entries h))
  | inr h ↦ rw ((add_new now url source rp h).0, has-append) (ground arith)
]

length-confirm :
    (now : ℕ) (url source : Bytes) (es : List RelayEntry)
    → length (confirm now url source es) ≡ length es
unfolding confirm
length-confirm now url source [] = refl
length-confirm now url source (e ∷ es) = ground (arith, length-confirm now url source es)

length-add :
    (now : ℕ) (url source : Bytes) (rp : RelayPool) (n : ℕ)
    → length (add now url source rp).0.entries + n
      ≡ length rp.entries + (if (add now url source rp).1 then n + 1 else n)
length-add now url source rp n = elim (Bool-cases (has url rp.entries)) [
  | inl h ↦
      let (e, b) = add_known now url source rp h in
      rw (e, b) (omega (arith, length-confirm now url source rp.entries))
  | inr h ↦
      let (e, b) = add_new now url source rp h in
      rw (e, b) (omega (arith, length-append rp.entries (unverified now url source ∷ [])))
]

-- Merging the relays of a peer, after which the pool knows a relay exactly if it knew it before or
-- the peer named it; the number returned is the number of entries that the pool has grown by.
pub merge_loop_lem :
    (now : ℕ) (urls : List Bytes) (rp : RelayPool) (n : ℕ) (other : Bytes)
    → (has other (merge_loop now urls rp n).0.entries
        ≡ (contains other urls || has other rp.entries))
      × (length (merge_loop now urls rp n).0.entries + n
          ≡ length rp.entries + (merge_loop now urls rp n).1)
unfolding merge_loop contains
merge_loop_lem now [] rp n other = (refl, omega arith)
merge_loop_lem now (url ∷ urls) rp n other =
    let step = add now url mesh rp in
    let (known, grown) = merge_loop_lem now urls step.0 (if step.1 then n + 1 else n) other in
    (
      known ∙ rw (has-add now url mesh other rp) (ground arith),
      omega (arith, grown, length-add now url mesh rp n),
    )

mark_first-has :
    (now : ℕ) (url other : Bytes) (a : Bool) (es : List RelayEntry)
    → has other (mark_first now url a es) ≡ has other es
unfolding mark_first has
mark_first-has now url other a [] = refl
mark_first-has now url other a (e ∷ es) = ground (arith, mark_first-has now url other a es)

-- The liveness that the pool records for an address.
unfoldable pub alive_of : Bytes → List RelayEntry → Option Bool
alive_of url [] = none
alive_of url (e ∷ es) = elim (e.url =? url) [ true ↦ some e.alive | false ↦ alive_of url es ]

alive_of-mark_first :
    (now : ℕ) (url other : Bytes) (a : Bool) (es : List RelayEntry)
    → alive_of other (mark_first now url a es)
      ≡ (if url =? other && has url es then some a else alive_of other es)
unfolding alive_of mark_first has
alive_of-mark_first now url other a [] = ground arith
alive_of-mark_first now url other a (e ∷ es) = ground (
  arith,
  alive_of-mark_first now url other a es,
  =?_iff e.url url,
  =?_iff e.url other,
  =?_iff url other,
)

alive_of-unknown :
    (url : Bytes) (es : List RelayEntry) → has url es ≡ false → alive_of url es ≡ none
unfolding has alive_of
alive_of-unknown url [] h = refl
alive_of-unknown url (e ∷ es) h = ground (arith, alive_of-unknown url es)

mark_alive-entries :
    (now : ℕ) (url : Bytes) (alive : Bool) (rp : RelayPool)
    → (mark_alive now url alive rp).entries ≡ mark_first now url alive rp.entries
unfolding mark_alive
mark_alive-entries now url alive rp = save-entries _

check_loop_alive :
    (responds : Bytes → Bool) (now : ℕ) (es : List RelayEntry) (rp : RelayPool) (url : Bytes)
    → alive_of url (check_loop responds now es rp).entries ≡ (
        if has url es && has url rp.entries
        then some (check_relay responds url)
        else alive_of url rp.entries)
unfolding check_loop has
check_loop_alive responds now [] rp url = refl
check_loop_alive responds now (e ∷ es) rp url =
    let alive = check_relay responds e.url in
    check_loop_alive responds now es (mark_alive now e.url alive rp) url
    ∙ rw (mark_alive-entries now e.url alive rp, mark_first-has, alive_of-mark_first)
        (elim (Bool-cases (e.url =? url)) [
          | inl q ↦
              let same = =?→eq e.url url q in
              ground (arith, q, ap (λ u. some (check_relay responds u)) same)
          | inr q ↦ rw q (ground arith)
        ])

-- CheckAll records of every relay what its check said, and of no other address anything.
pub check_all_alive :
    (responds : Bytes → Bool) (now : ℕ) (rp : RelayPool) (url : Bytes)
    → alive_of url (check_all responds now rp).entries
      ≡ (if has url rp.entries then some (check_relay responds url) else none)
unfolding check_all
check_all_alive responds now rp url =
    check_loop_alive responds now rp.entries rp url
    ∙ ground (arith, alive_of-unknown url rp.entries)
