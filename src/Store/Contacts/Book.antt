-- ===== src/Store/Contacts/Book.antt =====
-- internal/store/contacts.go: the list implements a map from users to contacts.
use iskra.Base.{
  ℕ, ◌≡◌, ◌∙◌, ap, sym, refl, inl, inr, true, false, not, ◌||◌, ltb, if◌then◌else◌, Option, some,
  none, List, [], ◌∷◌, ◌++◌, length, take, arith, Bool-cases, Option-cases,
}
use iskra.Base.Bytes.{Bytes, ◌=?◌, =?_iff, =?→eq}
use iskra.Crypto.{Primitives}
use iskra.Identity.{user_id, to_base58}
use iskra.Store.First.{
  find, modify, has_id, OwnIds, find-absent, find-none, find-present, find-snoc, snoc-OwnIds,
  find-modify, modify-OwnIds, find-drop_first, drop_first-OwnIds,
}
use iskra.Store.Contacts.{
  Contact, Contacts, Json, World, id_of, save, add, rename, delete, update_last_seen, update_x25519,
  get_by_user_id,
}

-- The calls that change the list.
pub data Call : Type 0 where
  add_contact : Bytes → Bytes → Bytes → Call
  rename_contact : Bytes → Bytes → Call
  delete_contact : Bytes → Call
  seen : Bytes → ℕ → Call
  learn_x25519 : Bytes → Bytes → Call

-- A call of the code; the one that panics leaves the list as it is.
unfoldable pub call : Primitives → Json → World → Call → Contacts → Contacts
call p json w (add_contact name ed_pub x25519_pub) c = add p json w name ed_pub x25519_pub c
call p json w (rename_contact uid name) c = (rename p json w uid name c).0
call p json w (delete_contact uid) c = (delete p json w uid c).0
call p json w (seen uid t) c = update_last_seen p json w uid t c
call p json w (learn_x25519 uid x25519) c = elim (update_x25519 p json w uid x25519 c) [
  | none ↦ c
  | some d ↦ d
]

unfoldable pub calls : Primitives → Json → List (World × Call) → Contacts → Contacts
calls p json [] c = c
calls p json ((w, k) ∷ ks) c = calls p json ks (call p json w k c)

-- What the store promises: a map, in which a call changes the entry of one user.
abbrev pub Book : Type 0
Book = Bytes → Option Contact

abbrev pub if_new : Contact → Option Contact → Option Contact
if_new new none = some new
if_new new (some old) = some old

abbrev pub change : (Contact → Contact) → Option Contact → Option Contact
change f none = none
change f (some old) = some (f old)

abbrev pub learn : ℕ → Bytes → Bytes → Option Contact → Option Contact
learn now uid x25519 (some old) = some (record old { x25519_pub = x25519 })
learn now uid x25519 none =
    if ltb (length uid) 12
    then none
    else some (record {
      name = take 12 uid;
      pub_key = [];
      x25519_pub = x25519;
      user_id = uid;
      added_at = now;
      last_seen = now;
    })

abbrev pub gone : Option Contact → Option Contact
gone o = none

-- The user a call is about, and what becomes of the user's entry.
abbrev pub about : Call → Bytes
about (add_contact name ed_pub x25519_pub) = user_id ed_pub
about (rename_contact uid name) = uid
about (delete_contact uid) = uid
about (seen uid t) = uid
about (learn_x25519 uid x25519) = uid

abbrev pub effect : ℕ → Call → Option Contact → Option Contact
effect now (add_contact name ed_pub x25519_pub) = if_new (record {
  name = name;
  pub_key = to_base58 ed_pub;
  x25519_pub = to_base58 x25519_pub;
  user_id = user_id ed_pub;
  added_at = now;
  last_seen = 0;
})
effect now (rename_contact uid name) = change (λ ct. record ct { name = name })
effect now (delete_contact uid) = gone
effect now (seen uid t) = change (λ ct. record ct { last_seen = t })
effect now (learn_x25519 uid x25519) = learn now uid x25519

abbrev pub apply : ℕ → Call → Book → Book
apply now k b j = if about k =? j then effect now k (b j) else b j

abbrev pub apply_all : List (World × Call) → Book → Book
apply_all [] b = b
apply_all ((w, k) ∷ ks) b = apply_all ks (apply w.now k b)

module _ (p : Primitives) (json : Json) where
  save-contacts : (w : World) (c : Contacts) → (save p json w c).0.contacts ≡ c.contacts
  unfolding save
  save-contacts w c = ground arith

  -- One call of the code is one step of the map, and keeps the users apart.
  abbrev Simulates : World → Call → List Contact → List Contact → Type 0
  Simulates w k before after =
      OwnIds id_of after
      × ((j : Bytes) → find id_of j after ≡ apply w.now k (λ i. find id_of i before) j)

  changed :
      (w : World) (uid : Bytes) (f : Contact → Contact) (cs : List Contact) (j : Bytes)
      → ((ct : Contact) → (f ct).user_id ≡ ct.user_id)
      → find id_of j (modify id_of uid f cs)
        ≡ (if uid =? j then change f (find id_of j cs) else find id_of j cs)
  changed w uid f cs j keeps = find-modify id_of uid j f cs keeps ∙ ground arith

  unchanged :
      (uid : Bytes) (f : Contact → Contact) (cs : List Contact) (j : Bytes)
      → has_id id_of uid cs ≡ false
      → find id_of j cs ≡ (if uid =? j then change f (find id_of j cs) else find id_of j cs)
  unchanged uid f cs j e = ground (arith, find-absent id_of j cs, =?_iff uid j, e)

  appended :
      (new : Contact) (cs : List Contact) (j : Bytes)
      → find id_of j (cs ++ new ∷ [])
        ≡ (if new.user_id =? j then if_new new (find id_of j cs) else find id_of j cs)
  appended new cs j = find-snoc id_of j new cs ∙ ground arith

  present :
      (new : Contact) (cs : List Contact) (j : Bytes)
      → has_id id_of new.user_id cs ≡ true
      → find id_of j cs
        ≡ (if new.user_id =? j then if_new new (find id_of j cs) else find id_of j cs)
  present new cs j h =
      let (old, e) = find-present id_of new.user_id cs h in ground (arith, e, =?_iff new.user_id j)

  add-Simulates :
      (w : World) (name ed_pub x25519_pub : Bytes) (c : Contacts)
      → OwnIds id_of c.contacts
      → Simulates w
          (add_contact name ed_pub x25519_pub)
          c.contacts
          (add p json w name ed_pub x25519_pub c).contacts
  unfolding add
  add-Simulates w name ed_pub x25519_pub c own =
      elim (Bool-cases (has_id id_of (user_id ed_pub) c.contacts)) [
        | inl e ↦ rw (add, e) (own, λ j. present _ c.contacts j e)
        | inr e ↦
            rw (add, e, save-contacts)
              (snoc-OwnIds id_of _ c.contacts e own, λ j. appended _ c.contacts j)
      ]

  rename-Simulates :
      (w : World) (uid name : Bytes) (c : Contacts)
      → OwnIds id_of c.contacts
      → Simulates w (rename_contact uid name) c.contacts (rename p json w uid name c).0.contacts
  unfolding rename
  rename-Simulates w uid name c own = elim (Bool-cases (has_id id_of uid c.contacts)) [
    | inl e ↦
        rw (rename, e, save-contacts)
          (
            modify-OwnIds id_of uid _ c.contacts (λ ct. refl) own,
            λ j. changed w uid _ c.contacts j (λ ct. refl),
          )
    | inr e ↦ rw (rename, e) (own, λ j. unchanged uid _ c.contacts j e)
  ]

  delete-Simulates :
      (w : World) (uid : Bytes) (c : Contacts)
      → OwnIds id_of c.contacts
      → Simulates w (delete_contact uid) c.contacts (delete p json w uid c).0.contacts
  unfolding delete
  delete-Simulates w uid c own = elim (Bool-cases (has_id id_of uid c.contacts)) [
    | inl e ↦
        rw (delete, e, save-contacts)
          (
            drop_first-OwnIds id_of uid c.contacts own,
            λ j. find-drop_first id_of uid j c.contacts own,
          )
    | inr e ↦
        rw (delete, e) (own, λ j. ground (arith, find-absent id_of uid c.contacts e, =?_iff uid j))
  ]

  seen-Simulates :
      (w : World) (uid : Bytes) (t : ℕ) (c : Contacts)
      → OwnIds id_of c.contacts
      → Simulates w (seen uid t) c.contacts (update_last_seen p json w uid t c).contacts
  unfolding update_last_seen
  seen-Simulates w uid t c own = elim (Bool-cases (has_id id_of uid c.contacts)) [
    | inl e ↦
        rw (update_last_seen, e, save-contacts)
          (
            modify-OwnIds id_of uid _ c.contacts (λ ct. refl) own,
            λ j. changed w uid _ c.contacts j (λ ct. refl),
          )
    | inr e ↦ rw (update_last_seen, e) (own, λ j. unchanged uid _ c.contacts j e)
  ]

  -- A key that is known already is learnt without a change.
  learn_known :
      (now : ℕ) (uid x25519 : Bytes) (cs : List Contact) (j : Bytes) {old : Contact}
      → find id_of uid cs ≡ some old
      → old.x25519_pub ≡ x25519
      → find id_of j cs
        ≡ (if uid =? j then learn now uid x25519 (find id_of j cs) else find id_of j cs)
  learn_known now uid x25519 cs j {old = old} e same = elim (Bool-cases (uid =? j)) [
    | inr q ↦ rw q refl
    | inl q ↦ rw (q, sym (=?→eq uid j q), e) (ap (λ k. some (record old { x25519_pub = k })) same)
  ]

  learn-Simulates :
      (w : World) (uid x25519 : Bytes) (c : Contacts)
      → OwnIds id_of c.contacts
      → Simulates w
          (learn_x25519 uid x25519)
          c.contacts
          (call p json w (learn_x25519 uid x25519) c).contacts
  unfolding call update_x25519
  learn-Simulates w uid x25519 c own = elim (Option-cases (find id_of uid c.contacts)) [
    | inl e ↦ elim (Bool-cases (ltb (length uid) 12)) [
      | inl q ↦ rw (call, update_x25519, e, q) (own, λ j. ground (arith, e, q, =?_iff uid j))
      | inr q ↦
          rw (call, update_x25519, e, q, save-contacts)
            (
              snoc-OwnIds id_of _ c.contacts (find-none id_of uid c.contacts e) own,
              λ j. appended _ c.contacts j ∙ ground (arith, e, q, =?_iff uid j),
            )
    ]
    | inr (old, e) ↦ elim (Bool-cases (old.x25519_pub =? [] || not (old.x25519_pub =? x25519))) [
      | inl q ↦
          rw (call, update_x25519, e, q, save-contacts)
            (
              modify-OwnIds id_of uid _ c.contacts (λ ct. refl) own,
              λ j. changed w uid _ c.contacts j (λ ct. refl) ∙ ground (arith, e, =?_iff uid j),
            )
      | inr q ↦
          rw (call, update_x25519, e, q)
            (
              own,
              λ j.
                  learn_known w.now uid x25519 c.contacts j e
                    (=?→eq old.x25519_pub x25519 (ground (arith, q))),
            )
    ]
  ]

  call-Simulates :
      (w : World) (k : Call) (c : Contacts)
      → OwnIds id_of c.contacts
      → Simulates w k c.contacts (call p json w k c).contacts
  unfolding call
  call-Simulates w (add_contact name ed_pub x25519_pub) c own =
      add-Simulates w name ed_pub x25519_pub c own
  call-Simulates w (rename_contact uid name) c own = rename-Simulates w uid name c own
  call-Simulates w (delete_contact uid) c own = delete-Simulates w uid c own
  call-Simulates w (seen uid t) c own = seen-Simulates w uid t c own
  call-Simulates w (learn_x25519 uid x25519) c own = learn-Simulates w uid x25519 c own

apply_all-ext :
    (ks : List (World × Call)) (b d : Book) (j : Bytes)
    → ((i : Bytes) → b i ≡ d i)
    → apply_all ks b j ≡ apply_all ks d j
apply_all-ext [] b d j h = h j
apply_all-ext ((w, k) ∷ ks) b d j h =
    apply_all-ext ks (apply w.now k b) (apply w.now k d) j (λ i. rw (h i) refl)

-- From a list in which no two contacts have one user, any sequence of Add, Rename, Delete,
-- UpdateLastSeen and UpdateX25519, whether the file can be written or not, leaves such a list, and
-- GetByUserID then finds of every user what the same calls make of a map from users to contacts.
pub calls_refine :
    (p : Primitives) (json : Json) (ks : List (World × Call)) (c : Contacts) (j : Bytes)
    → OwnIds id_of c.contacts
    → OwnIds id_of (calls p json ks c).contacts
      × (get_by_user_id j (calls p json ks c) ≡ apply_all ks (λ i. get_by_user_id i c) j)
unfolding calls get_by_user_id
calls_refine p json [] c j own = (own, refl)
calls_refine p json ((w, k) ∷ ks) c j own =
    let (own', step) = call-Simulates p json w k c own in
    let (own'', rest) = calls_refine p json ks (call p json w k c) j own' in
    (own'', rest ∙ apply_all-ext ks _ _ j step)
