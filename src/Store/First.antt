-- ===== src/Store/First.antt =====
-- internal/store: the loops of the stores that look for the first element with an id and change it,
-- take it out, or return it. The elements of a store have distinct ids.
use iskra.Base.{
  ◌≡◌, ◌∙◌, refl, inl, inr, Bool, true, false, ◌||◌, if◌then◌else◌, Option, some, none, List, [],
  ◌∷◌, ◌++◌, arith, Bool-cases,
}
use iskra.Base.Bytes.{Bytes, ◌=?◌, =?_iff}

module _ {A : Type 0} (id : A → Bytes) where
  unfoldable pub find : Bytes → List A → Option A
  find k [] = none
  find k (a ∷ xs) = elim (id a =? k) [ true ↦ some a | false ↦ find k xs ]

  unfoldable pub modify : Bytes → (A → A) → List A → List A
  modify k f [] = []
  modify k f (a ∷ xs) = elim (id a =? k) [ true ↦ f a ∷ xs | false ↦ a ∷ modify k f xs ]

  unfoldable pub drop_first : Bytes → List A → List A
  drop_first k [] = []
  drop_first k (a ∷ xs) = elim (id a =? k) [ true ↦ xs | false ↦ a ∷ drop_first k xs ]

  unfoldable pub has_id : Bytes → List A → Bool
  has_id k [] = false
  has_id k (a ∷ xs) = elim (id a =? k) [ true ↦ true | false ↦ has_id k xs ]

  abbrev pub OwnIds : List A → Type 0
  OwnIds [] = Unit
  OwnIds (a ∷ xs) = (has_id (id a) xs ≡ false) × OwnIds xs

  pub find-absent : (k : Bytes) (xs : List A) → has_id k xs ≡ false → find k xs ≡ none
  unfolding find has_id
  find-absent k [] h = refl
  find-absent k (a ∷ xs) h = ground (arith, find-absent k xs)

  pub find-none : (k : Bytes) (xs : List A) → find k xs ≡ none → has_id k xs ≡ false
  unfolding find has_id
  find-none k [] h = refl
  find-none k (a ∷ xs) h = ground (arith, find-none k xs)

  pub find-present : (k : Bytes) (xs : List A) → has_id k xs ≡ true → (a : A) × (find k xs ≡ some a)
  unfolding find has_id
  find-present k [] h = cc
  find-present k (a ∷ xs) h = elim (Bool-cases (id a =? k)) [
    | inl e ↦ rw (find, e) (a, refl)
    | inr e ↦ rw (find, e) (find-present k xs (ground (arith, h, e)))
  ]

  pub find-snoc :
      (k : Bytes) (a : A) (xs : List A)
      → find k (xs ++ a ∷ [])
        ≡ elim (find k xs) [ some b ↦ some b | none ↦ if id a =? k then some a else none ]
  unfolding find
  find-snoc k a [] = ground arith
  find-snoc k a (b ∷ xs) = ground (arith, find-snoc k a xs)

  pub has_id-snoc :
      (k : Bytes) (a : A) (xs : List A) → has_id k (xs ++ a ∷ []) ≡ (has_id k xs || id a =? k)
  unfolding has_id
  has_id-snoc k a [] = ground arith
  has_id-snoc k a (b ∷ xs) = ground (arith, has_id-snoc k a xs)

  pub snoc-OwnIds :
      (a : A) (xs : List A) → has_id (id a) xs ≡ false → OwnIds xs → OwnIds (xs ++ a ∷ [])
  unfolding has_id
  snoc-OwnIds a [] h d = (refl, tt)
  snoc-OwnIds a (b ∷ xs) h (fresh, d) = (
    rw has_id-snoc (ground (arith, h, fresh, =?_iff (id a) (id b), =?_iff (id b) (id a))),
    snoc-OwnIds a xs (ground (arith, h)) d,
  )

  pub has_id-modify :
      (k j : Bytes) (f : A → A) (xs : List A)
      → ((a : A) → id (f a) ≡ id a)
      → has_id j (modify k f xs) ≡ has_id j xs
  unfolding has_id modify
  has_id-modify k j f [] keeps = refl
  has_id-modify k j f (a ∷ xs) keeps = ground (arith, has_id-modify k j f xs keeps, keeps a)

  pub modify-OwnIds :
      (k : Bytes) (f : A → A) (xs : List A)
      → ((a : A) → id (f a) ≡ id a)
      → OwnIds xs
      → OwnIds (modify k f xs)
  unfolding modify
  modify-OwnIds k f [] keeps d = tt
  modify-OwnIds k f (a ∷ xs) keeps (fresh, d) = elim (Bool-cases (id a =? k)) [
    | inl e ↦ rw (modify, e) (rw (keeps a) fresh, d)
    | inr e ↦
        rw (modify, e) (has_id-modify k (id a) f xs keeps ∙ fresh, modify-OwnIds k f xs keeps d)
  ]

  pub find-modify :
      (k j : Bytes) (f : A → A) (xs : List A)
      → ((a : A) → id (f a) ≡ id a)
      → find j (modify k f xs)
        ≡ (if k =? j then elim (find j xs) [ none ↦ none | some a ↦ some (f a) ] else find j xs)
  unfolding find modify
  find-modify k j f [] keeps = ground arith
  find-modify k j f (a ∷ xs) keeps =
      ground
        (arith, find-modify k j f xs keeps, keeps a, =?_iff k j, =?_iff (id a) k, =?_iff (id a) j)

  pub has_id-drop_first :
      (k j : Bytes) (xs : List A) → has_id j xs ≡ false → has_id j (drop_first k xs) ≡ false
  unfolding has_id drop_first
  has_id-drop_first k j [] h = refl
  has_id-drop_first k j (a ∷ xs) h = ground (arith, has_id-drop_first k j xs)

  pub drop_first-OwnIds : (k : Bytes) (xs : List A) → OwnIds xs → OwnIds (drop_first k xs)
  unfolding drop_first
  drop_first-OwnIds k [] d = tt
  drop_first-OwnIds k (a ∷ xs) (fresh, d) = elim (Bool-cases (id a =? k)) [
    | inl e ↦ rw (drop_first, e) d
    | inr e ↦ rw (drop_first, e) (has_id-drop_first k (id a) xs fresh, drop_first-OwnIds k xs d)
  ]

  pub find-drop_first :
      (k j : Bytes) (xs : List A)
      → OwnIds xs
      → find j (drop_first k xs) ≡ (if k =? j then none else find j xs)
  unfolding find drop_first
  find-drop_first k j [] d = ground arith
  find-drop_first k j (a ∷ xs) (fresh, d) = ground (
    arith,
    find-drop_first k j xs d,
    find-absent k xs,
    fresh,
    =?_iff k j,
    =?_iff (id a) k,
    =?_iff (id a) j,
  )
