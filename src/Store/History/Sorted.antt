-- ===== src/Store/History/Sorted.antt =====
-- internal/store: a history has one message an id and is sorted by time.
use mathlib.Core.List.{Perm, Permᴰ}
use iskra.Base.{
  ℕ, ◌+◌, ◌-◌, ◌^◌, ltb, if◌then◌else◌, ◌≤◌, ◌≡◌, ◌≢◌, some-injective, ◌∙◌, ap, sym, subst, refl,
  inl, inr, false, some, none, List, [], ◌∷◌, ◌++◌, All, arith, Bool-cases,
}
use iskra.Base.Bytes.{Bytes, ◌=?◌, =?_iff}
use iskra.Base.Dict.{
  Dict, lookup, insert, remove, Values, insert-Values, remove-Values, lookup-insert_self,
  lookup-insert,
}
use iskra.Store.First.{has_id, OwnIds, snoc-OwnIds}
use iskra.Store.History.{Kind, history, stamped, add_message, add_post, last}

-- The rank of an int64, of which the bit pattern is given, in the order of the signed numbers: the
-- patterns from 2 ^ 63 on are negative and come first.
abbrev pub signed_rank : ℕ → ℕ
signed_rank t = if ltb t (2 ^ 63) then t + 2 ^ 63 else t - 2 ^ 63

module _ {M : Type 0} (kind : Kind M) where
  -- The rank of a message in the order of its time.
  abbrev pub rank : M → ℕ
  rank m = signed_rank (kind.time_of m)

  -- Sorted by time.
  abbrev pub IsSorted : List M → Type 0
  IsSorted [] = Unit
  IsSorted (m ∷ ms) = All (λ n. rank m ≤ rank n) ms × IsSorted ms

  abbrev pub IsHistory : List M → Type 0
  IsHistory ms = OwnIds kind.id_of ms × IsSorted ms

-- What sort.Slice documents: the same elements, in order.
pub record Sorts {M : Type 0} (kind : Kind M) (sort : List M → List M) : Type 0 where
  pub permutes : (ms : List M) → Permᴰ ms (sort ms)
  pub sorts : (ms : List M) → IsSorted kind (sort ms)

-- The calls that change the histories.
pub data Event (M : Type 0) : Type 0 where
  added : ℕ → Bytes → M → Event M
  posted : Bytes → M → Event M
  deleted : Bytes → Event M

unfoldable pub run :
    {M : Type 0} → Kind M → (List M → List M) → List (Event M) → Dict (List M) → Dict (List M)
run kind sort [] messages = messages
run kind sort (added now key m ∷ events) messages =
    run kind sort events (add_message kind sort now key m messages)
run kind sort (posted key m ∷ events) messages =
    run kind sort events (add_post kind sort key m messages)
run kind sort (deleted key ∷ events) messages = run kind sort events (remove key messages)

module _ {M : Type 0} (id : M → Bytes) where
  has_id-Permᴰ : (k : Bytes) {xs ys : List M} → Permᴰ xs ys → has_id id k xs ≡ has_id id k ys
  unfolding has_id
  has_id-Permᴰ k Permᴰ.nil = refl
  has_id-Permᴰ k (Permᴰ.cons {a = a} {l₁ = xs} e q) =
      ap (λ c. has_id id k (c ∷ xs)) e ∙ ground (arith, has_id-Permᴰ k q)
  has_id-Permᴰ k (Permᴰ.swap e f) = rw (e, f) (ground arith)
  has_id-Permᴰ k (Permᴰ.trans q r) = has_id-Permᴰ k q ∙ has_id-Permᴰ k r

  pub OwnIds-Permᴰ : {xs ys : List M} → Permᴰ xs ys → OwnIds id xs → OwnIds id ys
  unfolding has_id
  OwnIds-Permᴰ Permᴰ.nil d = tt
  OwnIds-Permᴰ (Permᴰ.cons {a = a} {l₂ = ys} e q) (fresh, d) = (
    subst (λ c. has_id id (id c) ys ≡ false) e (sym (has_id-Permᴰ (id a) q) ∙ fresh),
    OwnIds-Permᴰ q d,
  )
  OwnIds-Permᴰ (Permᴰ.swap {a = a} {b = b} e f) (fresh, (fresh', d)) =
      rw (sym e, sym f)
        (
          ground (arith, fresh, fresh', =?_iff (id a) (id b), =?_iff (id b) (id a)),
          (ground (arith, fresh), d),
        )
  OwnIds-Permᴰ (Permᴰ.trans q r) d = OwnIds-Permᴰ r (OwnIds-Permᴰ q d)

module _ {M : Type 0} (kind : Kind M) (sort : List M → List M) (laws : Sorts kind sort) where
  abbrev id : M → Bytes
  id = kind.id_of

  pub history-IsHistory :
      (key : Bytes) (messages : Dict (List M))
      → Values (IsHistory kind) messages
      → IsHistory kind (history key messages)
  unfolding history lookup
  history-IsHistory key [] h = (tt, tt)
  history-IsHistory key ((k, ms) ∷ messages) (hm, h) = elim (Bool-cases (k =? key)) [
    | inl e ↦ rw (history, lookup, e) hm
    | inr e ↦ rw (history, lookup, e) (history-IsHistory key messages h)
  ]

  sort-IsHistory :
      (m : M) (ms : List M)
      → has_id id (id m) ms ≡ false
      → IsHistory kind ms
      → IsHistory kind (sort (ms ++ m ∷ []))
  sort-IsHistory m ms fresh (own, s) = (
    OwnIds-Permᴰ id (laws.permutes (ms ++ m ∷ [])) (snoc-OwnIds id m ms fresh own),
    laws.sorts (ms ++ m ∷ []),
  )

  stamped-id :
      (now : ℕ) (m : M)
      → ((t : ℕ) (n : M) → id (kind.at t n) ≡ id n)
      → id (stamped kind sort now m) ≡ id m
  unfolding stamped
  stamped-id now m keeps = ground (arith, keeps now m)

  put-IsHistory :
      (key : Bytes) (m : M) (messages : Dict (List M))
      → has_id id (id m) (history key messages) ≡ false
      → Values (IsHistory kind) messages
      → Values (IsHistory kind) (insert key (sort (history key messages ++ m ∷ [])) messages)
  put-IsHistory key m messages e h =
      insert-Values (IsHistory kind) key _ messages
        (sort-IsHistory m (history key messages) e (history-IsHistory key messages h)) h

  add_post-IsHistory :
      (key : Bytes) (m : M) (messages : Dict (List M))
      → Values (IsHistory kind) messages
      → Values (IsHistory kind) (add_post kind sort key m messages)
  unfolding add_post
  add_post-IsHistory key m messages h =
      elim (Bool-cases (has_id id (id m) (history key messages))) [
        | inl e ↦ rw (add_post, e) h
        | inr e ↦ rw (add_post, e) (put-IsHistory key m messages e h)
      ]

  module _ (keeps : (t : ℕ) (n : M) → id (kind.at t n) ≡ id n) where
    add_message-IsHistory :
        (now : ℕ) (key : Bytes) (m : M) (messages : Dict (List M))
        → Values (IsHistory kind) messages
        → Values (IsHistory kind) (add_message kind sort now key m messages)
    unfolding add_message
    add_message-IsHistory now key m messages h =
        elim (Bool-cases (has_id id (id m) (history key messages))) [
          | inl e ↦ rw (add_message, e) h
          | inr e ↦
              rw (add_message, e)
                (put-IsHistory key (stamped kind sort now m) messages
                  (ap (λ k. has_id id k (history key messages)) (stamped-id now m keeps) ∙ e) h)
        ]

    -- After any sequence of AddMessage, AddPost and deletions of a history, in any order and with any
    -- messages, each history is sorted by time, times before 1970 first, and has no two messages of
    -- one id, if all histories were so before, sort.Slice sorts by the signed times, and a stamp
    -- leaves the id of a message as it is.
    pub run-IsHistory :
        (events : List (Event M)) (messages : Dict (List M))
        → Values (IsHistory kind) messages
        → Values (IsHistory kind) (run kind sort events messages)
    unfolding run
    run-IsHistory [] messages h = h
    run-IsHistory (added now key m ∷ events) messages h =
        run-IsHistory events _ (add_message-IsHistory now key m messages h)
    run-IsHistory (posted key m ∷ events) messages h =
        run-IsHistory events _ (add_post-IsHistory key m messages h)
    run-IsHistory (deleted key ∷ events) messages h =
        run-IsHistory events _ (remove-Values (IsHistory kind) key messages h)

  -- A message whose id its history does not have is added: the history then has the messages it had
  -- and the new one, which has the time of the call if it had none, and no others; the other
  -- histories stay as they are.
  pub add_message-new :
      (now : ℕ) (key other : Bytes) (m : M) (messages : Dict (List M))
      → has_id id (id m) (history key messages) ≡ false
      → key ≢ other
      → Perm
          (history key messages ++ stamped kind sort now m ∷ [])
          (history key (add_message kind sort now key m messages))
        × (history other (add_message kind sort now key m messages) ≡ history other messages)
  unfolding add_message history
  add_message-new now key other m messages e n =
      rw (add_message, e)
        (
          rw (history, lookup-insert_self)
              (∣ laws.permutes (history key messages ++ stamped kind sort now m ∷ []) ∣₁),
          rw (history, lookup-insert) (ground (arith, =?_iff key other, n)),
        )

module _ {M : Type 0} (kind : Kind M) where
  no_last : (x : M) (xs : List M) → last (x ∷ xs) ≡ none → ⊥
  unfolding last
  no_last x xs = ground arith

  last-tail : (x y : M) (ys : List M) {m : M} → last (x ∷ y ∷ ys) ≡ some m → last (y ∷ ys) ≡ some m
  unfolding last
  last-tail x y ys e = ground (arith, e, no_last y ys)

  -- The last message of a sorted history is as late as each of its messages.
  pub last-IsSorted :
      (ms : List M) (m : M)
      → IsSorted kind ms
      → last ms ≡ some m
      → All (λ n. rank kind n ≤ rank kind m) ms
  unfolding last
  last-IsSorted [] m s e = tt
  last-IsSorted (x ∷ []) m s e =
      (let q : x ≡ m = some-injective x m e in omega (arith, ap (rank kind) q), tt)
  last-IsSorted (x ∷ y ∷ ys) m (first, s) e =
      let rest = last-IsSorted (y ∷ ys) m s (last-tail x y ys e) in
      (omega (arith, first.0, rest.0), rest)
