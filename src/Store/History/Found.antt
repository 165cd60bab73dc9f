-- ===== src/Store/History/Found.antt =====
-- internal/store: which messages are found by their ids after AddMessage and AddPost.
use mathlib.Core.List.{Permᴰ}
use iskra.Base.{
  ℕ, ◌≡◌, ◌∙◌, refl, sym, ap, inl, inr, true, false, ◌&&◌, ◌==◌, if◌then◌else◌, Option, some, none,
  List, [], ◌∷◌, ◌++◌, arith, Bool-cases,
}
use iskra.Base.Bytes.{Bytes, ◌=?◌, =?_iff, =?→eq}
use iskra.Base.Dict.{Dict, insert, lookup-insert}
use iskra.Store.First.{find, has_id, OwnIds, find-snoc, find-present, snoc-OwnIds}
use iskra.Store.History.{Kind, history, stamped, add_message, add_post}
use iskra.Store.History.Sorted.{Sorts, OwnIds-Permᴰ}

-- The message that was there stays; a new one takes a free place.
abbrev pub kept_or {ℓ} : {A : Type ℓ} → A → Option A → Option A
kept_or m none = some m
kept_or m (some old) = some old

module _ {M : Type 0} (id : M → Bytes) where
  find-Permᴰ :
      (k : Bytes) {xs ys : List M} → Permᴰ xs ys → OwnIds id xs → find id k xs ≡ find id k ys
  unfolding find has_id
  find-Permᴰ k Permᴰ.nil d = refl
  find-Permᴰ k (Permᴰ.cons {a = a} {l₁ = xs} e q) (fresh, d) =
      ap (λ c. find id k (c ∷ xs)) e ∙ ground (arith, find-Permᴰ k q d)
  find-Permᴰ k (Permᴰ.swap {a = a} {b = b} e f) (fresh, d) =
      rw (sym e, sym f)
        (ground (
          arith,
          fresh,
          =?_iff (id a) k,
          =?_iff (id b) k,
          =?_iff (id a) (id b),
          =?_iff (id b) (id a),
        ))
  find-Permᴰ k (Permᴰ.trans q r) d = find-Permᴰ k q d ∙ find-Permᴰ k r (OwnIds-Permᴰ id q d)

module _ {M : Type 0} (kind : Kind M) (sort : List M → List M) (laws : Sorts kind sort) where
  abbrev id : M → Bytes
  id = kind.id_of

  -- A new message in its history: it is found under its id, every other as before.
  find-sort :
      (k : Bytes) (m : M) (ms : List M)
      → has_id id (id m) ms ≡ false
      → OwnIds id ms
      → find id k (sort (ms ++ m ∷ []))
        ≡ (if id m =? k then kept_or m (find id k ms) else find id k ms)
  find-sort k m ms fresh own =
      sym (find-Permᴰ id k (laws.permutes (ms ++ m ∷ [])) (snoc-OwnIds id m ms fresh own))
      ∙ find-snoc id k m ms
      ∙ ground arith

  history-insert :
      (key j : Bytes) (ms : List M) (messages : Dict (List M))
      → history j (insert key ms messages) ≡ (if key =? j then ms else history j messages)
  unfolding history
  history-insert key j ms messages = rw (history, lookup-insert) (ground arith)

  -- What both do to a history, with the message as it is added.
  abbrev after : Bytes → M → Dict (List M) → Dict (List M)
  after key m messages =
      if has_id id (id m) (history key messages)
      then messages
      else insert key (sort (history key messages ++ m ∷ [])) messages

  found_already :
      (k : Bytes) (m : M) (ms : List M)
      → has_id id (id m) ms ≡ true
      → find id k ms ≡ (if id m =? k then kept_or m (find id k ms) else find id k ms)
  found_already k m ms e = elim (Bool-cases (id m =? k)) [
    | inl q ↦
        let (a, there) = find-present id (id m) ms e in
        let same : find id k ms ≡ some a =
          ap (λ i. find id i ms) (sym (=?→eq (id m) k q)) ∙ there in
        rw (q, same) refl
    | inr q ↦ rw q refl
  ]

  find-after :
      (key j k : Bytes) (m : M) (messages : Dict (List M))
      → OwnIds id (history key messages)
      → find id k (history j (after key m messages)) ≡ (
          if key =? j && id m =? k
          then kept_or m (find id k (history j messages))
          else find id k (history j messages))
  find-after key j k m messages own = elim (Bool-cases (key =? j)) [
    | inr q ↦ elim (Bool-cases (has_id id (id m) (history key messages))) [
      | inl e ↦ rw (e, q) refl
      | inr e ↦ rw (e, history-insert, q) refl
    ]
    | inl q ↦ elim (Bool-cases (has_id id (id m) (history key messages))) [
      | inl e ↦ rw (e, q, sym (=?→eq key j q)) (found_already k m (history key messages) e)
      | inr e ↦
          rw (e, history-insert, q, sym (=?→eq key j q))
            (find-sort k m (history key messages) e own)
    ]
  ]

  -- After AddPost a message is found in a history exactly if it was found before, or is the new one
  -- and stands in no way of another with its id. The history has no two messages of one id.
  pub find-add_post :
      (key j k : Bytes) (m : M) (messages : Dict (List M))
      → OwnIds id (history key messages)
      → find id k (history j (add_post kind sort key m messages)) ≡ (
          if key =? j && id m =? k
          then kept_or m (find id k (history j messages))
          else find id k (history j messages))
  unfolding add_post
  find-add_post key j k m messages own = find-after key j k m messages own

  -- So after AddMessage of a message that has a time.
  pub find-add_message :
      (now : ℕ) (key j k : Bytes) (m : M) (messages : Dict (List M))
      → OwnIds id (history key messages)
      → (kind.time_of m == 0) ≡ false
      → find id k (history j (add_message kind sort now key m messages)) ≡ (
          if key =? j && id m =? k
          then kept_or m (find id k (history j messages))
          else find id k (history j messages))
  unfolding add_message stamped
  find-add_message now key j k m messages own timed =
      rw (add_message, stamped, timed) (find-after key j k m messages own)
