-- ===== src/Base/Dict.antt =====
-- Go's `map[string]V`: an association list. Go leaves the order of iteration open; the model keeps
-- the order of insertion.
use mathlib.Core.Path.{◌≡◌}
use mathlib.Core.Bool.{Bool, true, false}
use mathlib.Core.Option.{Option, none, some}
use mathlib.Core.List.{List, [], ◌∷◌}
use iskra.Base.Lists.{All}
use native.Mathlib.Omega.{arith}
use iskra.Base.Tests.{if◌then◌else◌, Bool-cases}
use mathlib.Core.Logic.{inl, inr}
use mathlib.Core.Path.{refl}
use iskra.Base.Bytes.{Bytes, ◌=?◌, =?_iff, =?_refl}

abbrev pub Dict {ℓ} : Type ℓ → Type ℓ
Dict V = List (Bytes × V)

module _ {ℓ} {V : Type ℓ} where
  -- `v, ok := m[k]`
  unfoldable pub lookup : Bytes → Dict V → Option V
  lookup k [] = none
  lookup k ((j, v) ∷ m) = elim (j =? k) [ true ↦ some v | false ↦ lookup k m ]

  -- `m[k] = v`
  unfoldable pub insert : Bytes → V → Dict V → Dict V
  insert k v [] = (k, v) ∷ []
  insert k v ((j, w) ∷ m) = elim (j =? k) [ true ↦ (j, v) ∷ m | false ↦ (j, w) ∷ insert k v m ]

  -- `delete(m, k)`
  unfoldable pub remove : Bytes → Dict V → Dict V
  remove k [] = []
  remove k ((j, v) ∷ m) = elim (j =? k) [ true ↦ remove k m | false ↦ (j, v) ∷ remove k m ]

  pub lookup-insert :
      (k j : Bytes) (v : V) (m : Dict V)
      → lookup j (insert k v m) ≡ (if k =? j then some v else lookup j m)
  unfolding lookup insert
  lookup-insert k j v [] = ground arith
  lookup-insert k j v ((i, w) ∷ m) =
      ground (arith, =?_iff k j, =?_iff i k, =?_iff i j, lookup-insert k j v m)

  pub lookup-remove :
      (k j : Bytes) (m : Dict V) → lookup j (remove k m) ≡ (if k =? j then none else lookup j m)
  unfolding lookup remove
  lookup-remove k j [] = ground arith
  lookup-remove k j ((i, w) ∷ m) =
      ground (arith, =?_iff k j, =?_iff i k, =?_iff i j, lookup-remove k j m)

  pub lookup-insert_self : (k : Bytes) (v : V) (m : Dict V) → lookup k (insert k v m) ≡ some v
  lookup-insert_self k v m = rw (lookup-insert, =?_refl)

  pub lookup-remove_self : (k : Bytes) (m : Dict V) → lookup k (remove k m) ≡ none
  lookup-remove_self k m = rw (lookup-remove, =?_refl)

-- A map has one entry a key.
abbrev pub Unique {ℓ} : {V : Type ℓ} → Dict V → Type ℓ
Unique [] = Unit
Unique ((k, v) ∷ m) = (lookup k m ≡ none) × Unique m

module _ {ℓ} {V : Type ℓ} where
  pub insert-Unique : (k : Bytes) (v : V) (m : Dict V) → Unique m → Unique (insert k v m)
  unfolding insert
  insert-Unique k v [] u = (unfold lookup in refl, tt)
  insert-Unique k v ((j, w) ∷ m) (absent, u) = elim (Bool-cases (j =? k)) [
    | inl e ↦ rw (e, insert) (absent, u)
    | inr e ↦
        rw (e, insert)
          (
            rw (lookup-insert k j v m) (ground (arith, absent, e, =?_iff k j, =?_iff j k)),
            insert-Unique k v m u,
          )
  ]

  pub remove-Unique : (k : Bytes) (m : Dict V) → Unique m → Unique (remove k m)
  unfolding remove
  remove-Unique k [] u = tt
  remove-Unique k ((j, w) ∷ m) (absent, u) = elim (Bool-cases (j =? k)) [
    | inl e ↦ rw (e, remove) (remove-Unique k m u)
    | inr e ↦
        rw (e, remove) (rw (lookup-remove k j m) (ground (arith, absent)), remove-Unique k m u)
  ]

-- What holds of every value.
module _ {ℓ κ} {V : Type ℓ} (P : V → Type κ) where
  abbrev pub Values : Dict V → Type κ
  Values m = All (λ e. P e.1) m

  pub insert-Values : (k : Bytes) (v : V) (m : Dict V) → P v → Values m → Values (insert k v m)
  unfolding insert
  insert-Values k v [] pv h = (pv, tt)
  insert-Values k v ((j, w) ∷ m) pv (pw, h) = elim (Bool-cases (j =? k)) [
    | inl e ↦ rw (e, insert) (pv, h)
    | inr e ↦ rw (e, insert) (pw, insert-Values k v m pv h)
  ]

  pub remove-Values : (k : Bytes) (m : Dict V) → Values m → Values (remove k m)
  unfolding remove
  remove-Values k [] h = tt
  remove-Values k ((j, w) ∷ m) (pw, h) = elim (Bool-cases (j =? k)) [
    | inl e ↦ rw (e, remove) (remove-Values k m h)
    | inr e ↦ rw (e, remove) (pw, remove-Values k m h)
  ]

-- Membership in a list of keys.
unfoldable pub contains : Bytes → List Bytes → Bool
contains k [] = false
contains k (j ∷ js) = elim (j =? k) [ true ↦ true | false ↦ contains k js ]
