-- ===== src/Store/History/Insertion.antt =====
-- internal/store: insertion sort, a function that does what sort.Slice documents.
use mathlib.Core.List.{Permᴰ}
use mathlib.Core.List.Permᴰ
use iskra.Base.{ℕ, ◌≤◌, refl, leb, if◌then◌else◌, List, [], ◌∷◌, All, arith, Bool-cases, inl, inr}
use iskra.Store.History.{Kind}
use iskra.Store.History.Sorted.{rank, IsSorted, Sorts}

module _ {M : Type 0} (kind : Kind M) where
  put : M → List M → List M
  put m [] = m ∷ []
  put m (n ∷ ns) =
      let rest = put m ns in if leb (rank kind m) (rank kind n) then m ∷ n ∷ ns else n ∷ rest

  pub sort : List M → List M
  sort [] = []
  sort (m ∷ ms) = put m (sort ms)

  put-Permᴰ : (m : M) (ns : List M) → Permᴰ (m ∷ ns) (put m ns)
  unfolding put
  put-Permᴰ m [] = Permᴰ.refl (m ∷ [])
  put-Permᴰ m (n ∷ ns) = elim (Bool-cases (leb (rank kind m) (rank kind n))) [
    | inl e ↦ rw (put, e) (Permᴰ.refl (m ∷ n ∷ ns))
    | inr e ↦ rw (put, e) (Permᴰ.trans (Permᴰ.swap refl refl) (Permᴰ.cons refl (put-Permᴰ m ns)))
  ]

  sort-Permᴰ : (ms : List M) → Permᴰ ms (sort ms)
  unfolding sort
  sort-Permᴰ [] = Permᴰ.refl []
  sort-Permᴰ (m ∷ ms) = Permᴰ.trans (Permᴰ.cons refl (sort-Permᴰ ms)) (put-Permᴰ m (sort ms))

  abbrev Later : ℕ → List M → Type 0
  Later t ns = All (λ n. t ≤ rank kind n) ns

  later : (t u : ℕ) (ns : List M) → t ≤ u → Later u ns → Later t ns
  later t u [] h l = tt
  later t u (n ∷ ns) h (a, l) = (omega arith, later t u ns h l)

  put-Later : (t : ℕ) (m : M) (ns : List M) → t ≤ rank kind m → Later t ns → Later t (put m ns)
  unfolding put
  put-Later t m [] h l = (h, tt)
  put-Later t m (n ∷ ns) h (a, l) = elim (Bool-cases (leb (rank kind m) (rank kind n))) [
    | inl e ↦ rw (put, e) (h, (a, l))
    | inr e ↦ rw (put, e) (a, put-Later t m ns h l)
  ]

  put-IsSorted : (m : M) (ns : List M) → IsSorted kind ns → IsSorted kind (put m ns)
  unfolding put
  put-IsSorted m [] s = (tt, tt)
  put-IsSorted m (n ∷ ns) (first, s) = elim (Bool-cases (leb (rank kind m) (rank kind n))) [
    | inl e ↦
        rw (put, e)
          (
            (ground (arith, e), later (rank kind m) (rank kind n) ns (ground (arith, e)) first),
            (first, s),
          )
    | inr e ↦
        rw (put, e) (put-Later (rank kind n) m ns (ground (arith, e)) first, put-IsSorted m ns s)
  ]

  sort-IsSorted : (ms : List M) → IsSorted kind (sort ms)
  unfolding sort
  sort-IsSorted [] = tt
  sort-IsSorted (m ∷ ms) = put-IsSorted m (sort ms) (sort-IsSorted ms)

  pub sort-Sorts : Sorts kind sort
  sort-Sorts = record { permutes = sort-Permᴰ; sorts = sort-IsSorted }
