-- ===== src/Identity/Digits.antt =====
-- internal/identity/base58.go: digits, lowest first, and the numbers that they stand for.
use iskra.Base.{
  ℕ, zero, suc, ◌+◌, ◌*◌, ◌/◌, ◌%◌, ◌<◌, ◌≤◌, ◌≡◌, inl, inr, ◌∙◌, sym, ap, ap₂, refl, false, ◌==◌,
  List, [], ◌∷◌, ◌++◌, map, All, arith, Bool-cases, replicate, drop, ◌↔◌,
}
use mathlib.Core.List.{reverse, reverse-cons}
use native.Mathlib.Nat.{
  mod-lt, mul_comm, mod-eq_of_lt, div-eq_of_lt, add-mul-mod_self_right, add-mul-div_right,
}
use iskra.Identity.{to_digits, leading}

-- The number behind digits.
unfoldable pub value : ℕ → List ℕ → ℕ
value base [] = 0
value base (d ∷ ds) = d + base * value base ds

-- The highest digit is not 0.
abbrev pub Top : List ℕ → Type 0
Top [] = Unit
Top (d ∷ []) = 0 < d
Top (d ∷ e ∷ ds) = Top (e ∷ ds)

split : (x b : ℕ) → 0 < b → x % b + b * (x / b) ≡ x
split x b h = grind arith

smaller : (x b : ℕ) → 1 < b → 0 < x → x / b < x
smaller x b hb hx = grind arith

sum_pos : (b d v : ℕ) → 0 < b → 0 < v → 0 < d + b * v
sum_pos b d v hb hv = grind arith

tail_le : (b d v f : ℕ) → 1 < b → 0 < d + b * v → d + b * v ≤ suc f → v ≤ f
tail_le b d v f hb pos h = grind arith

low_digit : (b d v : ℕ) → d < b → ((d + b * v) % b ≡ d) × ((d + b * v) / b ≡ v)
low_digit b d v h =
    let pos : 0 < b = omega arith in
    (
      ap (λ t. (d + t) % b) (mul_comm b v) ∙ add-mul-mod_self_right d v b ∙ mod-eq_of_lt h,
      ap (λ t. (d + t) / b) (mul_comm b v)
          ∙ add-mul-div_right d v pos
          ∙ ap (λ t. t + v) (div-eq_of_lt h)
          ∙ omega arith,
    )

tail_Top : (d : ℕ) (ds : List ℕ) → Top (d ∷ ds) → Top ds
tail_Top d [] t = tt
tail_Top d (e ∷ ds) t = t

module _ (b : ℕ) (hb : 1 < b) where
  pub value-to_digits : (f x : ℕ) → x ≤ f → value b (to_digits b f x) ≡ x
  unfolding value to_digits
  value-to_digits zero x h = omega arith
  value-to_digits (suc f) x h = elim (Bool-cases (x == 0)) [
    | inl e ↦ rw (to_digits, e) (ground arith)
    | inr e ↦
        rw
          (
            to_digits,
            e,
            value,
            value-to_digits f (x / b) (omega (arith, smaller x b hb (ground arith))),
          )
          (split x b (omega arith))
  ]

  pub to_digits-All : (f x : ℕ) → All (λ d. d < b) (to_digits b f x)
  unfolding to_digits
  to_digits-All zero x = tt
  to_digits-All (suc f) x = elim (Bool-cases (x == 0)) [
    | inl e ↦ rw (to_digits, e) tt
    | inr e ↦ rw (to_digits, e) (mod-lt x (omega arith), to_digits-All f (x / b))
  ]

  value_pos : (d : ℕ) (ds : List ℕ) → Top (d ∷ ds) → 0 < value b (d ∷ ds)
  unfolding value
  value_pos d [] t = omega arith
  value_pos d (e ∷ ds) t = sum_pos b d _ (omega arith) (value_pos e ds t)

  -- Digits with a highest one are those of their number.
  pub to_digits-value :
      (f : ℕ) (ds : List ℕ)
      → All (λ d. d < b) ds
      → Top ds
      → value b ds ≤ f
      → to_digits b f (value b ds) ≡ ds
  unfolding value to_digits
  to_digits-value zero [] a t h = refl
  to_digits-value (suc f) [] a t h = refl
  to_digits-value zero (d ∷ ds) a t h = absurd (omega (arith, value_pos d ds t))
  to_digits-value (suc f) (d ∷ ds) (hd, a) t h =
      let pos = value_pos d ds t in
      let test : (value b (d ∷ ds) == 0) ≡ false = ground (arith, pos) in
      let (low, high) = low_digit b d (value b ds) hd in
      let shorter = tail_le b d (value b ds) f hb pos h in
      let ih = to_digits-value f ds a (tail_Top d ds t) shorter in
      rw (to_digits, test) (ap₂ (λ x xs. x ∷ xs) low (ap (to_digits b f) high ∙ ih))

last_digit : (x : ℕ) → (x == 0) ≡ false → 0 < x
last_digit x e = ground arith

cons_Top : (d : ℕ) (ds : List ℕ) → (ds ≡ [] → 0 < d) → Top ds → Top (d ∷ ds)
cons_Top d [] h t = h refl
cons_Top d (e ∷ ds) h t = t

module _ (b : ℕ) (hb : 1 < b) where
  pub to_digits-Top : (f x : ℕ) → x ≤ f → Top (to_digits b f x)
  unfolding to_digits value
  to_digits-Top zero x h = tt
  to_digits-Top (suc f) x h = elim (Bool-cases (x == 0)) [
    | inl e ↦ rw (to_digits, e) tt
    | inr e ↦
        let below : x / b ≤ f = omega (arith, smaller x b hb (ground arith)) in
        rw (to_digits, e)
          (cons_Top (x % b) (to_digits b f (x / b))
            (λ none_left. omega (
              arith,
              split x b (omega arith),
              ap (λ (t : ℕ). b * t)
                  (sym (value-to_digits b hb f (x / b) below) ∙ ap (value b) none_left),
              last_digit x e,
            ))
            (to_digits-Top f (x / b) below))
  ]

-- Whether a list starts with a value is settled by its first element.
leading-snoc :
    (c a b : ℕ) (l : List ℕ)
    → (leading c ((l ++ a ∷ []) ++ b ∷ []) ≡ 0) ↔ (leading c (l ++ a ∷ []) ≡ 0)
unfolding leading
leading-snoc c a b [] = ground arith
leading-snoc c a b (y ∷ ys) = ground arith

-- The highest digit stands first once the digits are reversed.
pub leading-reverse :
    (c : ℕ) (f : ℕ → ℕ) (ds : List ℕ)
    → All (λ d. f d ≡ c → d ≡ 0) ds
    → Top ds
    → leading c (reverse (map f ds)) ≡ 0
unfolding leading
leading-reverse c f [] a t = refl
leading-reverse c f (d ∷ []) (h, a) t = ground (arith, h)
leading-reverse c f (d ∷ e ∷ ds) (h, a) t =
    rw (reverse-cons, reverse-cons)
      ((leading-snoc c (f e) (f d) (reverse (map f ds))).1
        (rw (← reverse-cons (f e) (map f ds)) (leading-reverse c f (e ∷ ds) a t)))

pub Top-reverse : (ds : List ℕ) → leading 0 (reverse ds) ≡ 0 → Top ds
unfolding leading
Top-reverse [] h = tt
Top-reverse (d ∷ []) h = ground (arith, h)
Top-reverse (d ∷ e ∷ ds) h = Top-reverse (e ∷ ds) (
    rw (reverse-cons e ds)
      ((leading-snoc 0 e d (reverse ds)).0 (rw (reverse-cons d (e ∷ ds), reverse-cons e ds) at h)))

-- A list is its leading run and what follows it.
pub leading_split :
    (c : ℕ) (xs : List ℕ)
    → (replicate (leading c xs) c ++ drop (leading c xs) xs ≡ xs)
      × (leading c (drop (leading c xs) xs) ≡ 0)
unfolding leading replicate drop
leading_split c [] = (refl, refl)
leading_split c (x ∷ xs) = elim (Bool-cases (x == c)) [
  | inl e ↦
      let (whole, rest) = leading_split c xs in
      let same : x ≡ c = ground arith in rw (leading, e) (ap₂ (λ a l. a ∷ l) (sym same) whole, rest)
  | inr e ↦ rw (leading, e) (refl, rw (leading, e) refl)
]

pub leading-replicate :
    (c n : ℕ) (xs : List ℕ) → leading c xs ≡ 0 → leading c (replicate n c ++ xs) ≡ n
unfolding leading replicate
leading-replicate c zero xs h = h
leading-replicate c (suc n) xs h = ground (arith, leading-replicate c n xs h)
