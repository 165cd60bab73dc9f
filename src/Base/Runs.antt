-- ===== src/Base/Runs.antt =====
-- Code that may panic: a result is an `Option`, and `none` is the panic.
use iskra.Base.{◌≡◌, refl, Bool, true, false, Option, some, none, ◌>>=◌, if◌then◌else◌}

-- A result that is there.
abbrev pub Runs {ℓ} : {A : Type ℓ} → Option A → Type ℓ
Runs {A = A} o = (a : A) × (o ≡ some a)

module _ {ℓ κ} {A : Type ℓ} {B : Type κ} where
  pub bind-Runs :
      (o : Option A) (f : A → Option B) → Runs o → ((a : A) → Runs (f a)) → Runs (o >>= f)
  bind-Runs none f (a, e) h = cc
  bind-Runs (some b) f (a, e) h = h b

  -- A step that only passes the panic on.
  pub then-Runs :
      (o : Option A) (f : A → B) → Runs o → Runs (elim o [ none ↦ none | some a ↦ some (f a) ])
  then-Runs none f (a, e) = cc
  then-Runs (some b) f h = (f b, refl)

pub if-Runs {ℓ} :
    {A : Type ℓ} (b : Bool) (x y : Option A) → Runs x → Runs y → Runs (if b then x else y)
if-Runs true x y hx hy = hx
if-Runs false x y hx hy = hy
