-- ===== src/Base/Bytes.antt =====
-- Byte strings: Go's `[]byte`, `[n]byte` and `string`. A fixed array is a list with its length as an
-- invariant, and a text is the list of its bytes.
use Prim.Native.Nat.{ℕ, zero, suc, ◌<◌}
use Prim.Native.Char.{code}
use Prim.Native.String.{String}
use mathlib.Core.Path.{◌≡◌, refl}
use mathlib.Core.Logic.{◌↔◌}
use mathlib.Core.Bool.{Bool, true, false, ◌&&◌}
use mathlib.Core.List.{List, [], ◌∷◌}
use native.Mathlib.Omega.{arith}
use iskra.Base.Tests.{◌==◌}
use iskra.Base.Lists.{length, replicate, length-replicate, All}

abbrev pub Bytes : Type 0
Bytes = List ℕ

abbrev pub IsByte : ℕ → Type 0
IsByte b = b < 256

-- The content of a `[n]byte`.
abbrev pub IsArray : ℕ → Bytes → Type 0
IsArray n bs = (length bs ≡ n) × All IsByte bs

-- The bytes of an ASCII literal.
abbrev pub codes : String → Bytes
codes String.[] = []
codes (String.◌∷◌ c s) = code c ∷ codes s

-- Go's `==` on strings and on arrays.
infix 50 ◌=?◌
unfoldable pub ◌=?◌ : Bytes → Bytes → Bool
[] =? [] = true
[] =? (b ∷ bs) = false
(x ∷ xs) =? [] = false
(x ∷ xs) =? (b ∷ bs) = x == b && xs =? bs

pub =?→eq : (xs bs : Bytes) → (xs =? bs) ≡ true → xs ≡ bs
unfolding ◌=?◌
=?→eq [] [] h = refl
=?→eq [] (b ∷ bs) h = cc
=?→eq (x ∷ xs) [] h = cc
=?→eq (x ∷ xs) (b ∷ bs) h = ground (arith, =?→eq xs bs)

pub =?_refl : (xs : Bytes) → (xs =? xs) ≡ true
unfolding ◌=?◌
=?_refl [] = refl
=?_refl (x ∷ xs) = ground (arith, =?_refl xs)

pub =?_iff : (xs bs : Bytes) → ((xs =? bs) ≡ true) ↔ (xs ≡ bs)
=?_iff xs bs = (=?→eq xs bs, λ e. rw e (=?_refl bs))

-- The zero value of `[n]byte`.
unfoldable pub zeros : ℕ → Bytes
unfolding replicate
zeros n = replicate n 0

zeros-All : (n : ℕ) → All IsByte (zeros n)
unfolding zeros
zeros-All zero = tt
zeros-All (suc n) = (omega arith, zeros-All n)

pub zeros-IsArray : (n : ℕ) → IsArray n (zeros n)
zeros-IsArray n = (unfold zeros in length-replicate n 0, zeros-All n)
