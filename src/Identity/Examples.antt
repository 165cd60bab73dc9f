-- ===== src/Identity/Examples.antt =====
-- internal/identity: the theorems at concrete inputs. The word list is a stand-in: each word is the
-- one-byte text of its index.
use iskra.Base.{
  ℕ, zero, suc, ◌<◌, ◌≡◌, ◌&&◌, ◌==◌, refl, true, false, some, none, [], ◌∷◌, List, length, get_or,
  take, arith, Bool,
}
use iskra.Base.Bytes.{Bytes, ◌=?◌, zeros, zeros-IsArray, codes}
use iskra.Crypto.Examples.{toy}
use iskra.Identity.{
  to_base58, from_base58, word_index, word_bytes, generate_mnemonic_seed, seed_to_mnemonic,
  mnemonic_to_seed, validate_mnemonic,
}
use iskra.Identity.Base58.{from_base58-to_base58}
use iskra.Identity.Mnemonic.{
  IsWordlist, is_some, mnemonic_to_seed-seed_to_mnemonic, validate_mnemonic_lem,
}

base58_example : from_base58 (to_base58 (0 ∷ 0 ∷ 255 ∷ 7 ∷ [])) ≡ some (0 ∷ 0 ∷ 255 ∷ 7 ∷ [])
base58_example = from_base58-to_base58 (0 ∷ 0 ∷ 255 ∷ 7 ∷ []) (omega arith)

abbrev below : ℕ → List Bytes → List Bytes
below zero acc = acc
below (suc n) acc = below n ((n ∷ []) ∷ acc)

abbrev list : List Bytes
list = below 256 []

validate_example :
    validate_mnemonic toy (λ w. w) list (codes "a" ∷ [])
    ≡ (length (codes "a" ∷ []) == 24 && is_some (word_bytes (λ w. w) list (codes "a" ∷ [])))
validate_example = validate_mnemonic_lem toy (λ w. w) list (codes "a" ∷ [])

check : List Bytes → ℕ → Bool
check ws zero = true
check ws (suc n) =
    elim (word_index ws (get_or ws n []) 0) [ none ↦ false | some i ↦ i == n ] && check ws n

check→own :
    (ws : List Bytes) (n i : ℕ)
    → check ws n ≡ true
    → i < n
    → word_index ws (get_or ws i []) 0 ≡ some i
unfolding check
check→own ws zero i h l = absurd (omega arith)
check→own ws (suc n) i h l = ground (arith, check→own ws n i)

checked : check list 256 ≡ true
unfolding check word_index ◌=?◌
checked = refl

list-IsWordlist : IsWordlist (λ w. w) list
list-IsWordlist = record {
  full = refl;
  trimmed = λ i h. refl;
  own = λ i h. check→own list 256 i checked h;
}

mnemonic_example :
    mnemonic_to_seed toy (λ w. w) list (seed_to_mnemonic list (zeros 32))
    ≡ generate_mnemonic_seed toy (some (take 24 (zeros 32)))
mnemonic_example =
    mnemonic_to_seed-seed_to_mnemonic toy (λ w. w) list (zeros 32) list-IsWordlist
      (zeros-IsArray 32)
