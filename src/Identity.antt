-- ===== src/Identity.antt =====
-- internal/identity: user names. Base58 of base58.go, with math/big as its documentation has it; the
-- user id of keys.go; the word phrases of mnemonic.go. The word list is an argument, and so is
-- strings.TrimSpace.
pub mod Digits
pub mod Keys
pub mod Base58
pub mod Mnemonic
mod Examples
use iskra.Base.{
  ℕ, zero, suc, ◌+◌, ◌-◌, ◌*◌, ◌/◌, ◌%◌, ◌<◌, ◌≡◌, Bool, true, false, not, ◌==◌, ltb, if◌then◌else◌,
  Option, some, none, List, [], ◌∷◌, ◌++◌, length, take, drop, get_or, replicate, map,
}
use mathlib.Core.List.{reverse}
use iskra.Base.Bytes.{Bytes, codes, ◌=?◌, zeros}
use iskra.Base.Endian.{get_be}
use iskra.Crypto.{Primitives}

abbrev pub base58_alphabet : Bytes
base58_alphabet = codes "123456789ABCDEFGHJKLMNPQRSTUVWXYZabcdefghijkmnopqrstuvwxyz"

-- `base58Alphabet[d]`
unfoldable pub letter : ℕ → ℕ
letter d = get_or base58_alphabet d 0

-- The digits of a number in a base, lowest first, while it is not 0. The fuel bounds the rounds.
unfoldable pub to_digits : ℕ → ℕ → ℕ → List ℕ
to_digits base zero x = []
to_digits base (suc fuel) x = elim (x == 0) [
  | true ↦ []
  | false ↦ x % base ∷ to_digits base fuel (x / base)
]

-- How often a value stands at the front of a list.
unfoldable pub leading : ℕ → List ℕ → ℕ
leading c [] = 0
leading c (x ∷ xs) = elim (x == c) [ true ↦ suc (leading c xs) | false ↦ 0 ]

-- ToBase58: the letters of the digits, one '1' for each leading zero byte, reversed.
unfoldable pub to_base58 : Bytes → Bytes
to_base58 [] = []
to_base58 (b ∷ bs) =
    let x = get_be (b ∷ bs) in
    reverse (map letter (to_digits 58 x x) ++ replicate (leading 0 (b ∷ bs)) (letter 0))

-- The loop that looks a letter up, from index `i` on.
unfoldable pub index_from : ℕ → ℕ → Bytes → Option ℕ
index_from c i [] = none
index_from c i (a ∷ as') = elim (a == c) [ true ↦ some i | false ↦ index_from c (suc i) as' ]

-- The loop of FromBase58 over the letters.
unfoldable pub decode_loop : ℕ → Bytes → Option ℕ
decode_loop x [] = some x
decode_loop x (c ∷ cs) = elim (index_from c 0 base58_alphabet) [
  | none ↦ none
  | some i ↦ decode_loop (x * 58 + i) cs
]

-- `x.Bytes()`: the absolute value as bytes, highest first, none of them a leading zero.
unfoldable pub big_bytes : ℕ → Bytes
big_bytes x = reverse (to_digits 256 x x)

-- FromBase58; `none` is an invalid letter.
unfoldable pub from_base58 : Bytes → Option Bytes
from_base58 [] = some []
from_base58 (c ∷ cs) = elim (decode_loop 0 (c ∷ cs)) [
  | none ↦ none
  | some x ↦ some (zeros (leading (letter 0) (c ∷ cs)) ++ big_bytes x)
]

-- UserID: the first 20 letters, filled up with '1' in front.
unfoldable pub user_id : Bytes → Bytes
user_id ed_pub =
    let encoded = to_base58 ed_pub in
    take 20 (replicate (20 - length encoded) (letter 0) ++ encoded)

-- SeedToMnemonic
unfoldable pub seed_to_mnemonic : List Bytes → Bytes → List Bytes
seed_to_mnemonic words seed = map (λ b. get_or words b []) (take 24 seed)

-- wordIndex, of a trimmed word, from index `i` on.
unfoldable pub word_index : List Bytes → Bytes → ℕ → Option ℕ
word_index [] word i = none
word_index (w ∷ ws) word i = elim (w =? word) [ true ↦ some i | false ↦ word_index ws word (suc i) ]

-- The loop of MnemonicToSeed; `byte(idx)` keeps eight bits.
unfoldable pub word_bytes : (Bytes → Bytes) → List Bytes → List Bytes → Option Bytes
word_bytes trim words [] = some []
word_bytes trim words (word ∷ rest) = elim (word_index words (trim word) 0) [
  | none ↦ none
  | some i ↦ elim (word_bytes trim words rest) [ none ↦ none | some bs ↦ some (i % 256 ∷ bs) ]
]

-- The last eight bytes of a seed.
unfoldable pub with_checksum : Primitives → Bytes → Bytes
with_checksum p front = front ++ take 8 (p.sha256 front)

-- MnemonicToSeed; `none` is an error.
unfoldable pub mnemonic_to_seed :
    Primitives → (Bytes → Bytes) → List Bytes → List Bytes → Option Bytes
mnemonic_to_seed p trim words phrase =
    if not (length phrase == 24) then none else (elim (word_bytes trim words phrase) [
      | none ↦ none
      | some front ↦ some (with_checksum p front)
    ])

-- GenerateMnemonicSeed, given the random bytes; `none` where there are none.
unfoldable pub generate_mnemonic_seed : Primitives → Option Bytes → Option Bytes
generate_mnemonic_seed p none = none
generate_mnemonic_seed p (some random) = some (with_checksum p random)

-- ValidateMnemonic
unfoldable pub validate_mnemonic : Primitives → (Bytes → Bytes) → List Bytes → List Bytes → Bool
validate_mnemonic p trim words phrase = elim (mnemonic_to_seed p trim words phrase) [
  | none ↦ false
  | some seed ↦ drop 24 seed =? take 8 (p.sha256 (take 24 seed))
]
