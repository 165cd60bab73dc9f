-- ===== src/Identity/Mnemonic.antt =====
-- internal/identity/mnemonic.go: the phrase of a seed, and the seed of a phrase.
use iskra.Base.{
  ℕ, ◌<◌, ◌≡◌, ◌∙◌, ap, refl, Bool, true, false, ◌==◌, List, [], ◌∷◌, length, map, take, get_or,
  All, All-take, arith, Option, some, none, Bool-cases, ◌&&◌, Option-cases, inl, inr, length-take,
  length-map, take_exact, drop_exact,
}
use iskra.Base.Bytes.{Bytes, IsByte, IsArray, =?_refl}
use iskra.Crypto.{Primitives}
use iskra.Identity.{
  seed_to_mnemonic, word_index, word_bytes, with_checksum, generate_mnemonic_seed, mnemonic_to_seed,
  validate_mnemonic,
}

-- A word list with a word for each byte, in which every word is found where it stands, with no blanks
-- around it.
pub record IsWordlist (trim : Bytes → Bytes) (words : List Bytes) : Type 0 where
  pub full : length words ≡ 256
  pub trimmed : (i : ℕ) → i < 256 → trim (get_or words i []) ≡ get_or words i []
  pub own : (i : ℕ) → i < 256 → word_index words (get_or words i []) 0 ≡ some i

word_bytes-map :
    (trim : Bytes → Bytes) (words : List Bytes) (bs : Bytes)
    → IsWordlist trim words
    → All IsByte bs
    → word_bytes trim words (map (λ b. get_or words b []) bs) ≡ some bs
unfolding word_bytes
word_bytes-map trim words [] w a = refl
word_bytes-map trim words (b ∷ bs) w (h, a) =
    rw (word_bytes, w.trimmed b h, w.own b h, word_bytes-map trim words bs w a)
      (ap (λ t. some (t ∷ bs)) (omega arith))

abbrev pub is_some : Option Bytes → Bool
is_some none = false
is_some (some _) = true

length-word_bytes :
    (trim : Bytes → Bytes) (words phrase : List Bytes) (front : Bytes)
    → word_bytes trim words phrase ≡ some front
    → length front ≡ length phrase
unfolding word_bytes
length-word_bytes trim words [] front h = ground (arith, h)
length-word_bytes trim words (word ∷ rest) front h =
    elim (Option-cases (word_bytes trim words rest)) [
      | inl e ↦ ground (arith, h, e)
      | inr (bs, e) ↦ ground (arith, h, e, length-word_bytes trim words rest bs e)
    ]

module _ (p : Primitives) (trim : Bytes → Bytes) (words : List Bytes) where
  -- The phrase of a seed of 32 bytes is read back as the seed that GenerateMnemonicSeed makes of the
  -- first 24 of them, if the word list has 256 words, all different and none changed by trimming.
  pub mnemonic_to_seed-seed_to_mnemonic :
      (seed : Bytes)
      → IsWordlist trim words
      → IsArray 32 seed
      → mnemonic_to_seed p trim words (seed_to_mnemonic words seed)
        ≡ generate_mnemonic_seed p (some (take 24 seed))
  unfolding mnemonic_to_seed seed_to_mnemonic with_checksum generate_mnemonic_seed
  mnemonic_to_seed-seed_to_mnemonic seed w (len, a) =
      let size : length (map (λ b. get_or words b []) (take 24 seed)) ≡ 24 =
        length-map (take 24 seed) (λ b. get_or words b []) ∙ length-take 24 seed ∙ omega arith in
      let read = word_bytes-map trim words (take 24 seed) w (All-take IsByte 24 seed a) in
      rw (mnemonic_to_seed, size, read) refl

  -- A phrase is valid exactly if it has 24 words that are all in the list: no phrase fails for its
  -- checksum.
  pub validate_mnemonic_lem :
      (phrase : List Bytes)
      → validate_mnemonic p trim words phrase
        ≡ (length phrase == 24 && is_some (word_bytes trim words phrase))
  unfolding validate_mnemonic mnemonic_to_seed with_checksum
  validate_mnemonic_lem phrase = elim (Bool-cases (length phrase == 24)) [
    | inr e ↦ rw (validate_mnemonic, mnemonic_to_seed, e) refl
    | inl e ↦ elim (Option-cases (word_bytes trim words phrase)) [
      | inl none_read ↦ rw (validate_mnemonic, mnemonic_to_seed, e, none_read) refl
      | inr (front, read) ↦
          let sum = take 8 (p.sha256 front) in
          let size : length front ≡ 24 =
            length-word_bytes trim words phrase front read ∙ ground (arith, e) in
          rw
            (
              validate_mnemonic,
              mnemonic_to_seed,
              e,
              read,
              take_exact 24 front sum size,
              drop_exact 24 front sum size,
            )
            (=?_refl sum)
    ]
  ]
