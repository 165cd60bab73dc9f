-- ===== src/Message/Wire/Parse.antt =====
-- internal/message/serialize.go: Deserialize on any input.
use iskra.Base.{
  ℕ, ◌+◌, ◌^◌, ◌≤◌, ◌<◌, ◌≡◌, ◌↔◌, refl, ◌||◌, ltb, leb, if◌then◌else◌, arith, Bool-cases, leb→le,
  inl, inr,
}
use iskra.Base.{
  [], ◌∷◌, ◌++◌, length, get_or, take, drop, take-append-drop, drop-drop, length-take, length-drop,
  append_assoc, All, All-take, All-drop,
}
use iskra.Base.Bytes.{Bytes, IsByte, IsArray, zeros, zeros-IsArray}
use iskra.Base.Endian.{put_be, get_be, put_be-get_be, get_be-lt}
use iskra.Message.{Message, IsTyped}
use iskra.Message.Wire.{
  ok, err, max_payload_len, trailer, serialize, read_body, after_nonce, header_fields, read_header,
  deserialize, too_short, too_short_for_payload,
}

-- The big-endian word at offset 122: the length that the input claims for its payload.
abbrev pub claimed_len : Bytes → ℕ
claimed_len data' = get_be (take 4 (drop 122 data'))

after_nonce-drop : (xs : Bytes) → after_nonce xs ≡ drop 122 xs
unfolding after_nonce
after_nonce-drop xs = simp drop-drop

-- The message read from an accepted input.
parsed : Bytes → Message
parsed xs = read_body (header_fields xs) (claimed_len xs) (drop 126 xs)

deserialize_lem :
    (xs : Bytes)
    → deserialize xs ≡ (
        if ltb (length xs) 230
        then err too_short
        else if ltb max_payload_len (claimed_len xs)
            || ltb (length (drop 126 xs)) (claimed_len xs + 32 + 64 + 8)
        then err too_short_for_payload
        else ok (parsed xs))
unfolding deserialize read_header parsed
deserialize_lem xs = simp (after_nonce-drop, drop-drop)

-- Room for the fixed fields and for the payload that the input claims, of at most 16 MiB.
abbrev pub HasRoom : Bytes → Type 0
HasRoom xs =
    (230 ≤ length xs) × (claimed_len xs ≤ max_payload_len) × (claimed_len xs + 230 ≤ length xs)

deserialize_inv : (xs : Bytes) (m : Message) → deserialize xs ≡ ok m → HasRoom xs × (m ≡ parsed xs)
deserialize_inv xs m h = ground (arith, deserialize_lem xs, length-drop 126 xs)

deserialize-room : (xs : Bytes) → HasRoom xs → deserialize xs ≡ ok (parsed xs)
deserialize-room xs h = ground (arith, deserialize_lem xs, length-drop 126 xs)

-- Deserialize accepts an input exactly when it has 230 bytes, claims a payload of at most 16 MiB,
-- and is long enough for that payload; no length check wraps around.
pub deserialize_accepts : (xs : Bytes) → ((m : Message) × (deserialize xs ≡ ok m)) ↔ HasRoom xs
deserialize_accepts xs =
    (λ p. (deserialize_inv xs p.0 p.1).0, λ h. (parsed xs, deserialize-room xs h))

slice-IsArray :
    (n k : ℕ) (xs : Bytes) → All IsByte xs → k + n ≤ length xs → IsArray n (take n (drop k xs))
slice-IsArray n k xs h l = (
  omega (arith, length-take n (drop k xs), length-drop k xs),
  All-take IsByte n (drop k xs) (All-drop IsByte k xs h),
)

get_or-IsByte : (xs : Bytes) → All IsByte xs → get_or xs 0 0 < 256
get_or-IsByte [] h = omega arith
get_or-IsByte (x ∷ xs) h = h.0

word_below :
    (k n : ℕ) (xs : Bytes)
    → All IsByte xs
    → k + n ≤ length xs
    → get_be (take n (drop k xs)) < 256 ^ n
word_below k n xs h l = get_be-lt n _ (slice-IsArray n k xs h l)

extension-IsArray :
    (xs : Bytes) → All IsByte xs → IsArray 32 (if leb 32 (length xs) then take 32 xs else zeros 32)
extension-IsArray xs h = elim (Bool-cases (leb 32 (length xs))) [
  | inl e ↦
      rw e (omega (arith, length-take 32 xs, leb→le 32 (length xs) e), All-take IsByte 32 xs h)
  | inr e ↦ rw e (zeros-IsArray 32)
]

parsed-IsTyped : (xs : Bytes) → All IsByte xs → HasRoom xs → IsTyped (parsed xs)
unfolding parsed read_body header_fields
parsed-IsTyped xs h room = simp drop-drop (record {
  version_byte = get_or-IsByte xs h;
  id_array = slice-IsArray 32 1 xs h (omega arith);
  recipient_array = slice-IsArray 20 33 xs h (omega arith);
  ttl_word = word_below 53 4 xs h (omega arith);
  timestamp_word = word_below 57 8 xs h (omega arith);
  content_byte = get_or-IsByte _ (All-drop IsByte 65 xs h);
  ephemeral_array = slice-IsArray 32 66 xs h (omega arith);
  nonce_array = slice-IsArray 24 98 xs h (omega arith);
  payload_bytes = All-take IsByte _ _ (All-drop IsByte 126 xs h);
  author_array = slice-IsArray 32 _ xs h (omega arith);
  x25519_array = extension-IsArray _ (All-drop IsByte _ xs h);
  signature_array = slice-IsArray 64 _ xs h (omega arith);
  pow_word = word_below _ 8 xs h (omega arith);
})

length-payload_parsed : (xs : Bytes) → HasRoom xs → length (parsed xs).payload ≡ claimed_len xs
unfolding parsed read_body
length-payload_parsed xs room =
    omega (arith, length-take (claimed_len xs) (drop 126 xs), length-drop 126 xs)

-- A message that Deserialize returns has the Go types of its fields and a payload of at most 16 MiB.
pub deserialize-IsTyped :
    (xs : Bytes) (m : Message)
    → All IsByte xs
    → deserialize xs ≡ ok m
    → IsTyped m × (length m.payload ≤ max_payload_len)
deserialize-IsTyped xs m h e =
    let (room, p) = deserialize_inv xs m e in
    rw p (parsed-IsTyped xs h room, omega (arith, length-payload_parsed xs room))

head-drop : (xs : Bytes) → 1 ≤ length xs → get_or xs 0 0 ∷ drop 1 xs ≡ xs
unfolding drop
head-drop [] h = absurd (omega arith)
head-drop (x ∷ xs) h = refl

rejoin :
    (n k j : ℕ) (xs ys : Bytes) → k + n ≡ j → ys ≡ drop j xs → take n (drop k xs) ++ ys ≡ drop k xs
rejoin n k j xs ys e f = rw (f, ← e, ← drop-drop n k xs) (take-append-drop n (drop k xs))

word_rejoin :
    (n k j : ℕ) (xs ys : Bytes)
    → All IsByte xs
    → j ≤ length xs
    → k + n ≡ j
    → ys ≡ drop j xs
    → put_be n (get_be (take n (drop k xs))) ++ ys ≡ drop k xs
word_rejoin n k j xs ys h l e f =
    rw (put_be-get_be n _ (slice-IsArray n k xs h (omega arith))) (rejoin n k j xs ys e f)

byte_rejoin :
    (k j : ℕ) (xs ys : Bytes)
    → j ≤ length xs
    → k + 1 ≡ j
    → ys ≡ drop j xs
    → get_or (drop k xs) 0 0 ∷ ys ≡ drop k xs
byte_rejoin k j xs ys l e f =
    rw (f, ← e, ← drop-drop 1 k xs) (head-drop (drop k xs) (omega (arith, length-drop k xs)))

trailer_rejoin :
    (v k j : ℕ) (xs : Bytes)
    → 2 ≤ v
    → j ≤ length xs
    → k + 32 ≡ j
    → (if leb 2 v
          then if leb 32 (length (drop k xs)) then take 32 (drop k xs) else zeros 32
          else [])
        ++ drop j xs
      ≡ drop k xs
trailer_rejoin v k j xs hv l e =
    ground (arith, length-drop k xs, rejoin 32 k j xs (drop j xs) e refl)

serialize-parsed :
    (xs : Bytes)
    → All IsByte xs
    → HasRoom xs
    → 2 ≤ (parsed xs).version
    → claimed_len xs + 262 ≤ length xs
    → serialize (parsed xs) ++ drop (claimed_len xs + 262) xs ≡ xs
unfolding serialize trailer parsed read_body header_fields drop
serialize-parsed xs h room v l =
    let p : ℕ = claimed_len xs in
    simp (append_assoc, drop-drop, length-payload_parsed xs room)
      (byte_rejoin 0 1 xs _ (omega arith) refl (
        rejoin 32 1 33 xs _ refl (
          rejoin 20 33 53 xs _ refl (
            word_rejoin 4 53 57 xs _ h (omega arith) refl (
              word_rejoin 8 57 65 xs _ h (omega arith) refl (
                byte_rejoin 65 66 xs _ (omega arith) refl (
                  rejoin 32 66 98 xs _ refl (
                    rejoin 24 98 122 xs _ refl (
                      word_rejoin 4 122 126 xs _ h (omega arith) refl (
                        rejoin p 126 (126 + p) xs _ refl (
                          rejoin 32 (126 + p) (126 + p + 32) xs _ refl (
                            rejoin 64 (126 + p + 32) (126 + p + 32 + 64) xs _ refl (
                              word_rejoin 8 (126 + p + 32 + 64) (126 + p + 32 + 64 + 8) xs _ h
                                (omega arith) refl
                                (trailer_rejoin _ (126 + p + 32 + 64 + 8) (p + 262) xs v l
                                  (omega arith)))))))))))))))

-- The encoding is canonical: an input of version 2 or later that Deserialize accepts, with room for
-- the author's X25519 key, is the serialization of the message it returns, followed by other bytes.
pub serialize-deserialize :
    (xs : Bytes) (m : Message)
    → All IsByte xs
    → deserialize xs ≡ ok m
    → 2 ≤ m.version
    → length m.payload + 262 ≤ length xs
    → (rest : Bytes) × (serialize m ++ rest ≡ xs)
serialize-deserialize xs m h e =
    let (room, p) = deserialize_inv xs m e in
    rw p (λ v l. (
      drop (claimed_len xs + 262) xs,
      serialize-parsed xs h room v (omega (arith, length-payload_parsed xs room)),
    ))
