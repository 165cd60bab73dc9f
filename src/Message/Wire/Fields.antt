-- ===== src/Message/Wire/Fields.antt =====
-- internal/message/serialize.go: where the content type stands in the bytes of a message. The relay
-- server reads it there.
use iskra.Base.{ℕ, suc, ◌+◌, ◌≡◌, ◌∙◌, refl, ap, [], ◌∷◌, ◌++◌, length, get_or, arith}
use iskra.Base.Bytes.{Bytes}
use iskra.Base.Endian.{put_be, length-put_be}
use iskra.Message.{Message, IsTyped}
use iskra.Message.Wire.{serialize}

get_or-append :
    (n i : ℕ) (xs ys : Bytes) → length xs ≡ n → get_or (xs ++ ys) (n + i) 0 ≡ get_or ys i 0
get_or-append n i [] ys h = let e : n + i ≡ i = omega (arith, h) in ap (λ k. get_or ys k 0) e
get_or-append n i (x ∷ xs) ys h =
    let e : n + i ≡ suc (length xs + i) = omega (arith, h) in
    ap (λ k. get_or (x ∷ (xs ++ ys)) k 0) e ∙ get_or-append (length xs) i xs ys refl

-- The byte behind the identifier, the recipient, the lifetime and the time.
pub get_or-serialize : (m : Message) → IsTyped m → get_or (serialize m) 65 0 ≡ m.content_type
unfolding serialize
get_or-serialize m t =
    get_or-append 32 32 m.id _ (t.id_array.0)
    ∙ get_or-append 20 12 m.recipient_id _ (t.recipient_array.0)
    ∙ get_or-append 4 8 (put_be 4 m.ttl) _ (length-put_be 4 m.ttl)
    ∙ get_or-append 8 0 (put_be 8 m.timestamp) _ (length-put_be 8 m.timestamp)
