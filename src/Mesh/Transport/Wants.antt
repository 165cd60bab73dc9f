-- ===== src/Mesh/Transport/Wants.antt =====
-- internal/mesh/transport.go: which messages a node asks for, and that its requests are served.
use iskra.Base.{
  All, ◌==◌, ◌≡◌, ◌∙◌, ap, sym, refl, inl, inr, not, ◌&&◌, List, [], ◌∷◌, ◌++◌, length, take,
  take_exact, drop_exact, arith, Bool-cases,
}
use iskra.Base.Bytes.{Bytes, ◌=?◌, =?_iff, =?_refl, zeros, zeros-IsArray}
use iskra.Base.Dict.{contains}
use iskra.Message.{Message}
use iskra.Mesh.Transport.{wanted, is_prefix, matches}

padded :
    (prefix other : Bytes)
    → length prefix ≡ length other
    → ((prefix ++ zeros 24) =? (other ++ zeros 24)) ≡ (prefix =? other)
unfolding ◌=?◌
padded [] [] h = =?_refl (zeros 24)
padded [] (b ∷ bs) h = absurd (omega arith)
padded (x ∷ xs) [] h = absurd (omega arith)
padded (x ∷ xs) (b ∷ bs) h = ap (λ t. x == b && t) (padded xs bs (omega arith))

-- Of the prefixes that a peer announces, a node asks for exactly those that none of its own messages
-- has, each as a 32-byte identifier with zeros at the end; prefixes have eight bytes.
pub contains-wanted :
    (mine theirs : List Bytes) (prefix : Bytes)
    → length prefix ≡ 8
    → All (λ t. length t ≡ 8) theirs
    → contains (prefix ++ zeros 24) (wanted mine theirs)
      ≡ (contains prefix theirs && not (contains prefix mine))
unfolding contains wanted
contains-wanted mine [] prefix h a = refl
contains-wanted mine (t ∷ theirs) prefix h (ht, a) =
    let ih = contains-wanted mine theirs prefix h a in
    let same = padded t prefix (ht ∙ sym h) in
    elim (Bool-cases (contains t mine)) [
      | inl m ↦ rw (wanted, contains, m) (ground (arith, ih, m, =?_iff t prefix, same))
      | inr m ↦ rw (wanted, contains, m) (ground (arith, ih, m, =?_iff t prefix, same))
    ]

-- A request for a prefix is recognised as one, and matches exactly the messages whose identifier
-- starts with it.
pub matches_prefix :
    (prefix : Bytes) (msg : Message)
    → length prefix ≡ 8
    → matches (prefix ++ zeros 24) msg ≡ (take 8 msg.id =? prefix)
unfolding matches is_prefix
matches_prefix prefix msg h =
    rw (matches, is_prefix, take_exact 8 prefix (zeros 24) h, drop_exact 8 prefix (zeros 24) h)
      (ground (arith, (zeros-IsArray 24).0, =?_refl (zeros 24)))
