-- ===== src/Identity/Keys.antt =====
-- internal/identity/keys.go: the key pair of a seed. ed25519.NewKeyFromSeed and crypto/sha512 are
-- parameters.
use Prim.Native.Nat.{bit_and, bit_or}
use iskra.Base.{
  ◌≡◌, refl, subst, Option, some, some-injective, none, take, get_or, set, inl, inr, Option-cases,
}
use iskra.Base.Bytes.{Bytes}
use iskra.Crypto.{Primitives}
use iskra.Message.Create.{Keypair}

pub record KeyPackages : Type 0 where
  pub key_from_seed : Bytes → Bytes
  pub sha512 : Bytes → Bytes

-- GenerateSeed, given the random bytes; `none` where there are none.
unfoldable pub generate_seed : Option Bytes → Option Bytes
generate_seed random = random

-- The clamping of RFC 7748, byte by byte.
unfoldable pub clamp : Bytes → Bytes
clamp h =
    let h1 = set h 0 (bit_and (get_or h 0 0) 248) in
    let h2 = set h1 31 (bit_and (get_or h1 31 0) 127) in set h2 31 (bit_or (get_or h2 31 0) 64)

-- KeypairFromSeed; `none` is the panic where X25519 refuses the base point.
unfoldable pub keypair_from_seed : Primitives → KeyPackages → Bytes → Option Keypair
keypair_from_seed p k seed =
    let private = k.key_from_seed seed in
    let x25519_private = take 32 (clamp (k.sha512 seed)) in
    elim (p.x25519 x25519_private p.basepoint) [
      | none ↦ none
      | some public ↦ some (record {
        ed25519_pub = p.ed25519_public private;
        ed25519_private = private;
        x25519_pub = public;
        x25519_private = x25519_private;
      })
    ]

-- The public keys of a pair belong to its private keys.
pub record IsPair (p : Primitives) (keypair : Keypair) : Type 0 where
  pub signing : p.ed25519_public keypair.ed25519_private ≡ keypair.ed25519_pub
  pub agreeing : p.x25519 keypair.x25519_private p.basepoint ≡ some keypair.x25519_pub

no_pair : (keypair : Keypair) → none ≡ some keypair → ⊥
no_pair keypair e = cc

-- What KeypairFromSeed returns is such a pair.
pub keypair_from_seed-IsPair :
    (p : Primitives) (k : KeyPackages) (seed : Bytes) (keypair : Keypair)
    → keypair_from_seed p k seed ≡ some keypair
    → IsPair p keypair
unfolding keypair_from_seed
keypair_from_seed-IsPair p k seed keypair e =
    elim (Option-cases (p.x25519 (take 32 (clamp (k.sha512 seed))) p.basepoint)) [
      | inl n ↦ absurd (no_pair keypair (rw (keypair_from_seed, n) at e))
      | inr (public, x) ↦
          subst (IsPair p) (some-injective _ keypair (rw (keypair_from_seed, x) at e))
            (record { signing = refl; agreeing = x })
    ]
