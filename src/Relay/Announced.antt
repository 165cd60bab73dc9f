-- ===== src/Relay/Announced.antt =====
-- cmd/relay/main.go: handleFederation keeps the limits of the pool.
use iskra.Base.{
  ℕ, ◌≡◌, refl, inl, inr, true, false, ◌||◌, leb, Option, some, none, List, [], ◌∷◌, ◌++◌, length,
  drop, length-append, length-drop, arith, Bool-cases, All-append, All-drop,
}
use iskra.Base.Bytes.{Bytes, ◌=?◌, =?_iff}
use iskra.Base.Dict.{lookup, contains}
use iskra.Relay.{Relay, max_known_relays}
use iskra.Relay.Pool.{Net, valid_federation_url, announce, too_soon, post_federation}
use iskra.Relay.Limits.{Distinct, IsPool, IsBounded}

contains-append :
    (u v : Bytes) (us : List Bytes) → contains u (us ++ v ∷ []) ≡ (contains u us || v =? u)
unfolding contains
contains-append u v [] = ground arith
contains-append u v (w ∷ us) = ground (arith, contains-append u v us)

append-Distinct :
    (u : Bytes) (us : List Bytes) → contains u us ≡ false → Distinct us → Distinct (us ++ u ∷ [])
unfolding contains
append-Distinct u [] c d = (refl, tt)
append-Distinct u (v ∷ us) c (fresh, d) = (
  rw contains-append (ground (arith, c, fresh, =?_iff u v, =?_iff v u)),
  append-Distinct u us (ground (arith, c)) d,
)

tail-Distinct :
    (u : Bytes) (us : List Bytes)
    → contains u us ≡ false
    → Distinct us
    → (contains u (drop 1 us) ≡ false) × Distinct (drop 1 us)
unfolding contains drop
tail-Distinct u [] c d = (refl, tt)
tail-Distinct u (v ∷ us) c (fresh, d) = (ground (arith, c), d)

announce-IsPool :
    (net : Net) (u : Bytes) (us : List Bytes)
    → valid_federation_url net u ≡ true
    → contains u us ≡ false
    → IsPool net us
    → IsPool net (announce u us)
unfolding announce
announce-IsPool net u us v c (short, d, valid) =
    elim (Bool-cases (leb max_known_relays (length us))) [
      | inl e ↦
          let (c1, d1) = tail-Distinct u us c d in
          rw (announce, e)
            (
              omega (arith, length-append (drop 1 us) (u ∷ []), length-drop 1 us),
              append-Distinct u (drop 1 us) c1 d1,
              All-append _ (drop 1 us) (u ∷ []) (All-drop _ 1 us valid) (v, tt),
            )
      | inr e ↦
          rw (announce, e)
            (
              ground (arith, e, length-append us (u ∷ [])),
              append-Distinct u us c d,
              All-append _ us (u ∷ []) valid (v, tt),
            )
    ]

pub post_federation-IsBounded :
    (net : Net) (now : ℕ) (src_ip : Bytes) (url : Option Bytes) (r : Relay)
    → IsBounded net r
    → IsBounded net (post_federation net now src_ip url r).0
unfolding post_federation
post_federation-IsBounded net now src_ip none r b = b
post_federation-IsBounded net now src_ip (some url) r (h, f, p) = elim (Bool-cases (url =? [])) [
  | inl e ↦ rw (post_federation, e) (h, f, p)
  | inr e ↦ elim (Bool-cases (valid_federation_url net url)) [
    | inr v ↦ rw (post_federation, e, v) (h, f, p)
    | inl v ↦ elim (Bool-cases (too_soon now (lookup src_ip r.federation_rate))) [
      | inl q ↦ rw (post_federation, e, v, q) (h, f, p)
      | inr q ↦ elim (Bool-cases (contains url r.known_relays)) [
        | inl c ↦ rw (post_federation, e, v, q, c) (h, f, p)
        | inr c ↦
            rw (post_federation, e, v, q, c) (h, f, announce-IsPool net url r.known_relays v c p)
      ]
    ]
  ]
]
