-- ===== src/Mesh/Dns/Pieces.antt =====
-- internal/mesh/dns.go: the pieces of a text.
use iskra.Base.{
  sym, ltb→lt, ℕ, zero, suc, ◌+◌, ◌*◌, ◌≤◌, ◌<◌, ◌≡◌, ◌∙◌, ap, refl, inl, inr, ◌==◌, ltb, List, [],
  ◌∷◌, ◌++◌, length, take, drop, All, length-take, length-drop, length-zero, take-append-drop,
  arith, Bool-cases,
}
use iskra.Base.Bytes.{Bytes}
use iskra.Mesh.Dns.{
  split_loop, split_string, join, Query, queries, send_frame, Codec, dns_chunk_size,
  dns_data_labels, dns_max_label,
}

module _ {s : Bytes} where
  nothing : length s ≡ 0 → [] ≡ s
  nothing h = sym (length-zero s h)

shorter :
    (n size : ℕ) (ts : List Bytes)
    → n ≤ size
    → All (λ t. length t ≤ n) ts
    → All (λ t. length t ≤ size) ts
shorter n size [] h a = tt
shorter n size (t ∷ ts) h (b, a) = (omega arith, shorter n size ts h a)

split_loop-pieces :
    (fuel size : ℕ) (s : Bytes)
    → 0 < size
    → length s ≤ fuel
    → (join (split_loop fuel size s) ≡ s) × All (λ t. length t ≤ size) (split_loop fuel size s)
unfolding split_loop join
split_loop-pieces zero size s pos h = (nothing (omega arith), tt)
split_loop-pieces (suc fuel) size s pos h = elim (Bool-cases (ltb 0 (length s))) [
  | inr e ↦ rw (split_loop, e) (nothing (ground (arith, e)), tt)
  | inl e ↦ elim (Bool-cases (ltb (length s) size)) [
    | inl q ↦
        let (j, a) =
          split_loop-pieces fuel (length s) (drop (length s) s) (ltb→lt 0 (length s) e)
            (omega (arith, length-drop (length s) s)) in
        rw (split_loop, e, q)
          (
            ap (λ t. take (length s) s ++ t) j ∙ take-append-drop (length s) s,
            (
              omega (arith, length-take (length s) s, ltb→lt (length s) size q),
              shorter (length s) size _ (omega (arith, ltb→lt (length s) size q)) a,
            ),
          )
    | inr q ↦
        let (j, a) =
          split_loop-pieces fuel size (drop size s) pos
            (omega (arith, length-drop size s, ltb→lt 0 (length s) e)) in
        rw (split_loop, e, q)
          (
            ap (λ t. take size s ++ t) j ∙ take-append-drop size s,
            (omega (arith, length-take size s), a),
          )
  ]
]

no_text : join ([] ∷ []) ≡ join []
unfolding join
no_text = refl

-- What splitString cuts a text into.
split_string-pieces :
    (s : Bytes) (size : ℕ)
    → 0 < size
    → (join (split_string s size) ≡ s) × All (λ t. length t ≤ size) (split_string s size)
unfolding split_string
split_string-pieces s size pos =
    let (j, a) = split_loop-pieces (length s) size s pos (omega arith) in
    elim (Bool-cases (length (split_loop (length s) size s) == 0)) [
      | inr e ↦ rw (split_string, e) (j, a)
      | inl e ↦
          let empty = length-zero (split_loop (length s) size s) (ground (arith, e)) in
          rw (split_string, e) (no_text ∙ sym (ap join empty) ∙ j, (omega arith, tt))
    ]

-- The text in the labels of queries.
abbrev pub label_text : List Query → Bytes
label_text [] = []
label_text (q ∷ qs) = join q.labels ++ label_text qs

-- A label is at most as long as DNS allows.
abbrev pub HasShortLabels : Query → Type 0
HasShortLabels q = All (λ t. length t ≤ dns_max_label) q.labels

queries-labels :
    (seq total i : ℕ) (chunks : List Bytes)
    → (label_text (queries seq total i chunks) ≡ join chunks)
      × All HasShortLabels (queries seq total i chunks)
unfolding queries join
queries-labels seq total i [] = (refl, tt)
queries-labels seq total i (chunk ∷ chunks) =
    let (t, a) = queries-labels seq total (i + 1) chunks in
    let (j, short) = split_string-pieces chunk dns_chunk_size (omega arith) in
    (rw (j, t) refl, (shorter dns_chunk_size dns_max_label _ (omega arith) short, a))

-- The labels of the queries that sendFrame makes of a frame put together are the base32 text of the
-- frame, and none is longer than the 63 bytes of a DNS label.
pub send_frame-labels :
    (codec : Codec) (seq : ℕ) (frame : Bytes)
    → (label_text (send_frame codec seq frame) ≡ codec.encode frame)
      × All HasShortLabels (send_frame codec seq frame)
unfolding send_frame
send_frame-labels codec seq frame =
    let chunks = split_string (codec.encode frame) (dns_chunk_size * dns_data_labels) in
    let (t, a) = queries-labels (seq + 1) (length chunks) 0 chunks in
    (
      t
          ∙ (split_string-pieces (codec.encode frame) (dns_chunk_size * dns_data_labels)
              (omega arith)).0,
      a,
    )
