-- ===== src/FileTransfer/Survives.antt =====
-- internal/filetransfer/transfer.go: ReceiveChunk takes no slice that is out of range.
use iskra.Base.{
  ℕ, ◌+◌, ◌-◌, ◌*◌, ◌≤◌, ◌≡◌, refl, inl, inr, Bool, ◌||◌, ◌==◌, ltb, Option, some, [], ◌∷◌, length,
  length-take, length-drop, take, drop, arith, Bool-cases,
}
use iskra.Base.Bytes.{Bytes, codes, ◌=?◌}
use iskra.Base.Endian.{get_be}
use iskra.Base.Hex.{hex}
use iskra.Base.Runs.{Runs, bind-Runs, if-Runs}
use iskra.FileTransfer.{
  ChunkHeader, FileMetadata, Transfer, Packages, Manager, header_size, slice, slice_from, uint_at,
  decode_header, decode_size, decode_mime, decode_metadata, with_chunk, safe_name, complete,
  receive_chunk,
}

slice-Runs :
    (lo hi : ℕ) (s : Bytes)
    → lo ≤ hi
    → hi ≤ length s
    → slice lo hi s ≡ some (take (hi - lo) (drop lo s))
unfolding slice
slice-Runs lo hi s h q = ground (arith, h, q)

uint_at-Runs :
    (width lo : ℕ) (s : Bytes)
    → lo + width ≤ length s
    → uint_at width lo s ≡ some (get_be (take width (drop lo s)))
unfolding uint_at
uint_at-Runs width lo s h = ground (arith, h)

slice_from-Runs : (lo : ℕ) (s : Bytes) → lo ≤ length s → slice_from lo s ≡ some (drop lo s)
unfolding slice_from
slice_from-Runs lo s h = ground (arith, h)

-- Metadata, and an offset inside the data.
abbrev IsInside : Bytes → Option (FileMetadata × ℕ) → Type 0
IsInside data' o = (m : FileMetadata) × (n : ℕ) × (o ≡ some (m, n)) × (n ≤ length data')

decode_size-IsInside :
    (m : FileMetadata) (offset : ℕ) (data' : Bytes)
    → offset ≤ length data'
    → IsInside data' (decode_size m offset data')
unfolding decode_size
decode_size-IsInside m offset data' h = elim (Bool-cases (ltb (length data') (offset + 8))) [
  | inl e ↦ rw (decode_size, e) (m, offset, refl, h)
  | inr e ↦
      rw (decode_size, e, uint_at-Runs 8 offset data' (ground (arith, e)))
        (_, _, refl, ground (arith, e))
]

decode_mime-IsInside :
    (m : FileMetadata) (offset : ℕ) (data' : Bytes)
    → offset ≤ length data'
    → IsInside data' (decode_mime m offset data')
unfolding decode_mime
decode_mime-IsInside m offset data' h = elim (Bool-cases (ltb (length data') (offset + 2))) [
  | inl e ↦ rw (decode_mime, e) (m, offset, refl, h)
  | inr e ↦
      let len = get_be (take 2 (drop offset data')) in
      elim (Bool-cases (ltb (length data') (offset + 2 + len))) [
        | inl q ↦
            rw (decode_mime, e, uint_at-Runs 2 offset data' (ground (arith, e)), q)
              (_, _, refl, ground (arith, e))
        | inr q ↦
            rw
              (
                decode_mime,
                e,
                uint_at-Runs 2 offset data' (ground (arith, e)),
                q,
                slice-Runs (offset + 2) (offset + 2 + len) data' (omega arith) (ground (arith, q)),
              )
              (decode_size-IsInside _ (offset + 2 + len) data' (ground (arith, q)))
      ]
]

decode_metadata-IsInside : (data' : Bytes) → IsInside data' (decode_metadata data')
unfolding decode_metadata
decode_metadata-IsInside data' = elim (Bool-cases (ltb (length data') 2)) [
  | inl e ↦ rw (decode_metadata, e) (_, 0, refl, omega arith)
  | inr e ↦
      let len = get_be (take 2 (drop 0 data')) in
      elim (Bool-cases (ltb (length data') (2 + len))) [
        | inl q ↦
            rw (decode_metadata, e, uint_at-Runs 2 0 data' (ground (arith, e)), q)
              (_, 0, refl, omega arith)
        | inr q ↦
            rw
              (
                decode_metadata,
                e,
                uint_at-Runs 2 0 data' (ground (arith, e)),
                q,
                slice-Runs 2 (2 + len) data' (omega arith) (ground (arith, q)),
              )
              (decode_mime-IsInside _ (2 + len) data' (ground (arith, q)))
      ]
]

with_chunk-Runs : (i : ℕ) (data' : Bytes) (t : Transfer) → Runs (with_chunk i data' t)
unfolding with_chunk
with_chunk-Runs i data' t =
    let (m, n, e, inside) = decode_metadata-IsInside data' in
    if-Runs (i == 0) _ _ (rw (e, slice_from-Runs n data' inside) (_, refl)) (_, refl)

-- A header of twenty bytes is decoded, and its transfer id has sixteen.
decode_header-Runs :
    (buf : Bytes)
    → length buf ≡ 20
    → (h : ChunkHeader) × (decode_header buf ≡ some h) × (length h.transfer_id ≡ 16)
unfolding decode_header
decode_header-Runs buf h =
    rw
      (
        decode_header,
        slice-Runs 0 16 buf (omega arith) (omega (arith, h)),
        slice-Runs 16 18 buf (omega arith) (omega (arith, h)),
        slice-Runs 18 20 buf (omega arith) (omega (arith, h)),
      )
      (_, refl, omega (arith, h, length-take 16 (drop 0 buf), length-drop 0 buf))

safe_name-Runs :
    (pk : Packages) (id_hex filename : Bytes)
    → 8 ≤ length id_hex
    → Runs (safe_name pk id_hex filename)
unfolding safe_name
safe_name-Runs pk id_hex filename h =
    if-Runs (pk.base filename =? [] || pk.base filename =? codes ".") _ _
      (rw (slice-Runs 0 8 id_hex (omega arith) h) (_, refl)) (_, refl)

complete-Runs :
    (pk : Packages) (writes : Bytes → Bool) (id_hex : Bytes) (t : Transfer) (m : Manager)
    → 8 ≤ length id_hex
    → Runs (complete pk writes id_hex t m)
unfolding complete
complete-Runs pk writes id_hex t m h =
    if-Runs (ltb (length t.chunks) t.total_chunks) _ _
      (rw (slice-Runs 0 8 id_hex (omega arith) h) (_, refl))
      (bind-Runs _ _ (safe_name-Runs pk id_hex t.file.filename h)
        (λ name. if-Runs (writes name) _ _ (_, refl) (_, refl)))

length-hex : (s : Bytes) → length (hex s) ≡ 2 * length s
unfolding hex
length-hex [] = refl
length-hex (b ∷ s) = omega (arith, length-hex s)

-- Whatever payload arrives, ReceiveChunk comes to its end.
pub receive_chunk-Runs :
    (pk : Packages) (writes : Bytes → Bool) (now : ℕ) (payload : Bytes) (m : Manager)
    → Runs (receive_chunk pk writes now payload m)
unfolding receive_chunk
receive_chunk-Runs pk writes now payload m = elim (Bool-cases (ltb (length payload) header_size)) [
  | inl e ↦ rw (receive_chunk, e) (_, refl)
  | inr e ↦
      let (h, he, hid) =
        decode_header-Runs (take 20 (drop 0 payload))
          (ground (arith, e, length-take 20 (drop 0 payload), length-drop 0 payload)) in
      rw
        (
          receive_chunk,
          e,
          slice-Runs 0 20 payload (omega arith) (ground (arith, e)),
          he,
          slice_from-Runs 20 payload (ground (arith, e)),
        )
        (bind-Runs _ _ (with_chunk-Runs h.chunk_index (drop 20 payload) _) (λ t.
          complete-Runs pk writes (hex h.transfer_id) t m
            (omega (arith, hid, length-hex h.transfer_id))))
]
