-- ===== src/FileTransfer/Chunks.antt =====
-- internal/filetransfer/transfer.go: the chunks hold the file, and the map of chunks holds them.
use iskra.Base.{
  ℕ, zero, suc, ◌+◌, ◌*◌, ◌≤◌, ◌<◌, ◌≡◌, ap, sym, ◌∙◌, false, ◌==◌, if◌then◌else◌, List, [], ◌∷◌,
  ◌++◌, length, take, drop, drop_exact, take-append-drop, length-append, length-drop, append_assoc,
  length-zero, arith,
}
use iskra.Base.Bytes.{Bytes}
use iskra.Base.Endian.{length-put_be}
use iskra.FileTransfer.{
  ChunkHeader, chunk_size, header_size, encode_header, chunk_loop, put_chunk, get_chunk,
}

-- What the receiver keeps of the payloads, in their order.
pub bodies : List Bytes → Bytes
bodies [] = []
bodies (payload ∷ payloads) = drop header_size payload ++ bodies payloads

length-encode_header :
    (h : ChunkHeader) → length h.transfer_id ≡ 16 → length (encode_header h) ≡ header_size
unfolding encode_header
length-encode_header h e =
    rw (length-append, length-append)
      (omega (arith, length-put_be 2 h.chunk_index, length-put_be 2 h.total_chunks))

body_of :
    (h : ChunkHeader) (xs : Bytes)
    → length h.transfer_id ≡ 16
    → drop header_size (encode_header h ++ xs) ≡ xs
body_of h xs e = drop_exact header_size (encode_header h) xs (length-encode_header h e)

later_bodies :
    (id meta : Bytes) (total n i : ℕ) (rest : Bytes)
    → length id ≡ 16
    → 0 < i
    → length rest ≤ n * chunk_size
    → bodies (chunk_loop id total meta n i rest) ≡ rest
unfolding bodies chunk_loop
later_bodies id meta total zero i rest e pos h = sym (length-zero rest (omega arith))
later_bodies id meta total (suc n) i rest e pos h =
    rw
      (
        chunk_loop,
        bodies,
        not_first i pos,
        body_of (record { transfer_id = id; chunk_index = i; total_chunks = total })
            (take chunk_size rest) e,
        later_bodies id meta total n (i + 1) (drop chunk_size rest) e (omega arith)
            (omega (arith, length-drop chunk_size rest)),
      )
      (take-append-drop chunk_size rest)
  where
    not_first : (i : ℕ) → 0 < i → (i == 0) ≡ false
    not_first i pos = ground arith

-- Without their headers the payloads that PrepareChunks makes are the metadata and then all of the
-- data, nothing lost or repeated: if the transfer id has 16 bytes and there are enough chunks of
-- 900 KiB for the data, at least one.
pub bodies-chunk_loop :
    (id meta : Bytes) (total n : ℕ) (rest : Bytes)
    → length id ≡ 16
    → length rest ≤ suc n * chunk_size
    → bodies (chunk_loop id total meta (suc n) 0 rest) ≡ meta ++ rest
unfolding bodies chunk_loop
bodies-chunk_loop id meta total n rest e h =
    rw
      (
        chunk_loop,
        bodies,
        body_of (record { transfer_id = id; chunk_index = 0; total_chunks = total })
            (meta ++ take chunk_size rest) e,
        later_bodies id meta total n 1 (drop chunk_size rest) e (omega arith)
            (omega (arith, length-drop chunk_size rest)),
      )
      (append_assoc meta (take chunk_size rest) (drop chunk_size rest)
        ∙ ap (λ t. meta ++ t) (take-append-drop chunk_size rest))

-- A chunk that was put in is found under its index, and no other chunk is touched.
pub get_chunk-put_chunk :
    (i j : ℕ) (d : Bytes) (cs : List (ℕ × Bytes))
    → get_chunk j (put_chunk i d cs) ≡ (if i == j then d else get_chunk j cs)
unfolding get_chunk put_chunk
get_chunk-put_chunk i j d [] = ground arith
get_chunk-put_chunk i j d ((k, c) ∷ cs) = ground (arith, get_chunk-put_chunk i j d cs)
