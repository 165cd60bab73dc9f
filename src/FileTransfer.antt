-- ===== src/FileTransfer.antt =====
-- internal/filetransfer/transfer.go: chunked file transfer. The zip package, path/filepath and the
-- random transfer id are arguments. Times are in nanoseconds; locks and the log are left out.
pub mod Chunks
pub mod Survives
mod Examples
use iskra.Base.{
  ℕ, zero, suc, ◌+◌, ◌-◌, ◌*◌, ◌/◌, ◌^◌, ◌<◌, ◌≡◌, Bool, true, false, ◌&&◌, ◌||◌, ◌==◌, ltb, leb,
  if◌then◌else◌, Option, some, none, ◌>>=◌, List, [], ◌∷◌, ◌++◌, length, take, drop,
}
use iskra.Base.Bytes.{Bytes, codes, ◌=?◌}
use iskra.Base.Endian.{put_be, get_be}
use iskra.Base.Dict.{Dict, lookup, insert, remove}
use iskra.Base.Hex.{hex}

abbrev pub max_file_size : ℕ
max_file_size = 10 * 1024 * 1024

abbrev pub chunk_size : ℕ
chunk_size = 900 * 1024

abbrev pub header_size : ℕ
header_size = 16 + 2 + 2

pub record ChunkHeader : Type 0 where
  pub transfer_id : Bytes
  pub chunk_index : ℕ
  pub total_chunks : ℕ

pub record FileMetadata : Type 0 where
  pub filename : Bytes
  pub mime_type : Bytes
  -- an int64, as its bit pattern
  pub file_size : ℕ

-- encodeHeader
unfoldable pub encode_header : ChunkHeader → Bytes
encode_header h = h.transfer_id ++ (put_be 2 h.chunk_index ++ put_be 2 h.total_chunks)

-- Go's `s[lo:hi]` and `s[lo:]`, and the numbers that encoding/binary reads at an offset. `none` is the
-- panic of a slice that is too short.
unfoldable pub slice : ℕ → ℕ → Bytes → Option Bytes
slice lo hi s = if leb lo hi && leb hi (length s) then some (take (hi - lo) (drop lo s)) else none

unfoldable pub slice_from : ℕ → Bytes → Option Bytes
slice_from lo s = if leb lo (length s) then some (drop lo s) else none

unfoldable pub uint_at : ℕ → ℕ → Bytes → Option ℕ
uint_at width lo s =
    if leb (lo + width) (length s) then some (get_be (take width (drop lo s))) else none

-- decodeHeader
unfoldable pub decode_header : Bytes → Option ChunkHeader
decode_header buf = do
  id ← slice 0 16 buf
  index ← slice 16 18 buf
  total ← slice 18 20 buf
  some (record { transfer_id = id; chunk_index = get_be index; total_chunks = get_be total })

-- encodeMetadata
unfoldable pub encode_metadata : FileMetadata → Bytes
encode_metadata m =
    put_be 2 (length m.filename)
    ++ (m.filename ++ (put_be 2 (length m.mime_type) ++ (m.mime_type ++ put_be 8 m.file_size)))

-- decodeMetadata: the fields read before the data runs out, and the offset of what follows them, in
-- three parts: the size, the type and the name of the file.
unfoldable pub decode_size : FileMetadata → ℕ → Bytes → Option (FileMetadata × ℕ)
decode_size m offset data' =
    if ltb (length data') (offset + 8)
    then some (m, offset)
    else do size ← uint_at 8 offset data'; some (record m { file_size = size }, offset + 8)

unfoldable pub decode_mime : FileMetadata → ℕ → Bytes → Option (FileMetadata × ℕ)
decode_mime m offset data' = if ltb (length data') (offset + 2) then some (m, offset) else do
  mt_len ← uint_at 2 offset data'
  if ltb (length data') (offset + 2 + mt_len) then some (m, offset + 2) else do
    mime_type ← slice (offset + 2) (offset + 2 + mt_len) data'
    decode_size (record m { mime_type = mime_type }) (offset + 2 + mt_len) data'

abbrev pub no_metadata : FileMetadata
no_metadata = record { filename = []; mime_type = []; file_size = 0 }

unfoldable pub decode_metadata : Bytes → Option (FileMetadata × ℕ)
decode_metadata data' = if ltb (length data') 2 then some (no_metadata, 0) else do
  fn_len ← uint_at 2 0 data'
  if ltb (length data') (2 + fn_len) then some (no_metadata, 0) else do
    filename ← slice 2 (2 + fn_len) data'
    decode_mime (record no_metadata { filename = filename }) (2 + fn_len) data'

-- detectMime, of the extension
unfoldable pub detect_mime : Bytes → Bytes
detect_mime ext =
    if ext =? codes ".jpg" || ext =? codes ".jpeg"
    then codes "image/jpeg"
    else if ext =? codes ".png"
    then codes "image/png"
    else if ext =? codes ".gif"
    then codes "image/gif"
    else if ext =? codes ".webp"
    then codes "image/webp"
    else if ext =? codes ".mp4"
    then codes "video/mp4"
    else if ext =? codes ".pdf"
    then codes "application/pdf"
    else if ext =? codes ".doc" || ext =? codes ".docx"
    then codes "application/msword"
    else if ext =? codes ".txt"
    then codes "text/plain"
    else codes "application/octet-stream"

-- The packages: compressZip (`none` is an error), decompressZip, filepath.Base and filepath.Ext.
pub record Packages : Type 0 where
  pub zip : Bytes → Bytes → Option Bytes
  pub unzip : Bytes → Option Bytes
  pub base : Bytes → Bytes
  pub ext : Bytes → Bytes

-- The loop of PrepareChunks: `n` chunks from index `i` on, `rest` the data not sent yet.
unfoldable pub chunk_loop : Bytes → ℕ → Bytes → ℕ → ℕ → Bytes → List Bytes
chunk_loop transfer_id total meta zero i rest = []
chunk_loop transfer_id total meta (suc n) i rest =
    let hdr =
      encode_header (record { transfer_id = transfer_id; chunk_index = i; total_chunks = total }) in
    let payload =
      if i == 0 then hdr ++ (meta ++ take chunk_size rest) else hdr ++ take chunk_size rest in
    payload ∷ chunk_loop transfer_id total meta n (i + 1) (drop chunk_size rest)

-- The bytes that are split: the raw file where compression makes it no smaller.
unfoldable pub to_send : Bytes → Bytes → Bytes
to_send compressed file = if leb (length file) (length compressed) then file else compressed

-- PrepareChunks, given the content of the file.
unfoldable pub prepare_chunks : Packages → Bytes → Bytes → Bytes → Option (List Bytes)
prepare_chunks pk transfer_id file_path file =
    if ltb max_file_size (length file)
    then none
    else (let filename = pk.base file_path in
        elim (pk.zip filename file) [
          | none ↦ none
          | some compressed ↦
              let sent = to_send compressed file in
              let total = (length sent + chunk_size - 1) / chunk_size in
              let meta : FileMetadata = record {
                filename = filename;
                mime_type = detect_mime (pk.ext filename);
                file_size = length file;
              } in
              if ltb 65535 total
              then none
              else some (chunk_loop transfer_id total (encode_metadata meta) total 0 sent)
        ])

pub record Transfer : Type 0 where
  pub file : FileMetadata
  pub total_chunks : ℕ
  -- a map from chunk indices
  pub chunks : List (ℕ × Bytes)
  pub created_at : ℕ

pub record Manager : Type 0 where
  pub pending : Dict Transfer
  pub output_dir : Bytes

-- `t.Chunks[i] = data` and `t.Chunks[i]`, which is empty where there is no chunk.
unfoldable pub put_chunk : ℕ → Bytes → List (ℕ × Bytes) → List (ℕ × Bytes)
put_chunk i data' [] = (i, data') ∷ []
put_chunk i data' ((j, d) ∷ cs) = elim (j == i) [
  | true ↦ (j, data') ∷ cs
  | false ↦ (j, d) ∷ put_chunk i data' cs
]

unfoldable pub get_chunk : ℕ → List (ℕ × Bytes) → Bytes
get_chunk i [] = []
get_chunk i ((j, d) ∷ cs) = elim (j == i) [ true ↦ d | false ↦ get_chunk i cs ]

-- The loop that assembles `n` chunks from index `i` on.
unfoldable pub assemble : ℕ → ℕ → List (ℕ × Bytes) → Bytes
assemble zero i cs = []
assemble (suc n) i cs = get_chunk i cs ++ assemble n (i + 1) cs

-- The transfer with a chunk put in; chunk 0 brings the metadata.
unfoldable pub with_chunk : ℕ → Bytes → Transfer → Option Transfer
with_chunk i data' t =
    if i == 0
    then (do
      (meta, offset) ← decode_metadata data'
      rest ← slice_from offset data'
      some (record t { file = meta; chunks = put_chunk 0 rest t.chunks }))
    else some (record t { chunks = put_chunk i data' t.chunks })

-- The bytes to save and the name to save them under.
unfoldable pub unpacked : Packages → Bytes → Bytes
unpacked pk assembled = elim (pk.unzip assembled) [ none ↦ assembled | some result ↦ result ]

unfoldable pub safe_name : Packages → Bytes → Bytes → Option Bytes
safe_name pk id_hex filename =
    let name = pk.base filename in
    if name =? [] || name =? codes "."
    then (do short ← slice 0 8 id_hex; some (codes "file_" ++ short))
    else some name

-- The transfer that a chunk belongs to, a new one if there is none.
unfoldable pub transfer_of : ℕ → ℕ → Option Transfer → Transfer
transfer_of now total (some t) = t
transfer_of now total none = record {
  file = no_metadata;
  total_chunks = total;
  chunks = [];
  created_at = now;
}

-- The part of ReceiveChunk behind the new chunk: the file is saved when it is complete.
unfoldable pub complete :
    Packages
    → (Bytes → Bool)
    → Bytes
    → Transfer
    → Manager
    → Option (Manager × Option (Bytes × Bytes))
complete pk writes id_hex t m =
    if ltb (length t.chunks) t.total_chunks
    then (do
      logged ← slice 0 8 id_hex
      some (record m { pending = insert id_hex t m.pending }, none))
    else (do
      name ← safe_name pk id_hex t.file.filename
      let done : Manager = record m { pending = remove id_hex m.pending }
      if writes name
          then some (done, some (name, unpacked pk (assemble t.total_chunks 0 t.chunks)))
          else some (done, none))

-- ReceiveChunk: the manager, and the name and content of a file that is complete. `writes` says
-- whether the file can be written; `none` is a panic.
unfoldable pub receive_chunk :
    Packages → (Bytes → Bool) → ℕ → Bytes → Manager → Option (Manager × Option (Bytes × Bytes))
receive_chunk pk writes now payload m =
    if ltb (length payload) header_size then some (m, none) else do
      buf ← slice 0 header_size payload
      header ← decode_header buf
      let id_hex = hex header.transfer_id
      let t0 = transfer_of now header.total_chunks (lookup id_hex m.pending)
      chunk_data ← slice_from header_size payload
      t ← with_chunk header.chunk_index chunk_data t0
      complete pk writes id_hex t m

-- Cleanup: transfers older than seven days.
unfoldable pub cleanup_loop : ℕ → Dict Transfer → Dict Transfer
cleanup_loop now [] = []
cleanup_loop now ((id, t) ∷ rest) =
    let tail = cleanup_loop now rest in
    if ltb (7 * 24 * 3600 * 1000000000) (now - t.created_at) then tail else (id, t) ∷ tail

unfoldable pub cleanup : ℕ → Manager → Manager
cleanup now m = record m { pending = cleanup_loop now m.pending }
