-- ===== src/FileTransfer/Examples.antt =====
-- internal/filetransfer: the theorems at concrete inputs.
use iskra.Base.{◌≡◌, arith, [], ◌∷◌}
use iskra.Base.Bytes.{zeros, zeros-IsArray, codes}
use iskra.FileTransfer.{ChunkHeader, FileMetadata, chunk_loop}
use iskra.FileTransfer.Chunks.{bodies, bodies-chunk_loop}

abbrev third : ChunkHeader
third = record { transfer_id = zeros 16; chunk_index = 3; total_chunks = 700 }

abbrev photo : FileMetadata
photo = record { filename = codes "a.png"; mime_type = codes "image/png"; file_size = 70000 }

bodies_example : bodies (chunk_loop (zeros 16) 1 (7 ∷ []) 1 0 (5 ∷ 6 ∷ [])) ≡ 7 ∷ 5 ∷ 6 ∷ []
bodies_example =
    bodies-chunk_loop (zeros 16) (7 ∷ []) 1 0 (5 ∷ 6 ∷ []) (zeros-IsArray 16).0 (omega arith)
