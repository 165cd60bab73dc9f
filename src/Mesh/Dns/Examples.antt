-- ===== src/Mesh/Dns/Examples.antt =====
-- internal/mesh/dns.go: the theorem at a concrete input. The codec is a stand-in that changes nothing.
use iskra.Base.{◌≡◌, some, All}
use iskra.Base.Bytes.{zeros}
use iskra.Mesh.Dns.{Codec, send_frame}
use iskra.Mesh.Dns.Pieces.{label_text, HasShortLabels, send_frame-labels}

abbrev codec : Codec
codec = record { encode = λ s. s; decode = λ s. some s; number = λ s. some 0; canonical = λ s. s }

labels_example :
    (label_text (send_frame codec 4 (zeros 200)) ≡ zeros 200)
    × All HasShortLabels (send_frame codec 4 (zeros 200))
labels_example = send_frame-labels codec 4 (zeros 200)
