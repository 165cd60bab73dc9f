-- ===== src/Mesh/Transport/Examples.antt =====
-- internal/mesh/transport.go: the theorems at concrete inputs.
use iskra.Base.{◌≡◌, arith, true, some, [], ◌∷◌, ◌++◌}
use iskra.Base.Bytes.{zeros}
use iskra.Crypto.Examples.{toy}
use iskra.Message.{IsTyped}
use iskra.Message.Wire.RoundTrip.{length-serialize}
use iskra.Message.Examples.{sample, sample-IsTyped}
use iskra.Store.Hold.{Disk}
use iskra.Mesh.Transport.{Session, send_msg, send_ack, handle_command}
use iskra.Mesh.Transport.Frames.{handle_command-send_msg}

abbrev disk : Disk
disk = record { writable = λ x. true; readable = λ x. true; listable = true }

abbrev idle : Session
idle = record {
  hold = record { files = []; meta = []; saved = [] };
  written = [];
  received = [];
  acked = [];
}

sample-IsTyped_2 : IsTyped (sample 2 9)
sample-IsTyped_2 = sample-IsTyped 2 9 (omega arith) (omega arith)

send_msg_example :
    handle_command toy disk 5 [] (send_msg (sample 2 9) ++ 1 ∷ []) idle
    ≡ (record idle { written = send_ack (zeros 32); received = sample 2 9 ∷ [] }, some (1 ∷ []))
send_msg_example =
    handle_command-send_msg toy disk 5 [] (sample 2 9) (1 ∷ []) idle sample-IsTyped_2 (omega arith)
      (omega arith) (omega (arith, length-serialize (sample 2 9) sample-IsTyped_2))
