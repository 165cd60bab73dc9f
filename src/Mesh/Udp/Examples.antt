-- ===== src/Mesh/Udp/Examples.antt =====
-- internal/mesh/udp.go: the theorem at a concrete input.
use iskra.Base.{◌≡◌, ap, get_or, ◌≢◌, replicate, refl, some, [], ◌∷◌, arith}
use iskra.Base.Bytes.{Bytes, zeros, zeros-IsArray, ◌=?◌}
use iskra.Base.Dict.{lookup}
use iskra.Base.Hex.{hex, hex_digit}
use iskra.Crypto.Examples.{toy, toy-Laws}
use iskra.Message.{Message, IsTyped}
use iskra.Message.Examples.{sample, sample-IsTyped}
use iskra.Mesh.Udp.{Client, send_message, relay_packet}
use iskra.Mesh.Udp.Sent.{arrives, relay_packet-send_message}

abbrev anna : Bytes
anna = 1 ∷ zeros 19

abbrev letter : Message
letter = record (sample 2 9) { recipient_id = anna }

letter-IsTyped : IsTyped letter
letter-IsTyped =
    let t = sample-IsTyped 2 9 (omega arith) (omega arith) in
    record {
      version_byte = t.version_byte;
      id_array = t.id_array;
      recipient_array = (omega (arith, (zeros-IsArray 19).0), (omega arith, (zeros-IsArray 19).1));
      ttl_word = t.ttl_word;
      timestamp_word = t.timestamp_word;
      content_byte = t.content_byte;
      ephemeral_array = t.ephemeral_array;
      nonce_array = t.nonce_array;
      payload_bytes = t.payload_bytes;
      author_array = t.author_array;
      x25519_array = t.x25519_array;
      signature_array = t.signature_array;
      pow_word = t.pow_word;
    }

abbrev at_home : Client
at_home = record { addr = 42; last_seen = 3 }

known : lookup (hex anna) ((hex anna, at_home) ∷ []) ≡ some at_home
unfolding lookup hex zeros replicate ◌=?◌
known = refl

direct : anna ≢ zeros 20
unfolding zeros replicate
direct h = cc

other : hex (zeros 20) ≢ hex anna
unfolding hex hex_digit zeros replicate
other h = absurd (omega (arith, ap (λ s. get_or s 1 0) h))

relay_example :
    arrives toy
      (relay_packet toy
        (zeros 8)
        7
        41
        (send_message toy (zeros 8) (zeros 20) letter)
        ((hex anna, at_home) ∷ [])).1
    ≡ some (42, some letter)
relay_example =
    relay_packet-send_message (zeros 20) letter (zeros-IsArray 20) letter-IsTyped (omega arith)
      (omega arith) toy toy-Laws (zeros 8) (zeros 8) 7 41 ((hex anna, at_home) ∷ []) at_home
      (zeros-IsArray 8).0 (zeros-IsArray 8).0 direct other known
