-- ===== src/Mesh/Transport/Frames.antt =====
-- internal/mesh/transport.go: what one node writes is what the other reads, and the handler ends.
use iskra.Base.{
  ℕ, suc, ◌*◌, ◌^◌, ◌≤◌, ◌<◌, ◌≡◌, ◌∙◌, sym, ap, refl, some, List, [], ◌∷◌, ◌++◌, length, drop,
  take_exact, take_all, drop_exact, length-append, append_assoc, append-nil, arith,
}
use iskra.Base.Bytes.{Bytes, IsArray}
use iskra.Base.Endian.{put_be, length-put_be, get_be-put_be}
use iskra.Crypto.{Primitives}
use iskra.Message.{Message, IsTyped}
use iskra.Message.Wire.{serialize, deserialize, max_payload_len}
use iskra.Message.Wire.RoundTrip.{deserialize-serialize}
use iskra.Store.Hold.{Disk}
use iskra.Mesh.Transport.{
  Session, cmd_hello, msg_command, hello, read_full, read_hello, send_msg, send_ack, read_count,
  on_msg, handle_command,
}

read_full-append : (n : ℕ) (xs ys : Bytes) → length xs ≡ n → read_full n (xs ++ ys) ≡ some (xs, ys)
unfolding read_full
read_full-append n xs ys h =
    rw (take_exact n xs ys h, drop_exact n xs ys h) (ground (arith, length-append xs ys))

drop-cons : (n b : ℕ) (xs : Bytes) → drop (suc n) (b ∷ xs) ≡ drop n xs
unfolding drop
drop-cons n b xs = refl

drop_none : (xs : Bytes) → drop 0 xs ≡ xs
unfolding drop
drop_none xs = refl

-- The HELLO that a node writes is read by its peer as the node's key and port, with the rest of the
-- stream untouched, if the key has 32 bytes and the port 16 bits.
pub read_hello-hello :
    (pub_key rest : Bytes) (port : ℕ)
    → IsArray 32 pub_key
    → port < 2 ^ 16
    → read_hello (hello pub_key port ++ rest) ≡ some (pub_key, port, rest)
unfolding read_hello hello
read_hello-hello pub_key rest port (len, _) h =
    rw
      (
        read_hello,
        read_full-append 35 (cmd_hello ∷ (pub_key ++ put_be 2 port)) rest
            (omega (arith, length-append pub_key (put_be 2 port), length-put_be 2 port)),
      )
      (rw
        (
          drop-cons 0 cmd_hello (pub_key ++ put_be 2 port),
          drop_none (pub_key ++ put_be 2 port),
          drop-cons 32 cmd_hello (pub_key ++ put_be 2 port),
          take_exact 32 pub_key (put_be 2 port) len,
          drop_exact 32 pub_key (put_be 2 port) len,
          take_all 2 (put_be 2 port) (omega (arith, length-put_be 2 port)),
          get_be-put_be 2 port h,
        )
        refl)

read_count-put_be :
    (limit n : ℕ) (rest : Bytes)
    → n ≤ limit
    → limit < 2 ^ 32
    → read_count limit (put_be 4 n ++ rest) ≡ some (n, rest)
unfolding read_count
read_count-put_be limit n rest h w =
    rw
      (
        read_count,
        read_full-append 4 (put_be 4 n) rest (length-put_be 4 n),
        get_be-put_be 4 n (omega arith),
      )
      (ground arith)

-- A message that one node sends is acknowledged and handed on whole by the other, and the rest of the
-- stream is read on: if its fields have their Go types, its version is 2 or later, its payload at
-- most 16 MiB and its wire form at most 1 MiB.
pub handle_command-send_msg :
    (p : Primitives) (disk : Disk) (now : ℕ) (snapshot : List Message) (m : Message) (rest : Bytes)
    (s : Session)
    → IsTyped m
    → 2 ≤ m.version
    → length m.payload ≤ max_payload_len
    → length (serialize m) ≤ 1024 * 1024
    → handle_command p disk now snapshot (send_msg m ++ rest) s ≡ (
      record s { written = s.written ++ send_ack m.id; received = s.received ++ m ∷ [] },
      some rest,
    )
unfolding handle_command msg_command on_msg send_msg
handle_command-send_msg p disk now snapshot m rest s t v fits short =
    rw
      (
        msg_command,
        append_assoc (put_be 4 (length (serialize m))) (serialize m) rest,
        read_count-put_be (1024 * 1024) (length (serialize m)) (serialize m ++ rest) short
            (omega arith),
        read_full-append (length (serialize m)) (serialize m) rest refl,
        on_msg,
        ap deserialize (sym (append-nil (serialize m))) ∙ deserialize-serialize m [] t v fits,
      )
      refl
