-- ===== src/Mesh/Udp/Sent.antt =====
-- internal/mesh/udp.go and cmd/udp-relay/main.go: a datagram through the relay is read back.
use iskra.Base.{
  ℕ, zero, suc, ◌+◌, ◌*◌, ◌%◌, ◌≤◌, ◌<◌, ◌≡◌, ◌≢◌, ◌∙◌, ap, sym, refl, inl, inr, ltb, leb, false,
  Option, some, none, [], ◌∷◌, ◌++◌, length, take, drop, All, All-append, All-take, length-append,
  length-take, take_exact, drop_exact, append_assoc, append-nil, arith, Bool-cases,
}
use iskra.Base.Bytes.{Bytes, zeros, ◌=?◌, =?_iff, IsByte, IsArray}
use iskra.Base.Dict.{Dict, lookup, insert, lookup-insert}
use iskra.Base.Hex.{hex}
use iskra.Crypto.{Primitives, Laws}
use iskra.Crypto.Stream.{xor_bytes}
use iskra.Crypto.Encrypt.Opens.{length-xor_bytes, xor_bytes_twice}
use iskra.Message.{Message, IsTyped}
use iskra.Message.Wire.{ok, serialize, deserialize, max_payload_len}
use iskra.Message.Wire.RoundTrip.{deserialize-serialize, serialize-IsByte, length-deserialize}
use iskra.Mesh.Udp.{
  nonce_size, id_size, network_obf_key, key_loop, generate_key_stream, obfuscate, deobfuscate,
  send_message, message_in, read_packet, Client, destination, relay_packet,
}

module _ (p : Primitives) (laws : Laws p) (iv : Bytes) where
  -- The loop makes enough bytes, and only bytes.
  key_loop-enough :
      (len fuel counter : ℕ) (stream : Bytes)
      → len ≤ length stream + fuel
      → All IsByte stream
      → (len ≤ length (key_loop p iv len fuel counter stream))
        × All IsByte (key_loop p iv len fuel counter stream)
  unfolding key_loop
  key_loop-enough len zero counter stream h bs = (omega arith, bs)
  key_loop-enough len (suc fuel) counter stream h bs = elim (Bool-cases (ltb (length stream) len)) [
    | inr e ↦ rw (key_loop, e) (ground arith, bs)
    | inl e ↦
        rw (key_loop, e)
          (key_loop-enough len fuel ((counter + 1) % 256)
            (stream ++ p.hmac network_obf_key (iv ++ counter ∷ []))
            (omega (
              arith,
              length-append stream (p.hmac network_obf_key (iv ++ counter ∷ [])),
              (laws.hmac_array network_obf_key (iv ++ counter ∷ [])).0,
            ))
            (All-append IsByte stream _ bs
              (laws.hmac_array network_obf_key (iv ++ counter ∷ [])).1))
  ]

  generate_key_stream-IsArray : (len : ℕ) → IsArray len (generate_key_stream p iv len)
  unfolding generate_key_stream
  generate_key_stream-IsArray len =
      let (l, bs) = key_loop-enough len len 0 [] (omega arith) tt in
      (length-take len (key_loop p iv len len 0 []) ∙ omega arith, All-take IsByte len _ bs)

  length-obfuscate : (data' : Bytes) → length (obfuscate p iv data') ≡ length iv + length data'
  unfolding obfuscate
  length-obfuscate data' = omega (
    arith,
    length-append iv (xor_bytes data' (generate_key_stream p iv (length data'))),
    length-xor_bytes data' (generate_key_stream p iv (length data'))
        (generate_key_stream-IsArray (length data')).0,
  )

  -- What is disguised is read back.
  pub deobfuscate-obfuscate :
      (data' : Bytes)
      → length iv ≡ nonce_size
      → 0 < length data'
      → All IsByte data'
      → deobfuscate p (obfuscate p iv data') ≡ some data'
  unfolding deobfuscate obfuscate
  deobfuscate-obfuscate data' n pos bs =
      rw
        (
          deobfuscate,
          long,
          take_exact nonce_size iv (xor_bytes data' stream) n,
          drop_exact nonce_size iv (xor_bytes data' stream) n,
          length-xor_bytes data' stream array.0,
          xor_bytes_twice data' stream bs array.1 array.0,
        )
        refl
    where
      stream : Bytes
      stream = generate_key_stream p iv (length data')

      array : IsArray (length data') stream
      array = generate_key_stream-IsArray (length data')

      long : ltb (length (obfuscate p iv data')) (nonce_size + 1) ≡ false
      long = ground (arith, length-obfuscate data')

-- Where a datagram goes, and what is read from it there.
abbrev pub arrives : Primitives → Option (ℕ × Bytes) → Option (ℕ × Option Message)
arrives p none = none
arrives p (some (addr, packet)) = some (addr, read_packet p packet)

-- The plain bytes of a message from a node.
abbrev plain : Bytes → Message → Bytes
plain my_id m = my_id ++ (m.recipient_id ++ serialize m)

module _ (my_id : Bytes) (m : Message) (own : IsArray id_size my_id) (typed : IsTyped m)
    (v : 2 ≤ m.version) (fits : length m.payload ≤ max_payload_len) where
  parsed : deserialize (serialize m) ≡ ok m
  parsed = ap deserialize (sym (append-nil (serialize m))) ∙ deserialize-serialize m [] typed v fits

  length-plain : length (plain my_id m) ≡ 40 + length (serialize m)
  length-plain = omega (
    arith,
    length-append my_id (m.recipient_id ++ serialize m),
    length-append m.recipient_id (serialize m),
    own.0,
    typed.recipient_array.0,
  )

  plain-IsByte : All IsByte (plain my_id m)
  plain-IsByte =
      All-append IsByte my_id _ own.1
        (All-append IsByte m.recipient_id _ typed.recipient_array.1 (serialize-IsByte m typed))

  behind_ids : drop (id_size * 2) (plain my_id m) ≡ serialize m
  behind_ids =
      ap (drop 40) (sym (append_assoc my_id m.recipient_id (serialize m)))
      ∙ drop_exact 40 (my_id ++ m.recipient_id) (serialize m)
          (omega (arith, length-append my_id m.recipient_id, own.0, typed.recipient_array.0))

  message_in-plain : message_in (plain my_id m) ≡ some m
  unfolding message_in
  message_in-plain = rw (message_in, long, behind_ids, parsed) refl
    where
      long : ltb (length (plain my_id m)) (id_size * 2 + 230) ≡ false
      long = ground (arith, length-plain, length-deserialize (serialize m) parsed)

  read_packet-send_message :
      (p : Primitives) (laws : Laws p) (iv : Bytes)
      → length iv ≡ nonce_size
      → read_packet p (obfuscate p iv (plain my_id m)) ≡ some m
  unfolding read_packet
  read_packet-send_message p laws iv n =
      rw
        (
          read_packet,
          long,
          deobfuscate-obfuscate p laws iv (plain my_id m) n (omega (arith, length-plain))
              plain-IsByte,
          message_in-plain,
        )
        refl
    where
      long : ltb (length (obfuscate p iv (plain my_id m))) (nonce_size + id_size * 2) ≡ false
      long = ground (arith, length-obfuscate p laws iv (plain my_id m), length-plain)

  sender : take id_size (plain my_id m) ≡ my_id
  sender = take_exact id_size my_id _ own.0

  recipient : take id_size (drop id_size (plain my_id m)) ≡ m.recipient_id
  recipient =
      ap (take 20) (drop_exact 20 my_id (m.recipient_id ++ serialize m) own.0)
      ∙ take_exact 20 m.recipient_id (serialize m) typed.recipient_array.0

  destination-plain :
      (clients : Dict Client) {dest : Client}
      → m.recipient_id ≢ zeros 20
      → lookup (hex m.recipient_id) clients ≡ some dest
      → destination (plain my_id m) clients ≡ some dest.addr
  unfolding destination
  destination-plain clients direct known =
      rw (destination, recipient, typed.recipient_array.0, not_zero, long, known) refl
    where
      not_zero : (m.recipient_id =? zeros 20) ≡ false
      not_zero = ground (arith, =?_iff m.recipient_id (zeros 20), direct)

      long : leb (length (plain my_id m)) (id_size * 2) ≡ false
      long = ground (arith, length-plain, length-deserialize (serialize m) parsed)

  -- A message that a node sends to a client of the relay is sent on to the client's address, in a
  -- datagram in which the client reads the message, whatever nonces of eight bytes the node and the
  -- relay draw, if the message has the Go types, a version of 2 or later and a payload of at most
  -- 16 MiB, its recipient is not zero and is not the sender, and the datagrams arrive whole.
  pub relay_packet-send_message :
      (p : Primitives) (laws : Laws p) (iv next : Bytes) (now addr : ℕ) (clients : Dict Client)
      (dest : Client)
      → length iv ≡ nonce_size
      → length next ≡ nonce_size
      → m.recipient_id ≢ zeros 20
      → hex my_id ≢ hex m.recipient_id
      → lookup (hex m.recipient_id) clients ≡ some dest
      → arrives p (relay_packet p next now addr (send_message p iv my_id m) clients).1
        ≡ some (dest.addr, some m)
  unfolding relay_packet send_message
  relay_packet-send_message p laws iv next now addr clients dest n n' direct other known =
      rw
        (
          relay_packet,
          long,
          deobfuscate-obfuscate p laws iv (plain my_id m) n (omega (arith, length-plain))
              plain-IsByte,
          enough,
          sender,
          destination-plain (insert (hex my_id) _ clients) direct still_known,
          read_packet-send_message p laws next n',
        )
        refl
    where
      long : ltb (length (obfuscate p iv (plain my_id m))) (nonce_size + id_size * 2) ≡ false
      long = ground (arith, length-obfuscate p laws iv (plain my_id m), length-plain)

      enough : ltb (length (plain my_id m)) (id_size * 2) ≡ false
      enough = ground (arith, length-plain)

      still_known :
          lookup
            (hex m.recipient_id)
            (insert (hex my_id) (record { addr = addr; last_seen = now }) clients)
          ≡ some dest
      still_known =
          lookup-insert (hex my_id) (hex m.recipient_id) _ clients
          ∙ ground (arith, =?_iff (hex my_id) (hex m.recipient_id), other, known)
