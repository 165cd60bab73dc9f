-- ===== src/Mesh/Transport.antt =====
-- internal/mesh/transport.go: the sync protocol between two nodes. A connection is the list of bytes
-- that are still to be read; what a node writes is a list of bytes. Writes succeed: the handler ignores
-- a failed one. The goroutines, the deadlines and the sockets are left out.
pub mod Frames
pub mod Wants
mod Examples
use Prim.Native.Nat.{bit_and}
use iskra.Base.{
  ℕ, zero, suc, ◌+◌, ◌-◌, ◌*◌, ◌/◌, ◌%◌, ◌^◌, ◌<◌, ◌≡◌, Bool, true, false, not, ◌&&◌, ◌||◌, ◌==◌,
  ltb, leb, if◌then◌else◌, Option, some, none, List, [], ◌∷◌, ◌++◌, length, get_or, take, drop,
}
use iskra.Base.Bytes.{Bytes, ◌=?◌, zeros}
use iskra.Base.Endian.{put_be, get_be}
use iskra.Base.Dict.{contains}
use iskra.Crypto.{Primitives}
use iskra.Message.{Message}
use iskra.Message.Wire.{ok, err, serialize, deserialize}
use iskra.Store.Bloom.{position, contains_loop, remote_bit}
use iskra.Store.Hold.{Hold, Disk, get, mark_forwarded}

-- bloomContains
unfoldable pub bloom_contains : Primitives → Bytes → Bytes → Bool
bloom_contains p bloom_data id =
    if length bloom_data * 8 == 0
    then false
    else contains_loop (λ i. remote_bit bloom_data (position p (length bloom_data * 8) id i)) 10 0

-- Protocol command types
abbrev pub cmd_hello : ℕ
cmd_hello = 1

abbrev pub cmd_have : ℕ
cmd_have = 2

abbrev pub cmd_want : ℕ
cmd_want = 3

abbrev pub cmd_msg : ℕ
cmd_msg = 4

abbrev pub cmd_ack : ℕ
cmd_ack = 5

abbrev pub cmd_manifest : ℕ
cmd_manifest = 6

-- handshake, the bytes sent
unfoldable pub hello : Bytes → ℕ → Bytes
hello pub_key listen_port = cmd_hello ∷ (pub_key ++ put_be 2 listen_port)

-- io.ReadFull of `n` bytes: they and the rest, or an error at the end of the stream.
unfoldable pub read_full : ℕ → Bytes → Option (Bytes × Bytes)
read_full n input = if ltb (length input) n then none else some (take n input, drop n input)

-- handshake, the bytes read: the peer's key and port, and the rest of the stream.
unfoldable pub read_hello : Bytes → Option (Bytes × ℕ × Bytes)
read_hello input = elim (read_full 35 input) [
  | none ↦ none
  | some (resp, rest) ↦
      if get_or resp 0 0 == cmd_hello
      then some (take 32 (drop 1 resp), get_be (take 2 (drop 33 resp)), rest)
      else none
]

-- sendHave
unfoldable pub send_have : Bytes → Bytes
send_have bloom_data = cmd_have ∷ (put_be 4 (length bloom_data) ++ bloom_data)

-- sendMsg
unfoldable pub send_msg : Message → Bytes
send_msg msg = let data' = serialize msg in cmd_msg ∷ (put_be 4 (length data') ++ data')

-- sendAck
unfoldable pub send_ack : Bytes → Bytes
send_ack msg_id = cmd_ack ∷ msg_id

-- sendManifest
unfoldable pub prefixes : List Message → Bytes
prefixes [] = []
prefixes (msg ∷ msgs) = take 8 msg.id ++ prefixes msgs

unfoldable pub send_manifest : List Message → Bytes
send_manifest hold_msgs = cmd_manifest ∷ (put_be 4 (length hold_msgs) ++ prefixes hold_msgs)

-- sendWantList
unfoldable pub joined : List Bytes → Bytes
joined [] = []
joined (id ∷ ids) = id ++ joined ids

unfoldable pub send_want_list : List Bytes → Bytes
send_want_list ids = cmd_want ∷ (put_be 4 (length ids) ++ joined ids)

-- A length of four bytes, behind a command byte, that may not exceed a limit.
unfoldable pub read_count : ℕ → Bytes → Option (ℕ × Bytes)
read_count limit input = elim (read_full 4 input) [
  | none ↦ none
  | some (len_buf, rest) ↦ if ltb limit (get_be len_buf) then none else some (get_be len_buf, rest)
]

-- `count` items of `n` bytes each.
unfoldable pub read_items : ℕ → ℕ → Bytes → Option (List Bytes × Bytes)
read_items n zero input = some ([], input)
read_items n (suc count) input = elim (read_full n input) [
  | none ↦ none
  | some (item, rest) ↦ elim (read_items n count rest) [
    | none ↦ none
    | some (items, rest') ↦ some (item ∷ items, rest')
  ]
]

-- What the connection changes: the hold, the bytes written, the messages and the acknowledgements
-- handed to the callbacks. `snapshot` is the handler's holdMsgs.
pub record Session : Type 0 where
  pub hold : Hold
  pub written : Bytes
  pub received : List Message
  pub acked : List Bytes

write : Bytes → Session → Session
write bytes s = record s { written = s.written ++ bytes }

-- CmdHave: the messages of the snapshot that the peer's filter does not hold.
unfoldable pub on_have : Primitives → Bytes → List Message → Session → Session
unfolding write
on_have p bloom_data [] s = s
on_have p bloom_data (msg ∷ msgs) s =
    if ltb 0 (length bloom_data) && bloom_contains p bloom_data msg.id
    then on_have p bloom_data msgs s
    else on_have p bloom_data msgs (write (send_msg msg) s)

-- CmdMsg: a message that parses is acknowledged and handed on.
unfoldable pub on_msg : Bytes → Session → Session
unfolding write
on_msg msg_data s = elim (deserialize msg_data) [
  | err _ ↦ s
  | ok msg ↦ let s1 = write (send_ack msg.id) s in record s1 { received = s1.received ++ msg ∷ [] }
]

-- CmdAck
unfoldable pub on_ack : Bytes → Session → Session
on_ack id s = record s { acked = s.acked ++ id ∷ [] }

-- A WANT that names only a prefix has zeros behind it.
unfoldable pub is_prefix : Bytes → Bool
is_prefix id = drop 8 id =? zeros (length (drop 8 id))

unfoldable pub matches : Bytes → Message → Bool
matches id msg = if is_prefix id then take 8 msg.id =? take 8 id else msg.id =? id

-- Send a wanted message and count the forward.
unfoldable pub hand_over : Disk → ℕ → Message → Bytes → Session → Session
unfolding write
hand_over disk now msg id s =
    let s1 = write (send_msg msg) s in record s1 { hold = mark_forwarded disk now id s1.hold }

-- The search of the snapshot: an exact match ends it, a prefix match does not.
unfoldable pub want_loop : Disk → ℕ → Bytes → List Message → Session → Bool → Session × Bool
want_loop disk now id [] s found = (s, found)
want_loop disk now id (msg ∷ msgs) s found = elim (matches id msg) [
  | false ↦ want_loop disk now id msgs s found
  | true ↦ elim (is_prefix id) [
    | true ↦ want_loop disk now id msgs (hand_over disk now msg msg.id s) true
    | false ↦ (hand_over disk now msg msg.id s, true)
  ]
]

-- One identifier of a WANT list, with the fallback to the hold.
unfoldable pub want_one : Disk → ℕ → Bytes → List Message → Session → Session
want_one disk now id snapshot s =
    let (s1, found) = want_loop disk now id snapshot s false in
    if not found && not (is_prefix id)
    then (elim (get disk s1.hold id) [ none ↦ s1 | some msg ↦ hand_over disk now msg id s1 ])
    else s1

-- CmdWant: a list that breaks off is served as far as it was read.
unfoldable pub on_want : Disk → ℕ → ℕ → Bytes → List Message → Session → Session × Option Bytes
on_want disk now zero input snapshot s = (s, some input)
on_want disk now (suc count) input snapshot s = elim (read_full 32 input) [
  | none ↦ (s, none)
  | some (id, rest) ↦ on_want disk now count rest snapshot (want_one disk now id snapshot s)
]

-- The prefixes of the node's own messages.
unfoldable pub my_prefixes : List Message → List Bytes
my_prefixes [] = []
my_prefixes (msg ∷ msgs) = take 8 msg.id ∷ my_prefixes msgs

-- The prefixes to ask for, filled up with zeros to 32 bytes.
unfoldable pub wanted : List Bytes → List Bytes → List Bytes
wanted mine [] = []
wanted mine (prefix ∷ rest) =
    let tail = wanted mine rest in
    if contains prefix mine then tail else (prefix ++ zeros 24) ∷ tail

-- CmdManifest
unfoldable pub on_manifest : List Bytes → List Message → Session → Session
unfolding write
on_manifest peer_prefixes snapshot s =
    let want = wanted (my_prefixes snapshot) peer_prefixes in
    if ltb 0 (length want) then write (send_want_list want) s else s

-- The cases of handleConnection behind the command byte: the session, and the rest of the stream
-- unless the handler returns.
unfoldable pub have_command : Primitives → List Message → Bytes → Session → Session × Option Bytes
have_command p snapshot rest s = elim (read_count (10 * 1024 * 1024) rest) [
  | none ↦ (s, none)
  | some (b_len, rest1) ↦ elim (read_full b_len rest1) [
    | none ↦ (s, none)
    | some (bloom_data, rest2) ↦ (on_have p bloom_data snapshot s, some rest2)
  ]
]

unfoldable pub msg_command : Bytes → Session → Session × Option Bytes
msg_command rest s = elim (read_count (1 * 1024 * 1024) rest) [
  | none ↦ (s, none)
  | some (m_len, rest1) ↦ elim (read_full m_len rest1) [
    | none ↦ (s, none)
    | some (msg_data, rest2) ↦ (on_msg msg_data s, some rest2)
  ]
]

unfoldable pub ack_command : Bytes → Session → Session × Option Bytes
ack_command rest s = elim (read_full 32 rest) [
  | none ↦ (s, none)
  | some (id, rest1) ↦ (on_ack id s, some rest1)
]

unfoldable pub want_command : Disk → ℕ → List Message → Bytes → Session → Session × Option Bytes
want_command disk now snapshot rest s = elim (read_count 10000 rest) [
  | none ↦ (s, none)
  | some (count, rest1) ↦ on_want disk now count rest1 snapshot s
]

unfoldable pub manifest_command : List Message → Bytes → Session → Session × Option Bytes
manifest_command snapshot rest s = elim (read_count 100000 rest) [
  | none ↦ (s, none)
  | some (count, rest1) ↦ elim (read_items 8 count rest1) [
    | none ↦ (s, none)
    | some (peer_prefixes, rest2) ↦ (on_manifest peer_prefixes snapshot s, some rest2)
  ]
]

-- One round of handleConnection.
unfoldable pub handle_command :
    Primitives → Disk → ℕ → List Message → Bytes → Session → Session × Option Bytes
handle_command p disk now snapshot [] s = (s, none)
handle_command p disk now snapshot (cmd ∷ rest) s =
    if cmd == cmd_have
    then have_command p snapshot rest s
    else if cmd == cmd_msg
    then msg_command rest s
    else if cmd == cmd_ack
    then ack_command rest s
    else if cmd == cmd_want
    then want_command disk now snapshot rest s
    else if cmd == cmd_manifest
    then manifest_command snapshot rest s
    else (s, none)
