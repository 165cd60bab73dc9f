-- ===== src/Mesh/Dns.antt =====
-- internal/mesh/dns.go and cmd/dns-relay/main.go: messages in the names of DNS queries, and the relay
-- that answers them. Base32, fmt.Sscanf and strings.ToUpper are parameters, as are the queries
-- themselves. Times are seconds.
pub mod Pieces
mod Examples
use iskra.Base.{
  ℕ, zero, suc, ◌+◌, ◌-◌, ◌*◌, ◌==◌, ◌||◌, ◌&&◌, not, ltb, leb, if◌then◌else◌, Bool, true, false,
  Option, some, none, List, [], ◌∷◌, ◌++◌, length, take, drop, keep,
}
use iskra.Base.Bytes.{Bytes, codes, zeros, ◌=?◌}
use iskra.Base.Dict.{Dict, lookup, insert, remove}
use iskra.Base.Hex.{hex}
use iskra.Message.{Message}
use iskra.Message.Wire.{Result, ok, err, serialize, deserialize}

abbrev pub dns_id_size : ℕ
dns_id_size = 20

abbrev pub dns_max_label : ℕ
dns_max_label = 63

abbrev pub dns_chunk_size : ℕ
dns_chunk_size = 55

abbrev pub dns_data_labels : ℕ
dns_data_labels = 3

abbrev pub max_pending_msgs : ℕ
max_pending_msgs = 200

-- b32.EncodeToString, b32.DecodeString behind strings.ToUpper, and the number that fmt.Sscanf reads, 0
-- where it reads none and `none` where it is negative; `canonical` is that number printed by %d.
pub record Codec : Type 0 where
  pub encode : Bytes → Bytes
  pub decode : Bytes → Option Bytes
  pub number : Bytes → Option ℕ
  pub canonical : Bytes → Bytes

-- The loop of splitString; a round takes at least one byte, so that as many rounds as bytes are
-- enough.
unfoldable pub split_loop : ℕ → ℕ → Bytes → List Bytes
split_loop zero size s = []
split_loop (suc fuel) size s =
    let size' = if ltb (length s) size then length s else size in
    let rest = split_loop fuel size' (drop size' s) in
    if ltb 0 (length s) then take size' s ∷ rest else []

-- splitString
unfoldable pub split_string : Bytes → ℕ → List Bytes
split_string s size =
    let parts = split_loop (length s) size s in if length parts == 0 then [] ∷ [] else parts

-- A query of sendFrame: the labels with data, the sequence number, the index and the total.
pub record Query : Type 0 where
  pub labels : List Bytes
  pub seq : ℕ
  pub index : ℕ
  pub total : ℕ

unfoldable pub queries : ℕ → ℕ → ℕ → List Bytes → List Query
queries seq total i [] = []
queries seq total i (chunk ∷ chunks) =
    record { labels = split_string chunk dns_chunk_size; seq = seq; index = i; total = total }
    ∷ queries seq total (i + 1) chunks

-- sendFrame, where every query is answered; `seq` is the counter as it was.
unfoldable pub send_frame : Codec → ℕ → Bytes → List Query
send_frame codec seq frame =
    let chunks = split_string (codec.encode frame) (dns_chunk_size * dns_data_labels) in
    queries (seq + 1) (length chunks) 0 chunks

-- SendMessage and BroadcastMessage, as the frame they send.
unfoldable pub direct_frame : Bytes → Message → Bytes
direct_frame my_id msg = my_id ++ (msg.recipient_id ++ serialize msg)

unfoldable pub broadcast_frame : Bytes → Message → Bytes
broadcast_frame my_id msg = my_id ++ (zeros dns_id_size ++ serialize msg)

-- A message that is being put together, here of bytes or of base32 text.
pub record Reassembly : Type 0 where
  pub chunks : List (ℕ × Bytes)
  pub total : ℕ
  pub last_seen : ℕ

-- `chunks[i] = c`
unfoldable pub put_at : ℕ → Bytes → List (ℕ × Bytes) → List (ℕ × Bytes)
put_at i c [] = (i, c) ∷ []
put_at i c ((j, d) ∷ rest) =
    let later = put_at i c rest in if j == i then (j, c) ∷ rest else (j, d) ∷ later

-- `chunks[i]`; a missing chunk is empty.
unfoldable pub chunk_at : ℕ → List (ℕ × Bytes) → Bytes
chunk_at i [] = []
chunk_at i ((j, d) ∷ rest) = if j == i then d else chunk_at i rest

-- The chunks from `i` on, `n` of them.
unfoldable pub put_together : ℕ → ℕ → List (ℕ × Bytes) → Bytes
put_together zero i chunks = []
put_together (suc n) i chunks = chunk_at i chunks ++ put_together n (i + 1) chunks

-- The step that both sides share: a chunk is stored; what is complete is taken out. The sides test in
-- their own ways whether a number of chunks is complete.
unfoldable pub store_chunk :
    (ℕ → ℕ → Bool) → ℕ → Bytes → ℕ → ℕ → Bytes → Dict Reassembly → Dict Reassembly × Option Bytes
store_chunk complete now key index total chunk bufs =
    let old : Reassembly = elim (lookup key bufs) [
      | some buf ↦ buf
      | none ↦ record { chunks = []; total = total; last_seen = now }
    ] in
    let buf : Reassembly = record old { chunks = put_at index chunk old.chunks; last_seen = now } in
    if complete (length buf.chunks) buf.total
    then (remove key bufs, some (put_together buf.total 0 buf.chunks))
    else (insert key buf bufs, none)

-- The guard on the index and the total.
unfoldable pub in_range : Option ℕ → Option ℕ → Option (ℕ × ℕ)
in_range none total = none
in_range (some index) none = none
in_range (some index) (some total) =
    if total == 0 || (ltb 100 total || leb total index) then none else some (index, total)

-- deliverFrame
unfoldable pub deliver_frame : Bytes → Option Message
deliver_frame frame =
    if ltb (length frame) (dns_id_size + dns_id_size)
    then none
    else (elim (deserialize (drop (dns_id_size + dns_id_size) frame)) [
      | ok msg ↦ some msg
      | err e ↦ none
    ])

-- strings.SplitN at dots: at most `n + 1` parts.
unfoldable pub split_n : ℕ → Bytes → Bytes → List Bytes
split_n n part [] = part ∷ []
split_n zero part (c ∷ cs) = (part ++ c ∷ cs) ∷ []
split_n (suc n) part (c ∷ cs) =
    let cut = part ∷ split_n n [] cs in
    let more = split_n (suc n) (part ++ c ∷ []) cs in if c == b'.' then cut else more

-- What processIncoming does with the five parts of a record.
unfoldable pub process_parts :
    Codec → ℕ → List Bytes → Dict Reassembly → Dict Reassembly × Option Message
process_parts codec now (seq ∷ index ∷ total ∷ session ∷ data' ∷ []) bufs =
    elim (in_range (codec.number index) (codec.number total)) [
      | none ↦ (bufs, none)
      | some (i, n) ↦ elim (codec.decode data') [
        | none ↦ (bufs, none)
        | some decoded ↦
            let key = session ++ (codes "-" ++ codec.canonical seq) in
            let (bufs', full) = store_chunk (λ have need. have == need) now key i n decoded bufs in
            (bufs', elim full [ none ↦ none | some frame ↦ deliver_frame frame ])
      ]
    ]
process_parts codec now parts bufs = (bufs, none)

-- processIncoming
unfoldable pub process_incoming_record :
    Codec → ℕ → Bytes → Dict Reassembly → Dict Reassembly × Option Message
process_incoming_record codec now record' bufs = process_parts codec now (split_n 4 [] record') bufs

-- cleanupLoop
unfoldable pub recent_bufs : ℕ → Dict Reassembly → Dict Reassembly
recent_bufs now [] = []
recent_bufs now ((k, buf) ∷ bufs) =
    let rest = recent_bufs now bufs in
    if ltb (buf.last_seen + 60) now then rest else (k, buf) ∷ rest

-- A client of the relay.
pub record PendingMsg : Type 0 where
  pub text : Bytes
  pub created_at : ℕ

pub record DnsClient : Type 0 where
  pub session_id : Bytes
  pub last_seen : ℕ
  pub pending : List PendingMsg

-- handleRegister
unfoldable pub handle_register : ℕ → Bytes → Bytes → Dict DnsClient → Dict DnsClient
handle_register now sender session clients =
    let pending : List PendingMsg = elim (lookup sender clients) [
      | none ↦ []
      | some c ↦ c.pending
    ] in
    insert sender (record { session_id = session; last_seen = now; pending = pending }) clients

-- handlePoll: at most ten messages of the client with the session.
unfoldable pub poll_client : ℕ → Bytes → Dict DnsClient → Dict DnsClient × List PendingMsg
poll_client now session [] = ([], [])
poll_client now session ((id, c) ∷ clients) =
    let (rest, out) = poll_client now session clients in
    if c.session_id =? session
    then (
      (id, record c { last_seen = now; pending = drop 10 c.pending }) ∷ clients,
      take 10 c.pending,
    )
    else ((id, c) ∷ rest, out)

-- trimPending
unfoldable pub trim_pending : List PendingMsg → List PendingMsg
trim_pending ms =
    if ltb max_pending_msgs (length ms) then drop (length ms - max_pending_msgs) ms else ms

unfoldable pub add_pending : PendingMsg → DnsClient → DnsClient
add_pending m c = record c { pending = trim_pending (c.pending ++ m ∷ []) }

unfoldable pub add_to_others : Bytes → PendingMsg → Dict DnsClient → Dict DnsClient
add_to_others sender m [] = []
add_to_others sender m ((id, c) ∷ clients) =
    let rest = add_to_others sender m clients in
    if id =? sender then (id, c) ∷ rest else (id, add_pending m c) ∷ rest

-- handleSend: the label that is an s and digits, with the labels before and behind it.
unfoldable pub all_digits : Bytes → Bool
all_digits [] = true
all_digits (c ∷ cs) = if ltb c b'0' || ltb b'9' c then false else all_digits cs

unfoldable pub is_seq : Bytes → Bool
is_seq [] = false
is_seq (c ∷ cs) = ltb 0 (length cs) && (c == b's' && all_digits cs)

unfoldable pub find_seq : List Bytes → List Bytes → Option (List Bytes × Bytes × List Bytes)
find_seq front [] = none
find_seq front (l ∷ ls) =
    let later = find_seq (front ++ l ∷ []) ls in
    if is_seq l then some (front, drop 1 l, ls) else later

unfoldable pub join : List Bytes → Bytes
join [] = []
join (l ∷ ls) = l ++ join ls

-- handleSend, of a message that is complete: it goes to all or to its recipient.
unfoldable pub forward_text : Codec → ℕ → Bytes → Bytes → Bytes → Dict DnsClient → Dict DnsClient
forward_text codec now seq session text clients = elim (codec.decode text) [
  | none ↦ clients
  | some frame ↦
      if ltb (length frame) (dns_id_size * 2)
      then clients
      else (let recipient = take dns_id_size (drop dns_id_size frame) in
          let m : PendingMsg = record {
            text = codec.canonical seq ++ (codes ".0.1." ++ (session ++ (codes "." ++ text)));
            created_at = now;
          } in
          if recipient =? zeros (length recipient)
          then add_to_others (hex (take dns_id_size frame)) m clients
          else (elim (lookup (hex recipient) clients) [
            | none ↦ clients
            | some c ↦ insert (hex recipient) (add_pending m c) clients
          ]))
]

-- handleSend, of the labels before and behind the sequence number.
unfoldable pub handle_parts :
    Codec
    → ℕ
    → List Bytes
    → Bytes
    → List Bytes
    → Dict Reassembly × Dict DnsClient
    → Dict Reassembly × Dict DnsClient
handle_parts codec now (l ∷ ls) seq (index ∷ total ∷ session ∷ more) (bufs, clients) =
    elim (in_range (codec.number index) (codec.number total)) [
      | none ↦ (bufs, clients)
      | some (i, n) ↦
          let key = session ++ (codes "-s" ++ codec.canonical seq) in
          let (bufs', full) =
            store_chunk (λ have need. leb need have) now key i n (join (l ∷ ls)) bufs in
          (
            bufs',
            elim full [
              | none ↦ clients
              | some text ↦ forward_text codec now seq session text clients
            ],
          )
    ]
handle_parts codec now front seq back state = state

-- handleSend
unfoldable pub handle_send :
    Codec → ℕ → List Bytes → Dict Reassembly × Dict DnsClient → Dict Reassembly × Dict DnsClient
handle_send codec now labels state = elim (find_seq [] labels) [
  | none ↦ state
  | some (front, seq, back) ↦ handle_parts codec now front seq back state
]

-- cleanupLoop of the relay: a client of five minutes ago goes, as do messages of that age.
unfoldable pub recent_clients : ℕ → Dict DnsClient → Dict DnsClient
recent_clients now [] = []
recent_clients now ((id, c) ∷ clients) =
    let rest = recent_clients now clients in
    let kept : DnsClient = record c {
      pending = keep (λ m. ltb now (m.created_at + 5 * 60)) c.pending;
    } in
    if ltb (c.last_seen + 5 * 60) now then rest else (id, kept) ∷ rest
