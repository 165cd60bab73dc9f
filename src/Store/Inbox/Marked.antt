-- ===== src/Store/Inbox/Marked.antt =====
-- internal/store/inbox.go: which message MarkDelivered marks.
use iskra.Base.{◌≡◌, refl, if◌then◌else◌, Option, some, none, List, [], ◌∷◌, arith}
use iskra.Base.Bytes.{Bytes, codes, ◌=?◌, =?_iff}
use iskra.Base.Dict.{Dict}
use iskra.Store.First.{find, find-modify, find-absent, find-present}
use iskra.Store.Inbox.{InboxMessage, mark_delivered}

-- The first message with an id, in the first history that has it.
unfoldable pub find_message : Bytes → Dict (List InboxMessage) → Option InboxMessage
find_message j [] = none
find_message j ((k, ms) ∷ rest) = elim (find (λ m. m.id) j ms) [
  | some m ↦ some m
  | none ↦ find_message j rest
]

abbrev pub delivered : InboxMessage → InboxMessage
delivered m = record m { status = codes "delivered" }

abbrev pub delivered_too : Option InboxMessage → Option InboxMessage
delivered_too none = none
delivered_too (some m) = some (delivered m)

-- The message that is found under the id gets the status "delivered"; every other keeps its own.
pub find_message-mark_delivered :
    (msg_id j : Bytes) (messages : Dict (List InboxMessage))
    → find_message j (mark_delivered msg_id messages)
      ≡ (if msg_id =? j then delivered_too (find_message j messages) else find_message j messages)
unfolding find_message mark_delivered
find_message-mark_delivered msg_id j [] = ground arith
find_message-mark_delivered msg_id j ((k, ms) ∷ rest) = ground (
  arith,
  find_message-mark_delivered msg_id j rest,
  find-modify (λ (m : InboxMessage). m.id) msg_id j delivered ms (λ m. refl),
  find-absent (λ (m : InboxMessage). m.id) msg_id ms,
  find-present (λ (m : InboxMessage). m.id) msg_id ms,
  =?_iff msg_id j,
)
