-- ===== src/Store/Inbox.antt =====
-- internal/store/inbox.go: the decrypted messages, a history for each contact.
pub mod Marked
pub mod Saved
pub mod Letters
mod Examples
use iskra.Base.{ℕ, Bool, not, ◌||◌, if◌then◌else◌, List, [], ◌∷◌, keep}
use iskra.Base.Bytes.{Bytes, codes, ◌=?◌}
use iskra.Base.Dict.{Dict, remove}
use iskra.Store.First.{has_id, modify}
use iskra.Store.History.{Kind, history, add_message}

pub record InboxMessage : Type 0 where
  pub id : Bytes
  pub from : Bytes
  pub from_pub : Bytes
  pub text : Bytes
  -- an int64, as its bit pattern
  pub timestamp : ℕ
  pub status : Bytes
  pub outgoing : Bool
  pub msg_type : Bytes
  pub subject : Bytes

abbrev pub inbox_kind : Kind InboxMessage
inbox_kind = record {
  id_of = λ m. m.id;
  time_of = λ m. m.timestamp;
  at = λ now m. record m { timestamp = now };
}

-- AddMessage
unfoldable pub add_inbox :
    (List InboxMessage → List InboxMessage)
    → ℕ
    → Bytes
    → InboxMessage
    → Dict (List InboxMessage)
    → Dict (List InboxMessage)
add_inbox sort now contact m messages = add_message inbox_kind sort now contact m messages

-- GetMessages: the letters are left out.
unfoldable pub is_chat : InboxMessage → Bool
is_chat m = not (m.msg_type =? codes "letter" || not (m.subject =? []))

unfoldable pub get_messages : Bytes → Dict (List InboxMessage) → List InboxMessage
get_messages contact messages = keep is_chat (history contact messages)

-- Keys
unfoldable pub keys : Dict (List InboxMessage) → List Bytes
keys [] = []
keys ((k, ms) ∷ rest) = k ∷ keys rest

-- DeleteChat
unfoldable pub delete_chat : Bytes → Dict (List InboxMessage) → Dict (List InboxMessage)
delete_chat contact messages = remove contact messages

-- MarkDelivered: the first message with the id, in the first history that has it.
unfoldable pub mark_delivered : Bytes → Dict (List InboxMessage) → Dict (List InboxMessage)
mark_delivered msg_id [] = []
mark_delivered msg_id ((k, ms) ∷ rest) =
    let later = mark_delivered msg_id rest in
    if has_id (λ m. m.id) msg_id ms
    then (k, modify (λ m. m.id) msg_id (λ m. record m { status = codes "delivered" }) ms) ∷ rest
    else (k, ms) ∷ later
