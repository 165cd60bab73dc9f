-- ===== src/Web/Letters.antt =====
-- internal/web/api.go: HandleLetters, what it returns.
use iskra.Base.{ℕ, ◌≡◌, refl, Bool, not, ◌||◌, List, [], ◌∷◌, keep, arith}
use iskra.Base.Bytes.{Bytes, codes, ◌=?◌}
use iskra.Store.History.{history}
use iskra.Store.Inbox.{InboxMessage, is_chat, get_messages}
use iskra.Store.Inbox.Letters.{get_all_letters}
use iskra.Web.{Api}

unfoldable pub is_letter : InboxMessage → Bool
is_letter m = m.msg_type =? codes "letter" || not (m.subject =? [])

-- GET, of a contact or of all where the user id is empty.
unfoldable pub get_letters :
    (List InboxMessage → List InboxMessage) → Bytes → Api → List InboxMessage
get_letters sort [] a = get_all_letters sort a.inbox
get_letters sort (c ∷ uid) a = keep is_letter (get_messages (c ∷ uid) a.inbox)

no_letters : (ms : List InboxMessage) → keep is_letter (keep is_chat ms) ≡ []
unfolding keep is_letter is_chat
no_letters [] = refl
no_letters (m ∷ ms) = ground (arith, no_letters ms)

-- For a contact HandleLetters returns no letter at all, whatever the inbox holds.
pub get_letters_of_contact :
    (sort : List InboxMessage → List InboxMessage) (c : ℕ) (uid : Bytes) (a : Api)
    → get_letters sort (c ∷ uid) a ≡ []
unfolding get_letters get_messages
get_letters_of_contact sort c uid a = no_letters (history (c ∷ uid) a.inbox)
