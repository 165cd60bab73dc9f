-- ===== src/Store/History.antt =====
-- internal/store: the histories in inbox.go, groups.go and channels.go. AddMessage and AddPost append a
-- message whose id is new and sort by timestamp; sort.Slice is a parameter.
pub mod Sorted
pub mod Found
pub mod Insertion
mod Examples
use iskra.Base.{
  ℕ, ◌≤◌, ◌≡◌, Bool, true, false, not, ◌&&◌, ◌||◌, ◌==◌, ltb, if◌then◌else◌, Option, some, none,
  List, [], ◌∷◌, ◌++◌, length,
}
use iskra.Base.Bytes.{Bytes, codes, ◌=?◌}
use iskra.Base.Dict.{Dict, lookup, insert, remove}
use iskra.Store.First.{has_id}

-- What the three kinds of message share: an id and a timestamp.
pub record Kind (M : Type 0) : Type 0 where
  pub id_of : M → Bytes
  pub time_of : M → ℕ
  pub at : ℕ → M → M

-- The history of one contact, group or channel; a missing key is an empty slice.
unfoldable pub history : {M : Type 0} → Bytes → Dict (List M) → List M
history key messages = elim (lookup key messages) [ none ↦ [] | some ms ↦ ms ]

-- `posts[len(posts)-1]`, if there is one.
unfoldable pub last : {A : Type 0} → List A → Option A
last [] = none
last (x ∷ xs) = elim (last xs) [ none ↦ some x | some y ↦ some y ]

module _ {M : Type 0} (kind : Kind M) (sort : List M → List M) where
  -- `if msg.Timestamp == 0 { msg.Timestamp = time.Now().Unix() }`
  unfoldable pub stamped : ℕ → M → M
  stamped now m = if kind.time_of m == 0 then kind.at now m else m

  -- AddMessage of the inbox and of the groups.
  unfoldable pub add_message : ℕ → Bytes → M → Dict (List M) → Dict (List M)
  add_message now key m messages =
      if has_id kind.id_of (kind.id_of m) (history key messages)
      then messages
      else insert key (sort (history key messages ++ stamped now m ∷ [])) messages

  -- AddPost of the channels, which takes the timestamp as it is.
  unfoldable pub add_post : Bytes → M → Dict (List M) → Dict (List M)
  add_post key m messages =
      if has_id kind.id_of (kind.id_of m) (history key messages)
      then messages
      else insert key (sort (history key messages ++ m ∷ [])) messages
