-- ===== src/Store/Inbox/Letters.antt =====
-- internal/store/inbox.go: GetAllLetters. sort.Slice, by descending timestamp, is an argument.
use iskra.Base.{
  Bool, true, false, not, ◌&&◌, ◌||◌, ◌==◌, ltb, if◌then◌else◌, Option, some, none, List, [], ◌∷◌,
  ◌++◌, length, get_or, drop,
}
use iskra.Base.Bytes.{Bytes, codes, ◌=?◌}
use iskra.Base.Dict.{Dict}
use iskra.Store.Inbox.{InboxMessage}

-- strings.Index(text, "] "): the text before and after the first occurrence.
unfoldable pub cut_bracket : Bytes → Option (Bytes × Bytes)
cut_bracket [] = none
cut_bracket (c ∷ []) = none
cut_bracket (c ∷ d ∷ s) = elim (c == b']' && d == b' ') [
  | true ↦ some ([], s)
  | false ↦ elim (cut_bracket (d ∷ s)) [
    | none ↦ none
    | some (before, after) ↦ some (c ∷ before, after)
  ]
]

unfoldable pub starts_bracket : Bytes → Bool
starts_bracket text = ltb 2 (length text) && get_or text 0 0 == b'['

unfoldable pub is_some : Option (Bytes × Bytes) → Bool
is_some none = false
is_some (some _) = true

-- A letter, in the fields or in the old form "[Subject] Body".
unfoldable pub is_any_letter : InboxMessage → Bool
is_any_letter m =
    m.msg_type =? codes "letter"
    || not (m.subject =? [])
    || (starts_bracket m.text && is_some (cut_bracket m.text))

-- The old form is taken apart.
unfoldable pub migrated : InboxMessage → InboxMessage
migrated m =
    if m.subject =? [] && starts_bracket m.text
    then (elim (cut_bracket m.text) [
      | none ↦ m
      | some (before, after) ↦
          if ltb 0 (length before)
          then record m { subject = drop 1 before; text = after; msg_type = codes "letter" }
          else m
    ])
    else m

-- The contact stands in `from`, or in `from_pub` of a letter that was sent.
unfoldable pub shown : Bytes → InboxMessage → InboxMessage
shown uid m = if m.outgoing then record m { from_pub = uid } else record m { from = uid }

unfoldable pub letters_in : Bytes → List InboxMessage → List InboxMessage
letters_in uid [] = []
letters_in uid (m ∷ ms) =
    let rest = letters_in uid ms in if is_any_letter m then shown uid (migrated m) ∷ rest else rest

unfoldable pub letters_loop : Dict (List InboxMessage) → List InboxMessage
letters_loop [] = []
letters_loop ((uid, ms) ∷ rest) = letters_in uid ms ++ letters_loop rest

-- GetAllLetters
unfoldable pub get_all_letters :
    (List InboxMessage → List InboxMessage) → Dict (List InboxMessage) → List InboxMessage
get_all_letters sort messages = sort (letters_loop messages)
