-- ===== src/Store/Inbox/Examples.antt =====
-- internal/store/inbox.go: the theorem on its files at a concrete input, and a test of the letters.
use iskra.Base.{◌≡◌, refl, true, false, some, none, List, [], ◌∷◌, drop, arith}
use iskra.Base.Bytes.{codes, zeros, zeros-IsArray, ◌=?◌}
use iskra.Base.Dict.{Dict, lookup}
use iskra.Crypto.Examples.{toy, toy-Laws}
use iskra.Store.Inbox.{InboxMessage}
use iskra.Store.Inbox.Letters.{
  get_all_letters, letters_loop, letters_in, is_any_letter, starts_bracket, cut_bracket, is_some,
  migrated, shown,
}
use iskra.Store.Inbox.Saved.{Inbox, InboxJson, save_shadow, load_inbox, load_inbox-save_shadow}

abbrev hello : InboxMessage
hello = record {
  id = codes "1";
  from = codes "anna";
  from_pub = [];
  text = codes "hello";
  timestamp = 7;
  status = codes "delivered";
  outgoing = false;
  msg_type = [];
  subject = [];
}

abbrev histories : Dict (List InboxMessage)
histories = (codes "anna", hello ∷ []) ∷ []

abbrev json : InboxJson
json = record { encode = λ d. codes "{1}"; decode = λ x. some histories }

abbrev inbox : Inbox
inbox = record {
  messages = histories;
  vault_key = none;
  file = none;
  corrupt = none;
  shadow = none;
}

shadow_example :
    lookup
      (codes "anna")
      (load_inbox toy json (record {
        messages = [];
        vault_key = none;
        file = none;
        corrupt = none;
        shadow = (save_shadow toy json (some (zeros 24)) true inbox).shadow;
      })).messages
    ≡ lookup (codes "anna") histories
shadow_example =
    load_inbox-save_shadow toy toy-Laws json (zeros 24) inbox none (codes "anna") refl (omega arith)
      (zeros-IsArray 24).0 (unfold lookup in refl, tt)

-- The old form of a letter is taken apart.
letters_test :
    get_all_letters
      (λ ms. ms)
      ((codes "anna", record hello { text = codes "[Hi] you" } ∷ hello ∷ []) ∷ [])
    ≡ record hello { text = codes "you"; subject = codes "Hi"; msg_type = codes "letter" } ∷ []
unfolding get_all_letters letters_loop letters_in is_any_letter starts_bracket cut_bracket is_some
    migrated shown ◌=?◌ drop
letters_test = refl
