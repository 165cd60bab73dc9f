-- ===== src/Store/Contacts/Examples.antt =====
-- internal/store/contacts.go: the theorems at concrete inputs. The JSON of a list is a stand-in: its
-- names, each behind its length.
use iskra.Base.{
  ◌≡◌, ◌==◌, ◌||◌, refl, replicate, true, some, none, List, [], ◌∷◌, ◌++◌, arith, if◌then◌else◌,
  get_or,
}
use iskra.Base.Bytes.{Bytes, zeros, zeros-IsArray, codes, ◌=?◌}
use iskra.Crypto.Examples.{toy, toy-Laws}
use iskra.Store.First.{OwnIds, has_id}
use iskra.Store.Contacts.{
  Contact, Contacts, Json, World, id_of, load, save, new_contacts, get_by_user_id,
}
use iskra.Store.Contacts.Book.{
  Call, add_contact, rename_contact, delete_contact, calls, apply_all, calls_refine,
}
use iskra.Store.Contacts.Saved.{load-save, new_contacts-save}

abbrev anna : Contact
anna = record {
  name = codes "Anna";
  pub_key = [];
  x25519_pub = [];
  user_id = codes "a";
  added_at = 3;
  last_seen = 0;
}

abbrev key : Bytes
key = codes "key"

abbrev list : Contacts
list = record { contacts = anna ∷ []; vault_key = some key; file = none; corrupt = none }

abbrev world : World
world = record { iv = some (zeros 24); writable = true; now = 9 }

-- It knows one list.
abbrev json : Json
json = record {
  encode = λ cs. codes "[1]";
  decode = λ bs. if bs =? codes "[1]" then some (anna ∷ []) else none;
}

abbrev script : List (World × Call)
script =
    (world, rename_contact (codes "a") (codes "Ann"))
    ∷ (world, add_contact (codes "Boris") (zeros 32) (zeros 32))
    ∷ (world, delete_contact (codes "a"))
    ∷ []

calls_example :
    OwnIds id_of (calls toy json script list).contacts
    × (get_by_user_id (codes "a") (calls toy json script list)
        ≡ apply_all script (λ i. get_by_user_id i list) (codes "a"))
calls_example = calls_refine toy json script list (codes "a") (unfold has_id in (refl, tt))

abbrev restarted : Contacts
restarted = record {
  contacts = [];
  vault_key = some key;
  file = (save toy json world list).0.file;
  corrupt = none;
}

load_example :
    ((load toy json restarted).0.contacts ≡ anna ∷ []) × ((load toy json restarted).1 ≡ true)
load_example =
    load-save toy json toy-Laws (zeros 24) key 9 list restarted refl refl refl (unfold ◌=?◌ in refl)
      (omega arith) (zeros-IsArray 24).0 (unfold zeros replicate in λ h. absurd (omega arith))

abbrev sealed : Bytes
sealed = zeros 24 ++ toy.seal (codes "[1]") (zeros 24) key

new_contacts_example : new_contacts toy json (save toy json world list).0.file ≡ (
    if get_or (zeros 24) 0 0 == b'[' || get_or (zeros 24) 0 0 == b'{'
    then record { contacts = []; vault_key = none; file = none; corrupt = some sealed }
    else record { contacts = []; vault_key = none; file = some sealed; corrupt = none })
new_contacts_example =
    new_contacts-save toy json (zeros 24) key 9 list refl (zeros-IsArray 24).0
      (unfold zeros replicate ◌=?◌ in refl)
