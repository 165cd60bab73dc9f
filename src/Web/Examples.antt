-- ===== src/Web/Examples.antt =====
-- internal/web/api.go: the theorems on messages at concrete inputs.
use iskra.Base.{
  ℕ, ◌<◌, ◌≡◌, ◌&&◌, refl, true, false, if◌then◌else◌, some, none, List, [], ◌∷◌, ◌++◌, length,
  take, drop, arith, All,
}
use iskra.Base.Bytes.{Bytes, zeros, zeros-IsArray, IsByte, codes, ◌=?◌}
use iskra.Base.Hex.{hex}
use iskra.Crypto.Examples.{toy, toy-Laws}
use iskra.Identity.{user_id, to_base58, from_base58}
use iskra.Message.{Message, content_text, content_delivery_confirm}
use iskra.Message.Create.{Keypair, RecipientKeys, compress_payload}
use iskra.Message.Create.Authentic.{IsAuthentic}
use iskra.Message.Examples.{sample, stored, stored-FlateLaws, author, toy-Reachable}
use iskra.Base.Dict.{lookup}
use iskra.Store.Groups.{group_kind}
use iskra.Store.History.{history}
use iskra.Store.History.Found.{kept_or}
use iskra.Store.History.Insertion.{sort, sort-Sorts}
use iskra.Store.Channels.{post_kind, Channel, Channels}
use iskra.Store.Contacts.{Contact, get_by_user_id}
use iskra.Store.First.{find}
use iskra.Store.Hold.{has}
use iskra.Store.Inbox.{inbox_kind}
use iskra.Store.Inbox.Marked.{find_message, delivered_too}
use iskra.Web.{Env, Moment, Api, Sent, by_lan, by_relay, copy_key, relay_send, lan_send}
use iskra.Web.Incoming.{confirm_keys, send_delivery_confirm, handle_incoming}
use iskra.Web.Incoming.Survives.{handle_incoming_returns}
use iskra.Web.Incoming.Opened.{CanSend}
use iskra.Web.Send.{reply_key, recipient_keys, handle_messages}
use iskra.Web.Delivery.{handle_incoming-handle_messages, handle_incoming-send_delivery_confirm}
use iskra.Web.Letters.{get_letters, get_letters_of_contact}

abbrev pub env : Env
env = record {
  primitives = toy;
  flate = stored;
  fuel = 1;
  packages = record { zip = λ n x. some x; unzip = λ x. some x; base = λ x. x; ext = λ x. [] };
  contacts_json = record { encode = λ cs. []; decode = λ x. none };
  groups_json = record { encode = λ gs ms. []; decode = λ x. none };
  channels_json = record { encode = λ cs ps. []; decode = λ x. none };
  read_group = λ x. none;
  write_group = λ g. none;
  read_letter = λ x. none;
  quote = λ x. x;
  decimal = λ n. [];
  sort_inbox = sort inbox_kind;
  sort_group = sort group_kind;
  sort_posts = sort post_kind;
}

abbrev pub moment : Moment
moment = record {
  world = record { iv = some (zeros 24); writable = true; now = 100 };
  nanos = 100000000000;
  disk = record { writable = λ x. true; readable = λ x. true; listable = true };
  writes = λ x. true;
  draws = λ i. record { key = some (zeros 32); iv = some (zeros 24) };
  links = record {
    has_transport = true;
    peer_count = 1;
    has_relay = true;
    relay_connected = true;
    relay_sends = true;
    dns_connected = false;
    dns_sends = false;
  };
}

abbrev uid : Bytes
uid = codes "friend"

abbrev friend : Contact
friend = record {
  name = codes "Friend";
  pub_key = [];
  x25519_pub = [];
  user_id = uid;
  added_at = 0;
  last_seen = 0;
}

abbrev news : Channel
news = record {
  id = codes "news";
  author_pub = [];
  x25519_pub = [];
  title = codes "News";
  created_at = 0;
  is_owner = true;
}

abbrev channels : Channels
channels = record { channels = news ∷ []; posts = []; vault_key = none; file = none }

abbrev pub node : Keypair → List Contact → Api
node keypair contacts = record {
  keypair = keypair;
  contacts = record { contacts = contacts; vault_key = none; file = none; corrupt = none };
  inbox = [];
  hold = record { files = []; meta = []; saved = [] };
  bloom = record { bits = []; num_bits = 64; num_hash = 0 };
  groups = none;
  channels = some channels;
  file_mgr = none;
}

abbrev sender : Api
sender = node author (friend ∷ [])

abbrev receiver : Api
receiver = node author []

-- A node with another key.
abbrev other : Api
other = node (record author { ed25519_pub = 1 ∷ zeros 31 }) []

abbrev zero_keys : RecipientKeys
zero_keys = record { ed25519_pub = zeros 32; x25519_pub = zeros 32 }

can_send :
    (text : Bytes) (ct : ℕ)
    → compress_payload stored text ct ≡ 0 ∷ text
    → All IsByte text
    → length text < 100
    → CanSend env moment 0 author zero_keys ct text (zeros 32)
can_send text ct e bytes short = record {
  ephemeral = zeros 32;
  ephemeral_pub = zeros 32;
  secret = zeros 32;
  iv = zeros 24;
  keys = refl;
  recipient = refl;
  drawn_key = refl;
  drawn_iv = refl;
  public = refl;
  agreed = refl;
  bytes = rw e (omega arith, bytes);
  fits = rw e (omega (arith, short));
  worked = toy-Reachable;
}

survives_example : (r : Api × List Sent) × (handle_incoming env moment (sample 2 9) sender ≡ some r)
survives_example = handle_incoming_returns env moment (sample 2 9) sender

letters_example : get_letters (λ ms. ms) (5 ∷ 7 ∷ []) sender ≡ []
letters_example = get_letters_of_contact (λ ms. ms) 5 (7 ∷ []) sender

keys_known : recipient_keys friend ≡ some zero_keys
unfolding recipient_keys reply_key copy_key from_base58 take drop zeros ◌=?◌
keys_known = refl

abbrev five : Bytes
five = 5 ∷ []

text_example :
    (m : Message) × (b' : Api) × (let (a', sends, reply) =
        handle_messages env moment uid (some five) sender in
      sends ≡ by_lan m ∷ by_relay m ∷ [])
    × IsAuthentic toy m
    × (handle_incoming env moment m receiver ≡ some (b', send_delivery_confirm env moment m b'))
    × ((j k : Bytes)
        → find (λ x. x.id) k (history j b'.inbox) ≡ (
            if user_id (zeros 32) =? j && hex m.id =? k
            then kept_or
                (record {
                  id = hex m.id;
                  from = user_id (zeros 32);
                  from_pub = to_base58 (zeros 32);
                  text = five;
                  timestamp = 100;
                  status = codes "delivered";
                  outgoing = false;
                  msg_type = [];
                  subject = [];
                })
                (find (λ x. x.id) k (history j []))
            else find (λ x. x.id) k (history j [])))
text_example =
    handle_incoming-handle_messages env toy-Laws stored-FlateLaws moment moment sender receiver uid
      five friend zero_keys (unfold ◌=?◌ in refl) (unfold get_by_user_id find ◌=?◌ in refl)
      keys_known refl
      (can_send five content_text (unfold compress_payload in refl) (omega arith) (omega arith))
      refl (sort-Sorts inbox_kind) (unfold history lookup in tt)

confirm_example :
    (c : Message) × (a' : Api) × (send_delivery_confirm env moment (sample 2 9) receiver
      ≡ relay_send moment.links c ++ lan_send moment.links c)
    × (handle_incoming env moment c sender ≡ some (a', []))
    × ((j : Bytes)
        → find_message j a'.inbox
          ≡ (if hex (zeros 32) =? j then delivered_too (find_message j []) else find_message j []))
    × (has a'.hold (zeros 32) ≡ false)
confirm_example =
    handle_incoming-send_delivery_confirm env toy-Laws stored-FlateLaws moment moment sender
      receiver (sample 2 9)
      (unfold confirm_keys get_by_user_id find in
        can_send (zeros 32) content_delivery_confirm (unfold compress_payload in refl)
          (zeros-IsArray 32).1 (omega (arith, (zeros-IsArray 32).0)))
      refl (zeros-IsArray 32).0
