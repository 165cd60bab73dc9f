-- ===== src/Web.antt =====
-- internal/web/api.go: the handlers of a node's interface, and what becomes of a message that arrives.
-- A handler takes the node's state and returns the new state, the messages it hands to the transports
-- and its reply. Saving the inbox, which changes nothing in memory, is left out.
pub mod Posts
pub mod GroupTexts
pub mod Incoming
pub mod Send
pub mod SendGroup
pub mod SendFile
pub mod Publish
pub mod Delivery
pub mod Letters
pub mod Session
pub mod Books
pub mod Account
pub mod Lock
pub mod Examples
use iskra.Base.{
  ℕ, ◌-◌, Bool, true, false, not, ◌&&◌, ltb, if◌then◌else◌, Option, some, none, List, [], ◌∷◌, ◌++◌,
  length, take, drop,
}
use iskra.Base.Bytes.{Bytes, zeros}
use iskra.Base.Dict.{Dict}
use iskra.Crypto.{Primitives}
use iskra.FileTransfer.{Packages, Manager}
use iskra.Identity.{from_base58}
use iskra.Message.{Message}
use iskra.Message.Create.{Keypair, Flate, RecipientKeys, new_with_type}
use iskra.Store.Bloom.{Bloom}
use iskra.Store.Channels.{Channels, ChannelPost, ChannelsJson}
use iskra.Store.Contacts.{Contacts, Contact, Json, World}
use iskra.Store.Groups.{Groups, Group, GroupMessage, GroupsJson}
use iskra.Store.Hold.{Hold, Disk}
use iskra.Store.Inbox.{InboxMessage}

-- What the handlers call outside the repository. `fuel` bounds the nonces that the proof of work
-- tries; `read_group`, `write_group` and `read_letter` are encoding/json on a group and a letter,
-- `quote` is the verb %q of fmt, `decimal` the verb %d.
pub record Env : Type 0 where
  pub primitives : Primitives
  pub flate : Flate
  pub fuel : ℕ
  pub packages : Packages
  pub contacts_json : Json
  pub groups_json : GroupsJson
  pub channels_json : ChannelsJson
  pub read_group : Bytes → Option Group
  pub write_group : Group → Option Bytes
  pub read_letter : Bytes → Option (Bytes × Bytes)
  pub quote : Bytes → Bytes
  pub decimal : ℕ → Bytes
  pub sort_inbox : List InboxMessage → List InboxMessage
  pub sort_group : List GroupMessage → List GroupMessage
  pub sort_posts : List ChannelPost → List ChannelPost

-- What crypto/rand gives for one message: the ephemeral key and the nonce.
pub record Draw : Type 0 where
  pub key : Option Bytes
  pub iv : Option Bytes

-- The state of the transports: which are there or connected, and whether a send returns no error.
pub record Links : Type 0 where
  pub has_transport : Bool
  pub peer_count : ℕ
  pub has_relay : Bool
  pub relay_connected : Bool
  pub relay_sends : Bool
  pub dns_connected : Bool
  pub dns_sends : Bool

-- What a handler finds outside the node: the clock, in seconds and in nanoseconds, the files, the
-- random draws of its messages in turn, and the transports. `writes` says of the name of a file
-- whether it can be written.
pub record Moment : Type 0 where
  pub world : World
  pub nanos : ℕ
  pub disk : Disk
  pub writes : Bytes → Bool
  pub draws : ℕ → Draw
  pub links : Links

-- API, the parts that the handlers change. `none` is a nil pointer.
pub record Api : Type 0 where
  pub keypair : Keypair
  pub contacts : Contacts
  pub inbox : Dict (List InboxMessage)
  pub hold : Hold
  pub bloom : Bloom
  pub groups : Option Groups
  pub channels : Option Channels
  pub file_mgr : Option Manager

-- A message that a transport has accepted.
pub data Sent : Type 0 where
  by_lan : Message → Sent
  by_relay : Message → Sent
  by_dns : Message → Sent

-- Go's `s[:n]` of a text; `none` is the panic where it is too short.
unfoldable pub prefix : ℕ → Bytes → Option Bytes
prefix n s = if ltb (length s) n then none else some (take n s)

-- `copy(key[:], bytes)` into a zero array of 32 bytes.
unfoldable pub copy_key : Bytes → Bytes
copy_key bytes = take 32 bytes ++ drop (length bytes) (zeros 32)

-- message.NewWithType with the draw of a given index.
unfoldable pub create_message :
    Env → Moment → ℕ → Keypair → RecipientKeys → ℕ → Bytes → Option Message
create_message env at i author to ct plaintext =
    new_with_type env.primitives env.flate env.fuel (at.draws i).key (at.draws i).iv at.world.now
      author to ct plaintext

-- BroadcastMessage, where there is a transport.
unfoldable pub lan_send : Links → Message → List Sent
lan_send links m = if links.has_transport then by_lan m ∷ [] else []

-- `if a.RelayClient != nil && a.RelayClient.IsConnected() { a.RelayClient.SendMessage(msg) }`
unfoldable pub relay_send : Links → Message → List Sent
relay_send links m = if links.relay_connected && links.relay_sends then by_relay m ∷ [] else []
