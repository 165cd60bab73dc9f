-- ===== src/Mesh/Node.antt =====
-- internal/mesh/sync.go: what a node does with an incoming message. OnMessage is set; it receives the
-- messages of `delivered`, last one first. VerifySignature and VerifyPoW are those of the message.
pub mod Incoming
mod Examples
use iskra.Base.{
  ℕ, ◌≡◌, Bool, true, false, not, ◌&&◌, if◌then◌else◌, Option, some, none, List, [], ◌∷◌,
}
use iskra.Base.Bytes.{Bytes}
use iskra.Crypto.{Primitives}
use iskra.Message.{Message}
use iskra.Message.Sign.{verify_signature, message_pow, is_for_recipient, is_broadcast}
use iskra.Store.Bloom.{Bloom, add, contains}
use iskra.Store.Hold.{Hold, Disk, store}

pub record Node : Type 0 where
  pub keypair : Bytes
  pub hold : Hold
  pub bloom : Bloom
  pub delivered : List Message

-- The two stores at the end of ProcessIncoming.
unfoldable pub forward : Primitives → Disk → ℕ → Message → Node → Node
forward p disk now msg n =
    let n1 =
      if not (is_for_recipient msg n.keypair) && not (is_broadcast msg)
      then record n { hold = (store disk now n.hold msg).0 }
      else n in
    if is_broadcast msg then record n1 { hold = (store disk now n1.hold msg).0 } else n1

-- ProcessIncoming
unfoldable pub process_incoming : Primitives → Disk → ℕ → Message → Node → Node
process_incoming p disk now msg n =
    if contains p n.bloom msg.id
    then n
    else if not (verify_signature p msg)
    then n
    else if not (message_pow p msg 16)
    then n
    else forward p disk now msg
        (record n { bloom = add p msg.id n.bloom; delivered = msg ∷ n.delivered })
