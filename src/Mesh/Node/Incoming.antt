-- ===== src/Mesh/Node/Incoming.antt =====
-- internal/mesh/sync.go: which messages a node accepts, and what it does with them.
use iskra.Base.{ℕ, ◌≡◌, Bool, true, false, not, ◌&&◌, ◌||◌, ◌∷◌, arith}
use iskra.Base.Hex.{hex}
use iskra.Crypto.{Primitives}
use iskra.Message.{Message}
use iskra.Message.Sign.{verify_signature, message_pow, is_for_recipient, is_broadcast}
use iskra.Store.Bloom.{add, contains}
use iskra.Store.Bloom.Members.{IsFilter, contains-add}
use iskra.Store.Hold.{Disk, has, file_name}
use iskra.Store.Hold.Kept.{has-store}
use iskra.Mesh.Node.{Node, forward, process_incoming}

-- A node takes in a message that it has not seen, with a valid signature and proof of work.
abbrev pub accepts : Primitives → Message → Node → Bool
accepts p msg n =
    not (contains p n.bloom msg.id) && (verify_signature p msg && message_pow p msg 16)

forward-parts :
    (p : Primitives) (disk : Disk) (now : ℕ) (msg : Message) (n : Node)
    → ((forward p disk now msg n).bloom ≡ n.bloom)
      × ((forward p disk now msg n).delivered ≡ n.delivered)
unfolding forward
forward-parts p disk now msg n = ground arith

-- A message that is not accepted changes nothing.
pub process_incoming_rejected :
    (p : Primitives) (disk : Disk) (now : ℕ) (msg : Message) (n : Node)
    → accepts p msg n ≡ false
    → process_incoming p disk now msg n ≡ n
unfolding process_incoming
process_incoming_rejected p disk now msg n h = ground (arith, h)

process_incoming_accepted :
    (p : Primitives) (disk : Disk) (now : ℕ) (msg : Message) (n : Node)
    → accepts p msg n ≡ true
    → process_incoming p disk now msg n
      ≡ forward p disk now msg
          (record n { bloom = add p msg.id n.bloom; delivered = msg ∷ n.delivered })
unfolding process_incoming
process_incoming_accepted p disk now msg n h = ground (arith, h)

-- After a node has taken in a message it has delivered it once, and if the next message has the same
-- identifier the node ignores it, whatever the rest of it. The node's filter must have at least one
-- bit and the size of its words.
pub process_incoming_once :
    (p : Primitives) (disk : Disk) (now later : ℕ) (msg again : Message) (n : Node)
    → IsFilter n.bloom
    → accepts p msg n ≡ true
    → again.id ≡ msg.id
    → ((process_incoming p disk now msg n).delivered ≡ msg ∷ n.delivered)
      × (process_incoming p disk later again (process_incoming p disk now msg n)
          ≡ process_incoming p disk now msg n)
process_incoming_once p disk now later msg again n f h same =
    let marked = record n { bloom = add p msg.id n.bloom; delivered = msg ∷ n.delivered } in
    let (b, d) = forward-parts p disk now msg marked in
    let seen : contains p (forward p disk now msg marked).bloom again.id ≡ true =
      rw (b, same) (contains-add p n.bloom msg.id msg.id f).0 in
    rw (process_incoming_accepted p disk now msg n h)
      (d, process_incoming_rejected p disk later again _ (ground (arith, seen)))

has-forward :
    (p : Primitives) (disk : Disk) (now : ℕ) (msg : Message) (n : Node)
    → disk.writable (file_name (hex msg.id)) ≡ true
    → has (forward p disk now msg n).hold msg.id
      ≡ (has n.hold msg.id || (is_broadcast msg || not (is_for_recipient msg n.keypair)))
unfolding forward
has-forward p disk now msg n w = ground (arith, has-store disk now n.hold msg w)

-- An accepted message, of whatever content type, a file chunk or a delivery confirmation too, is in
-- the hold afterwards exactly if it was there before, or is for all, or is not for this node; its
-- file must be writable.
pub process_incoming_carries :
    (p : Primitives) (disk : Disk) (now : ℕ) (msg : Message) (n : Node)
    → accepts p msg n ≡ true
    → disk.writable (file_name (hex msg.id)) ≡ true
    → has (process_incoming p disk now msg n).hold msg.id
      ≡ (has n.hold msg.id || (is_broadcast msg || not (is_for_recipient msg n.keypair)))
process_incoming_carries p disk now msg n h w =
    let marked = record n { bloom = add p msg.id n.bloom; delivered = msg ∷ n.delivered } in
    rw (process_incoming_accepted p disk now msg n h) (has-forward p disk now msg marked w)
