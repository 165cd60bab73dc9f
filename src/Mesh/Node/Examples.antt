-- ===== src/Mesh/Node/Examples.antt =====
-- internal/mesh/sync.go: the theorems at concrete inputs.
use iskra.Base.{◌≡◌, ◌||◌, not, refl, true, [], ◌∷◌, replicate, take}
use iskra.Base.Bytes.{zeros}
use iskra.Crypto.Pow.{has_leading_zero_bits, verify_pow}
use iskra.Crypto.Encrypt.{verify}
use iskra.Crypto.Examples.{toy}
use iskra.Message.Examples.{sample}
use iskra.Message.Sign.{verify_signature, message_pow, is_for_recipient, is_broadcast}
use iskra.Store.Bloom.{new_bloom, contains, contains_loop, test_bit, hash1, hash2, position}
use iskra.Base.Endian.{get_be}
use iskra.Store.Bloom.Examples.{small-IsFilter}
use iskra.Store.Hold.{Disk, has}
use iskra.Mesh.Node.{Node, process_incoming}
use iskra.Mesh.Node.Incoming.{accepts, process_incoming_once, process_incoming_carries}

abbrev disk : Disk
disk = record { writable = λ x. true; readable = λ x. true; listable = true }

abbrev node : Node
node = record {
  keypair = 1 ∷ zeros 31;
  hold = record { files = []; meta = []; saved = [] };
  bloom = new_bloom 100 7;
  delivered = [];
}

accepted : accepts toy (sample 2 9) node ≡ true
unfolding contains contains_loop new_bloom replicate position hash1 hash2 test_bit get_be
    verify_signature message_pow verify_pow has_leading_zero_bits zeros take verify
accepted = refl

once_example :
    ((process_incoming toy disk 5 (sample 2 9) node).delivered ≡ sample 2 9 ∷ [])
    × (process_incoming toy disk 6 (sample 2 4) (process_incoming toy disk 5 (sample 2 9) node)
        ≡ process_incoming toy disk 5 (sample 2 9) node)
once_example =
    process_incoming_once toy disk 5 6 (sample 2 9) (sample 2 4) node small-IsFilter accepted refl

carries_example : has (process_incoming toy disk 5 (sample 2 9) node).hold (zeros 32) ≡ (
    has node.hold (zeros 32)
    || (is_broadcast (sample 2 9) || not (is_for_recipient (sample 2 9) node.keypair)))
carries_example = process_incoming_carries toy disk 5 (sample 2 9) node accepted refl
