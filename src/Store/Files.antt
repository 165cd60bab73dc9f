-- ===== src/Store/Files.antt =====
-- internal/store: how contacts, groups, channels and inbox keep their file, encrypted under the vault
-- key once it is set. `mark` is the byte that the plain JSON of a store starts with.
use iskra.Base.{
  ℕ, ◌≡◌, not, ◌&&◌, ◌==◌, ltb, if◌then◌else◌, Option, some, none, [], ◌∷◌, ◌++◌, length, get_or,
  arith, All,
}
use iskra.Base.Bytes.{Bytes, IsByte}
use iskra.Crypto.{Primitives, Laws}
use iskra.Security.{encrypt_data, decrypt_data}
use iskra.Security.Vault.{opened}

-- What load decodes: the decrypted data, or the data itself where it looks plain or does not open.
unfoldable pub open_data : Primitives → ℕ → Option Bytes → Bytes → Bytes
open_data p mark none data' = data'
open_data p mark (some key) data' =
    if ltb 0 (length data') && not (get_or data' 0 0 == mark)
    then (elim (decrypt_data p data' key) [ none ↦ data' | some plain ↦ plain ])
    else data'

-- What save writes, with the nonce that was drawn; `none` where crypto/rand fails.
unfoldable pub seal_data : Primitives → Option Bytes → Option Bytes → Bytes → Option Bytes
seal_data p iv none data' = some data'
seal_data p iv (some key) data' = encrypt_data p iv data' key

-- What was written encrypted is decrypted, unless its nonce starts with the mark of plain data.
pub open_data-seal_data :
    (p : Primitives) (laws : Laws p) (mark : ℕ) (iv key data' : Bytes)
    → length iv ≡ 24
    → All IsByte data'
    → open_data p mark (some key) (iv ++ p.seal data' iv key)
      ≡ (if get_or iv 0 0 == mark then iv ++ p.seal data' iv key else data')
unfolding open_data
open_data-seal_data p laws mark [] key data' n bs = cc
open_data-seal_data p laws mark (b ∷ iv) key data' n bs =
    ground (arith, opened p laws (b ∷ iv) data' key n bs)
