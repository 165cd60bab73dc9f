-- ===== src/Store/Hold/Examples.antt =====
-- internal/store/hold.go: the theorems at concrete inputs.
use iskra.Base.{◌≡◌, refl, arith, true, some, none, [], if◌then◌else◌}
use iskra.Base.Bytes.{Bytes, zeros}
use iskra.Base.Dict.{lookup}
use iskra.Base.Hex.{hex}
use iskra.Message.Examples.{sample, sample-IsTyped}
use iskra.Store.Hold.{
  Hold, HoldMeta, Disk, store_with_ttl, cleanup_locked, read_dir, get_for_sync, get, mark_forwarded,
}
use iskra.Store.Hold.Cleanup.{drops, cleanup_exact}
use iskra.Store.Hold.Sync.{offers, get_for_sync-offers}
use iskra.Store.Hold.Kept.{get-store_with_ttl}
use iskra.Store.Hold.Lifetime.{IsSound, stores, marks, syncs, here, next, Reach-IsSound}

abbrev disk : Disk
disk = record { writable = λ x. true; readable = λ x. true; listable = true }

abbrev empty : Hold
empty = record { files = []; meta = []; saved = [] }

no_entry : (k : Bytes) (m : HoldMeta) → lookup {V = HoldMeta} k [] ≡ some m → ⊥
unfolding lookup
no_entry k m e = cc

empty-IsSound : IsSound empty
empty-IsSound = record { unique = tt; entry = λ k m e. absurd (no_entry k m e) }

abbrev used : Hold
used = mark_forwarded disk 8 (zeros 32) (store_with_ttl disk 5 empty (sample 2 9) 3).0

used-IsSound : IsSound used
used-IsSound =
    Reach-IsSound empty-IsSound
      (next (next here (stores 5 (sample 2 9) 3)) (marks 8 (zeros 32) (omega arith)))

abbrev key : Bytes
key = hex (zeros 32)

cleanup_example :
    (lookup key (cleanup_locked 2000000000 used).meta
      ≡ (if drops 2000000000 (lookup key used.meta) then none else lookup key used.meta))
    × (lookup key (cleanup_locked 2000000000 used).files
        ≡ (if drops 2000000000 (lookup key used.meta) then none else lookup key used.files))
cleanup_example = cleanup_exact 2000000000 used key used-IsSound.unique

sync_example :
    (get_for_sync disk 9 used).1
    ≡ offers disk (cleanup_locked 9 used).meta (read_dir (cleanup_locked 9 used).files)
sync_example = get_for_sync-offers disk 9 used

get_example : get disk (store_with_ttl disk 5 empty (sample 2 9) 3).0 (zeros 32) ≡ some (sample 2 9)
get_example =
    get-store_with_ttl disk 5 empty (sample 2 9) 3 (sample-IsTyped 2 9 (omega arith) (omega arith))
      (omega arith) (omega arith) (unfold lookup in refl) (omega arith) refl refl

lifetime_example : IsSound (get_for_sync disk 9 used).0
lifetime_example = Reach-IsSound empty-IsSound (
    next (next (next here (stores 5 (sample 2 9) 3)) (marks 8 (zeros 32) (omega arith)))
      (syncs 9 (omega arith)))
