-- ===== src/Store/Bloom/Examples.antt =====
-- internal/store/bloom.go: the theorems at concrete inputs.
use iskra.Base.{◌≡◌, refl, true, arith, replicate}
use iskra.Base.Bytes.{zeros}
use iskra.Crypto.Examples.{toy}
use iskra.Store.Bloom.{Bloom, new_bloom, add, contains}
use iskra.Store.Bloom.Members.{IsFilter, contains-add}

abbrev small : Bloom
small = new_bloom 100 7

pub small-IsFilter : IsFilter (new_bloom 100 7)
unfolding new_bloom replicate
small-IsFilter = record { sized = refl; some_bits = omega arith }

contains-add_example :
    (contains toy (add toy (zeros 32) small) (zeros 32) ≡ true)
    × (contains toy small (zeros 3) ≡ true
        → contains toy (add toy (zeros 32) small) (zeros 3) ≡ true)
contains-add_example = contains-add toy small (zeros 32) (zeros 3) small-IsFilter
