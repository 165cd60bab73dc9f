-- ===== src/Store/History/Examples.antt =====
-- internal/store: the theorems on histories at concrete inputs. Insertion sort stands in for
-- sort.Slice.

use iskra.Base.{◌-◌, ◌^◌, ◌≡◌, refl, false, some, List, [], ◌∷◌}
use iskra.Base.Bytes.{codes}
use iskra.Base.Dict.{Values, lookup}
use iskra.Store.First.{has_id}
use iskra.Store.History.{history, last}
use iskra.Store.Channels.{ChannelPost, post_kind}
use iskra.Store.History.Insertion.{sort, sort-Sorts}
use iskra.Store.History.Sorted.{IsHistory, Event, added, posted, run, run-IsHistory}

abbrev post : ChannelPost
post = record {
  id = codes "1";
  channel_id = codes "c";
  from = [];
  from_name = [];
  text = [];
  timestamp = 2 ^ 64 - 9;
  outgoing = false;
}

abbrev events : List (Event ChannelPost)
events =
    posted (codes "c") post
    ∷ added 7 (codes "c") (record post { id = codes "2"; timestamp = 0 })
    ∷ []

run_example : Values (IsHistory post_kind) (run post_kind (sort post_kind) events [])
run_example =
    run-IsHistory post_kind (sort post_kind) (sort-Sorts post_kind) (λ t n. refl) events [] tt

empty : has_id (λ (m : ChannelPost). m.id) (codes "1") (history (codes "c") []) ≡ false
unfolding history lookup has_id
empty = refl

one_last : last (post ∷ []) ≡ some post
unfolding last
one_last = refl
