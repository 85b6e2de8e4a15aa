-- ===== src/Eviction/Examples.antt =====
-- The eviction order of src/index/src/eviction.rs on a few keys.
use virthub.Common.{ℕ, ◌≡◌, refl, List, [], ◌∷◌}
use virthub.Eviction.{KvBlockKey, new}
use virthub.Eviction.Recency.{touch_all, evict_all, evict_all-touch_all, IsFifo}

abbrev key : ℕ → KvBlockKey
key n = record { namespace_id = 1; block_id = n }

abbrev touched : List KvBlockKey
touched = key 100 ∷ key 101 ∷ key 100 ∷ key 102 ∷ []

evict_all-touch_all_example : evict_all 4 (touch_all new touched) ≡ key 101 ∷ key 100 ∷ key 102 ∷ []
evict_all-touch_all_example = evict_all-touch_all touched

new-IsFifo : IsFifo new
unfolding new
new-IsFifo = (refl, tt)
