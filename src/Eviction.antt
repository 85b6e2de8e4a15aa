-- ===== src/Eviction.antt =====
-- src/index/src/eviction.rs: the two-queue eviction policy. A method locks one queue at a time; one
-- call is one step here.
pub mod Recency
mod Examples
use virthub.Common.{
  ℕ, Bool, true, false, ◌&&◌, Option, none, some, List, [], ◌∷◌, ◌++◌, if◌then◌else◌, ◌==◌,
}
use virthub.Common.Result.{Result, ok, err}

pub data EvictionError : Type 0 where
  queue_empty key_not_found : EvictionError

-- `KvBlockKey` of src/store/src/kv_block.rs.
pub record KvBlockKey : Type 0 where
  pub namespace_id : ℕ
  pub block_id : ℕ

abbrev pub key_eq : KvBlockKey → KvBlockKey → Bool
key_eq a b = a.namespace_id == b.namespace_id && a.block_id == b.block_id

pub record TwoQEvictionPolicy : Type 0 where
  pub in_queue : List KvBlockKey
  pub lru_queue : List KvBlockKey

unfoldable pub new : TwoQEvictionPolicy
new = record { in_queue = []; lru_queue = [] }

-- `position` and then `remove` at it: the queue without the first occurrence of a key, if it has one.
unfoldable pub remove_found : KvBlockKey → List KvBlockKey → Option (List KvBlockKey)
remove_found k [] = none
remove_found k (x ∷ xs) =
    let rest = remove_found k xs in
    if key_eq x k then some xs else elim rest [ none ↦ none | some ys ↦ some (x ∷ ys) ]

unfoldable pub touch : TwoQEvictionPolicy → KvBlockKey → TwoQEvictionPolicy
unfolding remove_found
touch p key = elim (remove_found key p.lru_queue) [
  | some lru ↦ record p { lru_queue = lru ++ (key ∷ []) }
  | none ↦ elim (remove_found key p.in_queue) [
    | some in_q ↦ record p { in_queue = in_q ++ (key ∷ []) }
    | none ↦ record p { in_queue = p.in_queue ++ (key ∷ []) }
  ]
]

-- `pop_front`
abbrev pub pop_front : List KvBlockKey → Option (KvBlockKey × List KvBlockKey)
pop_front [] = none
pop_front (x ∷ xs) = some (x, xs)

unfoldable pub evict_next :
    TwoQEvictionPolicy → TwoQEvictionPolicy × Result EvictionError KvBlockKey
evict_next p = elim (pop_front p.lru_queue) [
  | some (key, lru) ↦ (record p { lru_queue = lru }, ok key)
  | none ↦ elim (pop_front p.in_queue) [
    | some (key, in_q) ↦ (record p { in_queue = in_q }, ok key)
    | none ↦ (p, err queue_empty)
  ]
]

unfoldable pub remove :
    TwoQEvictionPolicy → KvBlockKey → TwoQEvictionPolicy × Result EvictionError (Unit {0})
unfolding remove_found
remove p key = elim (remove_found key p.lru_queue) [
  | some lru ↦ (record p { lru_queue = lru }, ok tt)
  | none ↦ elim (remove_found key p.in_queue) [
    | some in_q ↦ (record p { in_queue = in_q }, ok tt)
    | none ↦ (p, err key_not_found)
  ]
]
