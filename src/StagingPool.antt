-- ===== src/StagingPool.antt =====
-- src/store/src/staging_pool.rs: the pool of staging slots. The mapping of memory is a parameter; the
-- lock-free queue of free slots is a bounded queue, and one of its operations is one step.
pub mod Sharing
pub mod Batches
mod Examples
use virthub.Common.{
  ℕ, zero, suc, ◌+◌, ◌*◌, ◌%◌, Bool, true, false, not, ◌&&◌, ◌||◌, Option, none, some, List, [],
  ◌∷◌, ◌++◌, if◌then◌else◌, ltb, leb, ◌==◌, length,
}
use virthub.Common.Word.{add64, sub64, mul64}
use virthub.Common.Result.{Result, ok, err}

abbrev pub page_size_4k : ℕ
page_size_4k = 4096

pub data StagingPoolError : Type 0 where
  mmap_failed : ℕ → StagingPoolError
  pool_exhausted : ℕ → StagingPoolError
  invalid_slot_index : (slot_idx max_slots : ℕ) → StagingPoolError

pub record StagingSlotHandle : Type 0 where
  pub slot_idx : ℕ
  pub vaddr : ℕ
  pub size : ℕ

pub record StagingMemoryPool : Type 0 where
  pub base_ptr : ℕ
  pub total_bytes : ℕ
  pub slot_page_size : ℕ
  pub num_slots : ℕ
  pub free_slots : List ℕ
  pub numa_node : ℕ
  pub active_popped_count : ℕ

-- `ArrayQueue::push`: false on a full queue.
unfoldable pub push : (capacity : ℕ) → List ℕ → ℕ → List ℕ × Bool
push capacity xs x = if leb capacity (length xs) then (xs, false) else (xs ++ (x ∷ []), true)

-- The loop that fills the queue with the indices from `idx` on, `left` of them.
unfoldable pub push_from : (capacity left idx : ℕ) → List ℕ → List ℕ
unfolding push
push_from capacity zero idx xs = xs
push_from capacity (suc left) idx xs = push_from capacity left (idx + 1) (push capacity xs idx).0

-- `mmap` returns an address, which may be null, or an errno. The first write to each page is not seen here.
unfoldable pub new :
    (mmap : ℕ → Result ℕ ℕ)
    → (num_slots slot_page_size numa_node : ℕ) → Result StagingPoolError StagingMemoryPool
unfolding push_from
new mmap num_slots slot_page_size numa_node =
    let total_bytes = mul64 num_slots slot_page_size in
    if num_slots == 0
    then err (pool_exhausted 0)
    else if slot_page_size == 0 || not (slot_page_size % page_size_4k == 0)
    then err (invalid_slot_index 0 0)
    else elim (mmap total_bytes) [
      | err errno ↦ err (mmap_failed errno)
      | ok base ↦
          if base == 0
          then err (mmap_failed 0)
          else ok record {
            base_ptr = base;
            total_bytes = total_bytes;
            slot_page_size = slot_page_size;
            num_slots = num_slots;
            free_slots = push_from num_slots num_slots 0 [];
            numa_node = numa_node;
            active_popped_count = 0;
          }
    ]

abbrev pub handle : StagingMemoryPool → ℕ → StagingSlotHandle
handle p slot_idx = record {
  slot_idx = slot_idx;
  vaddr = add64 p.base_ptr (mul64 slot_idx p.slot_page_size);
  size = p.slot_page_size;
}

unfoldable pub pop_from :
    StagingMemoryPool → List ℕ → StagingMemoryPool × Result StagingPoolError StagingSlotHandle
pop_from p [] = (p, err (pool_exhausted p.num_slots))
pop_from p (slot_idx ∷ rest) = (
  record p { free_slots = rest; active_popped_count = add64 p.active_popped_count 1 },
  ok (handle p slot_idx),
)

unfoldable pub pop_slot :
    StagingMemoryPool → StagingMemoryPool × Result StagingPoolError StagingSlotHandle
unfolding pop_from
pop_slot p = pop_from p p.free_slots

-- A push on a full queue has no effect and is no error.
unfoldable pub push_slot :
    StagingMemoryPool → ℕ → StagingMemoryPool × Result StagingPoolError (Unit {0})
unfolding push
push_slot p slot_idx =
    let (free, pushed) = push p.num_slots p.free_slots slot_idx in
    if leb p.num_slots slot_idx
    then (p, err (invalid_slot_index slot_idx p.num_slots))
    else if pushed
    then (
      record p { free_slots = free; active_popped_count = sub64 p.active_popped_count 1 },
      ok tt,
    )
    else (p, ok tt)

unfoldable pub pop_slots_batch :
    StagingMemoryPool → (count : ℕ) → StagingMemoryPool × List StagingSlotHandle
unfolding pop_slot
pop_slots_batch p zero = (p, [])
pop_slots_batch p (suc count) =
    let (p', popped) = pop_slot p in
    let (p'', others) = pop_slots_batch p' count in
    elim popped [ err _ ↦ (p', []) | ok slot ↦ (p'', slot ∷ others) ]

abbrev pub available_slots : StagingMemoryPool → ℕ
available_slots p = length p.free_slots

abbrev pub active_slots : StagingMemoryPool → ℕ
active_slots p = p.active_popped_count

unfoldable pub has_capacity : StagingMemoryPool → ℕ → Bool
has_capacity p count = leb count (available_slots p)
