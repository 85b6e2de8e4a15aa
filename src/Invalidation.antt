-- ===== src/Invalidation.antt =====
-- src/klnk/klnk-daemon/src/invalidation.rs: the ring of invalidation messages and its poller. The ring
-- is read and written by whole entries; one call is one step.
pub mod Ring
pub mod Poller
pub mod Stuck
mod Examples
use virthub.Common.{
  ℕ, zero, suc, ◌+◌, ◌-◌, ◌%◌, Bool, true, false, Option, none, some, if◌then◌else◌, ltb, leb, ◌==◌,
}
use virthub.Common.Result.{Result, ok, err}
use virthub.Common.Word.{add64}
use virthub.Domain.{invalid}
use virthub.ControlPlane.{ControlPlaneManager, update_page_state, remove_reader}

abbrev pub num_entries : ℕ
num_entries = 1024

pub record Message : Type 0 where
  pub vaddr : ℕ
  pub version : ℕ
  pub page_size : ℕ

-- The four words of an entry.
pub record Entry : Type 0 where
  pub valid : ℕ
  pub message : Message

abbrev pub zero_entry : Entry
zero_entry = record { valid = 0; message = record { vaddr = 0; version = 0; page_size = 0 } }

-- The entry array by slot.
pub record InvalidationBuffer : Type 0 where
  pub head : ℕ
  pub tail : ℕ
  pub entries : ℕ → Entry

unfoldable pub new : InvalidationBuffer
new = record { head = 0; tail = 0; entries = λ slot. zero_entry }

-- A compare-and-swap on the tail, as a remote writer makes it.
unfoldable pub advance_tail_atomic :
    InvalidationBuffer → (expected new_val : ℕ) → InvalidationBuffer × Result ℕ ℕ
advance_tail_atomic b expected new_val =
    if b.tail == expected then (record b { tail = new_val }, ok expected) else (b, err b.tail)

unfoldable pub read_entry_raw : InvalidationBuffer → ℕ → Entry
read_entry_raw b idx = b.entries (idx % num_entries)

unfoldable pub write_entry_raw : InvalidationBuffer → ℕ → Entry → InvalidationBuffer
write_entry_raw b idx e = record b {
  entries = λ slot. if slot == idx % num_entries then e else b.entries slot;
}

-- The state of the loop of `process_pending`: the ring, the callback's state, the index and the count.
pub record Pending (S : Type 0) : Type 0 where
  pub buffer : InvalidationBuffer
  pub state : S
  pub idx : ℕ
  pub processed : ℕ

module _ {S : Type 0} (callback : S → Message → S × Bool) where
  -- The loop; each round moves `idx` on, so `tail - head` rounds are enough.
  unfoldable pub process_from : (fuel tail : ℕ) → Pending S → Pending S
  unfolding read_entry_raw write_entry_raw
  process_from zero tail p = p
  process_from (suc fuel) tail p =
      let e = read_entry_raw p.buffer p.idx in
      let (s', accepted) = callback p.state e.message in
      let rest = process_from fuel tail (record {
        buffer = write_entry_raw p.buffer p.idx zero_entry;
        state = s';
        idx = p.idx + 1;
        processed = p.processed + 1;
      }) in
      if ltb p.idx tail
      then (if e.valid == 0 then p else if accepted then rest else record p { state = s' })
      else p

  unfoldable pub process_pending : InvalidationBuffer → S → InvalidationBuffer × S × ℕ
  unfolding process_from
  process_pending b s =
      let p =
        process_from (b.tail - b.head) b.tail
          (record { buffer = b; state = s; idx = b.head; processed = 0 }) in
      (
        if ltb 0 p.processed then record (p.buffer) { head = p.idx } else p.buffer,
        p.state,
        p.processed,
      )

-- The writer's side, which the file's tests use; the counters do not reach 2^64.
unfoldable pub write_entry : InvalidationBuffer → Message → InvalidationBuffer × Bool
unfolding write_entry_raw
write_entry b m = if leb num_entries (b.tail - b.head) then (b, false) else (
  record (write_entry_raw b b.tail (record { valid = 1; message = m })) { tail = b.tail + 1 },
  true,
)

-- The callback of the poller.
unfoldable pub invalidate_page : ControlPlaneManager → Message → ControlPlaneManager × Bool
unfolding update_page_state remove_reader
invalidate_page c m = elim (c.page_states m.vaddr) [
  | none ↦ (c, false)
  | some entry ↦ if entry.primary_owner == c.local_node_id then (c, false) else (
    (remove_reader (update_page_state c m.vaddr invalid entry.primary_owner).0 m.vaddr
        c.local_node_id).0,
    true,
  )
]

-- One round of the poller.
unfoldable pub poll :
    InvalidationBuffer → ControlPlaneManager → InvalidationBuffer × ControlPlaneManager × ℕ
unfolding process_pending invalidate_page
poll b c = if ltb b.head b.tail then process_pending invalidate_page b c else (b, c, 0)
