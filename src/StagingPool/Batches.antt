-- ===== src/StagingPool/Batches.antt =====
-- Batches and double returns in src/store/src/staging_pool.rs.
use virthub.Common.{
  ℕ, zero, suc, ◌+◌, ◌≤◌, ◌<◌, ◌≡◌, refl, ap, sym, subst, ◌∙◌, List, [], ◌∷◌, ◌++◌, length,
  length-append, take, drop, min, map, arith,
}
use virthub.Common.Word.{add64, sub64, u64_mod}
use virthub.Common.Result.{ok}
use virthub.StagingPool.{
  StagingMemoryPool, StagingSlotHandle, push, handle, pop_from, pop_slot, push_slot,
  pop_slots_batch,
}

IsBatch : StagingMemoryPool → ℕ → StagingMemoryPool × List StagingSlotHandle → Type 0
IsBatch p n (p', slots) =
    (slots ≡ map (handle p) (take n p.free_slots))
    × (p'.free_slots ≡ drop n p.free_slots)
    × (p'.active_popped_count ≡ p.active_popped_count + min n (length p.free_slots))

abbrev popped : StagingMemoryPool → List ℕ → StagingMemoryPool
popped p rest = record p { free_slots = rest; active_popped_count = add64 p.active_popped_count 1 }

pop_slots_batch-IsBatch :
    (n : ℕ) (p : StagingMemoryPool) (free : List ℕ)
    → p.free_slots ≡ free
    → p.active_popped_count + n < u64_mod
    → IsBatch p n (pop_slots_batch p n)
unfolding pop_slots_batch pop_slot pop_from IsBatch
pop_slots_batch-IsBatch zero p free e small = (refl, refl, omega arith)
pop_slots_batch-IsBatch (suc n) p [] e small = ground (arith, e)
pop_slots_batch-IsBatch (suc n) p (i ∷ rest) e small =
    let ih = pop_slots_batch-IsBatch n (popped p rest) rest refl (ground (arith, small)) in
    ground (arith, e, ih, small)

-- A batch takes the free slots in their order, as many as were asked for or all there are, leaves the others
-- free and counts those taken.
pub pop_slots_batch_lem :
    (p : StagingMemoryPool) (n : ℕ)
    → p.active_popped_count + n < u64_mod
    → let (p', slots) = pop_slots_batch p n in
      (slots ≡ map (handle p) (take n p.free_slots))
      × (p'.free_slots ≡ drop n p.free_slots)
      × (p'.active_popped_count ≡ p.active_popped_count + min n (length p.free_slots))
unfolding IsBatch
pop_slots_batch_lem p n small = pop_slots_batch-IsBatch n p p.free_slots refl small

abbrev pushed : StagingMemoryPool → ℕ → StagingMemoryPool
pushed p i = record p {
  free_slots = p.free_slots ++ (i ∷ []);
  active_popped_count = sub64 p.active_popped_count 1;
}

push_slot_room :
    (p : StagingMemoryPool) (i : ℕ)
    → i < p.num_slots
    → length p.free_slots < p.num_slots
    → (push_slot p i).0 ≡ pushed p i
unfolding push_slot push
push_slot_room p i valid room = ground (arith, valid, room)

-- A slot that is returned twice while the pool is empty is handed to two holders: the next two takers get the
-- same addresses.
pub push_slot_twice_shares :
    (p : StagingMemoryPool) (i : ℕ)
    → i < p.num_slots
    → 2 ≤ p.num_slots
    → p.free_slots ≡ []
    → let p1 = (push_slot (push_slot p i).0 i).0 in
      let (p2, first) = pop_slot p1 in
      let (p3, second) = pop_slot p2 in (first ≡ ok (handle p i)) × (second ≡ ok (handle p i))
unfolding pop_slot pop_from
push_slot_twice_shares p i valid room empty =
    let q : StagingMemoryPool = record p {
      free_slots = i ∷ i ∷ [];
      active_popped_count = sub64 (sub64 p.active_popped_count 1) 1;
    } in
    let once = push_slot_room p i valid (omega (arith, room, ap length empty)) in
    let more =
      push_slot_room (pushed p i) i valid
        (omega (arith, room, ap length empty, length-append p.free_slots (i ∷ []))) in
    let both : (push_slot (push_slot p i).0 i).0 ≡ q =
      ap (λ x. (push_slot x i).0) once
      ∙ more
      ∙ ap (λ xs. record q { free_slots = (xs ++ (i ∷ [])) ++ (i ∷ []) }) empty in
    let shares : (x : StagingMemoryPool)
        → x ≡ q
        → ((pop_slot x).1 ≡ ok (handle p i)) × ((pop_slot (pop_slot x).0).1 ≡ ok (handle p i)) =
      λ x e.
        subst
          (λ y.
            ((pop_slot y).1 ≡ ok (handle p i)) × ((pop_slot (pop_slot y).0).1 ≡ ok (handle p i)))
          (sym e) (refl, refl) in
    shares _ both
